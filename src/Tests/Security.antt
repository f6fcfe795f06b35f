-- ===== src/Tests/Security.antt =====
-- tests/test_security.c.
pub mod Lifecycle
pub mod Passes
use secure_ci_coding.Base.{
  ℕ, zero, suc, ◌+◌, ◌-◌, ◌^◌, Bool, true, false, not, ◌&&◌, Option, none, some, List, [], ◌∷◌,
  ◌++◌, Bytes, ◌==◌, codes, cstr, same,
}
use secure_ci_coding.Common.{Build, vulnerable, fixed, user, pos, session_token_len}
use secure_ci_coding.Session.{
  Ptr, null, Sessions, Environment, session_create, session_lookup, session_validate,
  session_destroy,
}
use secure_ci_coding.Session.Token.{Buffer, window}
use secure_ci_coding.Auth.{User, auth_init, auth_verify}
use secure_ci_coding.FileHandler.{System, Outcome, size_mod, file_store, file_retrieve}
use secure_ci_coding.Config.{Command, config_backup}

-- A pointer that the table gives, and its comparisons with NULL.
abbrev pub address : Option Ptr → Ptr
address none = null
address (some p) = p

-- The string in a token's buffer.
abbrev token_text : Buffer → Bytes
token_text token = cstr (window session_token_len 0 token.at)

-- `test_session_token_unpredictable`
unfoldable pub test_session_token_unpredictable :
    Build → Environment → Environment → Sessions → Bool × Sessions
test_session_token_unpredictable b e e' s =
    let (sid1, token1, s1) = session_create b e (pos 1) user s in
    let (sid2, token2, s2) = session_create b e' (pos 2) user s1 in
    (
      not (sid1 == sid2) && not (same (token_text token1) (token_text token2)),
      session_destroy b sid2 (session_destroy b sid1 s2),
    )

-- `memset` and the NUL behind it.
unfoldable pub long_name : ℕ → Bytes
long_name zero = []
long_name (suc n) = b'A' ∷ long_name n

-- `test_username_length_validation`
unfoldable pub test_username_length_validation :
    (Bytes → Bytes → Bytes) → Build → (salt : Bytes) → List User → Bool
test_username_length_validation pbkdf2 b salt users =
    not (auth_verify pbkdf2 b salt (some (long_name 1023)) (some (codes "password")) users)

abbrev failed : {A : Type 0} → Option A → Bool
failed none = true
failed (some x) = false

-- `test_path_traversal_rejection`; what the vulnerable build skips counts as passed.
unfoldable pub test_path_traversal_rejection : Build → System → Bytes → Bool
test_path_traversal_rejection vulnerable sys data_dir = true
test_path_traversal_rejection fixed sys data_dir =
    failed (file_retrieve fixed sys data_dir (codes "../../../etc/shadow")).result

-- `test_integer_overflow_prevention`; `beyond` is the memory behind the literal "X".
unfoldable pub test_integer_overflow_prevention :
    Build → System → Bytes → (beyond : Bytes) → Outcome (Unit {0}) × Bool
test_integer_overflow_prevention b sys data_dir beyond =
    let stored =
      file_store b sys data_dir (codes "overflow_test") (b'X' ∷ 0 ∷ beyond) (size_mod - 1) in
    (stored, failed stored.result)

-- `test_session_validation_after_destroy`: behind its last call, behind `session_lookup`, and from the start.
abbrev pub check_gone : Build → ℕ → Sessions → List Bool
check_gone vulnerable sid s = true ∷ []
check_gone fixed sid s = (address (session_lookup sid s).0 == null) ∷ []

abbrev pub check_valid : Build → ℕ → Bool × Sessions → List Bool
check_valid b sid (valid, s) = valid ∷ check_gone b sid (session_destroy b sid s)

abbrev pub check_found : Build → ℕ → (now : ℕ) → Option Ptr × Sessions → List Bool
check_found b sid now (found, s) =
    not (address found == null) ∷ check_valid b sid (session_validate b (address found) now s)

unfoldable pub test_session_validation_after_destroy :
    Build → Environment → (now : ℕ) → Sessions → List Bool
test_session_validation_after_destroy b e now s =
    let (sid, token, s') = session_create b e (pos 99) user s in
    check_found b sid now (session_lookup sid s')

-- `test_config_backup_safe`: the check holds whatever the call does.
unfoldable pub test_config_backup_safe : Build → Command × Bool
test_config_backup_safe b = (config_backup b (codes "/tmp/securefile_backup_test"), true)

-- What the library and the system answer in the course of the program: three calls of `session_create`, the
-- time of `session_validate`, the salts of the users and of the log-in, and the files.
pub record Answers : Type 0 where
  pub create : ℕ → Environment
  pub now : ℕ
  pub salts : ℕ → Bytes
  pub system : System
  pub beyond : Bytes

-- `main`, from the table of sessions and the directory that `setup` leaves.
unfoldable pub test_security : (Bytes → Bytes → Bytes) → Build → Answers → Sessions → List Bool
test_security pbkdf2 b a s =
    let users = auth_init pbkdf2 b a.salts [] in
    let (differ, s') = test_session_token_unpredictable b (a.create 0) (a.create 1) s in
    let data_dir = codes "/tmp/securefile_test" in
    differ
      ∷ test_username_length_validation pbkdf2 b (a.salts 3) users
      ∷ test_path_traversal_rejection b a.system data_dir
      ∷ (test_integer_overflow_prevention b a.system data_dir a.beyond).1
      ∷ true
      ∷ test_session_validation_after_destroy b (a.create 2) a.now s'
    ++ (test_config_backup_safe b).1 ∷ []
