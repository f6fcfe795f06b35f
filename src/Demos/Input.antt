-- ===== src/Demos/Input.antt =====
-- 06_unchecked_input.c and 06_unchecked_input_fixed.c: the check of a name and a password in front of their
-- use. Strings stand without their NUL; a byte of 128 or more is a negative `char`, which is in none of
-- the ranges below.
use secure_ci_coding.Base.{
  ℕ, ◌≤◌, ◌≡◌, ◌↔◌, inl, inr, refl, sym, ap, arith, Bool, true, false, Bool-cases, not, ◌&&◌, ◌||◌,
  Option, none, some, List, [], ◌∷◌, Bytes, ltb, leb, ◌==◌, if◌then◌else◌, length, codes, same,
  same_iff, All,
}

abbrev max_username : ℕ
max_username = 32

abbrev max_password : ℕ
max_password = 128

-- The allow-list of both files.
abbrev is_allowed : ℕ → Bool
is_allowed c =
    (leb b'a' c && leb c b'z')
    || ((leb b'A' c && leb c b'Z')
        || ((leb b'0' c && leb c b'9') || (c == b'_' || (c == b'-' || (c == b'.' || c == b'@')))))

unfoldable all_allowed : Bytes → Bool
all_allowed [] = true
all_allowed (c ∷ s) = is_allowed c && all_allowed s

abbrev is_printable : ℕ → Bool
is_printable c = not (ltb c 32 || c == 127)

unfoldable all_printable : Bytes → Bool
all_printable [] = true
all_printable (c ∷ s) = is_printable c && all_printable s

unfoldable validate_username : Option Bytes → Bool
validate_username none = false
validate_username (some name) =
    not (length name == 0 || leb max_username (length name)) && all_allowed name

unfoldable validate_password : Option Bytes → Bool
validate_password none = false
validate_password (some password) =
    not (length password == 0 || leb max_password (length password)) && all_printable password

-- `user_t` of the vulnerable file, its arrays as the strings in them.
pub record User : Type 0 where
  pub username : Bytes
  pub password : Bytes
  pub role : ℕ

unfoldable init_users : List User
init_users = record { username = codes "admin"; password = codes "s3cr3t!"; role = 0 } ∷ []

unfoldable auth_verify_vuln : Bytes → Bytes → List User → Bool
auth_verify_vuln name password [] = false
auth_verify_vuln name password (u ∷ users) =
    (same u.username name && same u.password password) || auth_verify_vuln name password users

unfoldable auth_verify_fixed : Option Bytes → Option Bytes → List User → Bool
auth_verify_fixed none password users = false
auth_verify_fixed (some name) none users = false
auth_verify_fixed (some name) (some password) users =
    if length name == 0 || leb max_username (length name)
    then false
    else if length password == 0 || leb 64 (length password)
    then false
    else if all_allowed name
    then auth_verify_vuln name password users
    else false

allowed-All : (s : Bytes) → (all_allowed s ≡ true) ↔ All (λ c. is_allowed c ≡ true) s
unfolding all_allowed
allowed-All [] = (λ _. tt, λ _. refl)
allowed-All (c ∷ s) = (
  λ e. (ground arith, (allowed-All s).0 (ground arith)),
  λ (a, rest). ground (arith, (allowed-All s).1 rest),
)

printable-All :
    (s : Bytes) → (all_printable s ≡ true) ↔ All (λ c. (32 ≤ c) × ((c == 127) ≡ false)) s
unfolding all_printable
printable-All [] = (λ _. tt, λ _. refl)
printable-All (c ∷ s) = (
  λ e. (ground arith, (printable-All s).0 (ground arith)),
  λ (a, rest). ground (arith, (printable-All s).1 rest),
)

-- The validators accept exactly a name of 1 to 31 bytes that are all letters, digits or one of '_', '-',
-- '.' and '@', and exactly a password of 1 to 127 bytes without a control character.
validate_exactly :
    (name password : Bytes)
    → ((validate_username (some name) ≡ true)
        ↔ ((1 ≤ length name) × (length name ≤ 31) × All (λ c. is_allowed c ≡ true) name))
      × ((validate_password (some password) ≡ true) ↔ (
          (1 ≤ length password)
          × (length password ≤ 127)
          × All (λ c. (32 ≤ c) × ((c == 127) ≡ false)) password))
unfolding validate_username validate_password
validate_exactly name password = (
  (
    λ e. (ground arith, ground arith, (allowed-All name).0 (ground arith)),
    λ (low, high, all). ground (arith, (allowed-All name).1 all),
  ),
  (
    λ e. (ground arith, ground arith, (printable-All password).0 (ground arith)),
    λ (low, high, all). ground (arith, (printable-All password).1 all),
  ),
)

accepts :
    (name password : Bytes)
    → codes "admin" ≡ name
    → codes "s3cr3t!" ≡ password
    → auth_verify_fixed (some name) (some password) init_users
      ≡ auth_verify_vuln name password init_users
unfolding auth_verify_fixed auth_verify_vuln init_users all_allowed same
accepts name password n p = rw (sym n, sym p) refl

-- On the table of the program, the login with checks and the one without give the same answer for every
-- name and password: only one pair passes either, and it passes the checks.
auth_verify_same :
    (name password : Bytes)
    → (auth_verify_fixed (some name) (some password) init_users
        ≡ auth_verify_vuln name password init_users)
      × ((auth_verify_vuln name password init_users ≡ true)
          → (name ≡ codes "admin") × (password ≡ codes "s3cr3t!"))
unfolding auth_verify_fixed auth_verify_vuln init_users
auth_verify_same name password =
    elim (Bool-cases (same (codes "admin") name && same (codes "s3cr3t!") password)) [
      | inl yes_both ↦
          let n : codes "admin" ≡ name = same_iff (codes "admin") name (ground arith) in
          let p : codes "s3cr3t!" ≡ password = same_iff (codes "s3cr3t!") password (ground arith) in
          (accepts name password n p, λ _. (sym n, sym p))
      | inr e ↦ (ground (arith, e), λ h. ground (arith, e, h))
    ]

-- `main` of the vulnerable file, on the arguments behind the program's name: the answers of the two log-ins,
-- none where it shows its usage.
unfoldable main_vuln : List Bytes → Option (Bool × Bool)
main_vuln [] = none
main_vuln (name ∷ []) = none
main_vuln (name ∷ password ∷ args) = some (
  auth_verify_vuln name password init_users,
  auth_verify_fixed (some name) (some password) init_users,
)

-- `main` of the fixed file: whether the validation passed.
unfoldable main_fixed : List Bytes → Option Bool
main_fixed [] = none
main_fixed (name ∷ []) = none
main_fixed (name ∷ password ∷ args) =
    some (validate_username (some name) && validate_password (some password))

-- The vulnerable program shows the same answer twice for all arguments, and where it shows a success the fixed program
-- passes the same arguments on.
main_same :
    (name password : Bytes) (args : List Bytes)
    → (v : Bool) × (main_vuln (name ∷ password ∷ args) ≡ some (v, v))
      × (v ≡ true → main_fixed (name ∷ password ∷ args) ≡ some true)
unfolding main_vuln main_fixed validate_username validate_password all_allowed all_printable
main_same name password args =
    let (same_answer, only) = auth_verify_same name password in
    (
      auth_verify_vuln name password init_users,
      ap (λ f. some (auth_verify_vuln name password init_users, f)) same_answer,
      λ granted. passes name password (only granted),
    )
  where
    passes :
        (name password : Bytes)
        → (name ≡ codes "admin") × (password ≡ codes "s3cr3t!")
        → ◌≡◌ {A = Option Bool}
            (some (validate_username (some name) && validate_password (some password)))
            (some true)
    passes name password (n, p) = rw (n, p) refl
