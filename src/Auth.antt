-- ===== src/Auth.antt =====
-- src/auth.c and include/auth.h: the user table, the password hash, and the check of a login.
-- A string argument is what the pointer shows, `none` for NULL. The layout of `user_t` is that of a
-- little-endian machine with 32-bit int: the bytes of `role` and `active` follow `password_hash`.
-- OpenSSL's PBKDF2 is the parameter `pbkdf2`, from the password and the salt to the derived key.
pub mod Hash
pub mod Users
pub mod Verify
use secure_ci_coding.Base.{
  ℕ, zero, suc, ◌+◌, ◌-◌, ◌/◌, ◌%◌, ◌^◌, ◌&&◌, ◌||◌, Bool, true, false, not, Option, none, some,
  List, [], ◌∷◌, ◌++◌, map, Bytes, ltb, leb, ◌==◌, if◌then◌else◌, bit_xor, length, take, byte_at,
  codes, cstr, same,
}
use secure_ci_coding.Common.{
  Build, vulnerable, fixed, Role, admin, user, guest, max_username_len, max_password_len,
  user_db_max,
}
use secure_ci_coding.Session.Token.{hex2}

-- `user_t`; the two arrays hold 64 bytes each.
pub record User : Type 0 where
  pub user_id : ℕ
  pub username : Bytes
  pub password_hash : Bytes
  pub role : Role
  pub active : Bool

-- `const char key[] = "SecretKey2024!@#"`
abbrev pub key : Bytes
key = codes "SecretKey2024!@#"

-- Byte `i` of `hash_buf` behind the loop of the vulnerable build.
abbrev pub hash_byte : Bytes → ℕ → ℕ
hash_byte password i =
    if ltb i (length password) && ltb i 63
    then bit_xor (byte_at password i) (byte_at key (i % length key))
    else 0

-- `snprintf(hash_out + i * 2, 3, "%02x", ...)` for `n` bytes from `i` on, without the NULs that the
-- next round overwrites.
unfoldable pub hex_from : ℕ → ℕ → (ℕ → ℕ) → Bytes
hex_from zero i f = []
hex_from (suc n) i f = hex2 (f i) ++ hex_from n (i + 1) f

-- The bytes that `auth_hash_password` writes at `hash_out`, the final NUL included. The fixed build
-- draws a new salt of 16 bytes at every call.
unfoldable pub auth_hash_password : (Bytes → Bytes → Bytes) → Build → (salt : Bytes) → Bytes → Bytes
auth_hash_password pbkdf2 vulnerable salt password = hex_from 32 0 (hash_byte password) ++ 0 ∷ []
auth_hash_password pbkdf2 fixed salt password =
    hex_from 16 0 (byte_at salt) ++ (hex_from 32 0 (byte_at (pbkdf2 password salt)) ++ 0 ∷ [])

-- A 32-bit int in memory, lowest byte first.
abbrev pub int_bytes : ℕ → Bytes
int_bytes w = (w % 256) ∷ (w / 2 ^ 8 % 256) ∷ (w / 2 ^ 16 % 256) ∷ (w / 2 ^ 24 % 256) ∷ []

abbrev pub role_value : Role → ℕ
role_value admin = 0
role_value user = 1
role_value guest = 2

-- What `strcmp` reads at `password_hash`: the array, then the fields that follow it.
abbrev pub hash_memory : User → Bytes
hash_memory u =
    u.password_hash ++ (int_bytes (role_value u.role) ++ int_bytes (if u.active then 1 else 0))

abbrev pub zeros : ℕ → Bytes
zeros zero = []
zeros (suc n) = 0 ∷ zeros n

-- `strncpy` to a cleared array of 64 bytes and the NUL at its end.
abbrev pub name_field : Bytes → Bytes
name_field name = take 63 name ++ zeros (64 - length (take 63 name))

-- `auth_create_user`: -1 is `none`. The table is its first `g_user_count` entries. What the hash
-- writes behind its array falls on `role` and `active`, which are set next, and in the fixed
-- build on the first fields of the next entry, which are set when that is created.
unfoldable pub auth_create_user :
    (Bytes → Bytes → Bytes)
    → Build
    → (salt : Bytes) → Bytes
    → Bytes
    → Role
    → List User
    → Option (List User)
auth_create_user pbkdf2 b salt name password role users =
    if leb user_db_max (length users)
    then none
    else if leb max_username_len (length name)
    then none
    else some (
        users
        ++ record {
          user_id = length users + 1;
          username = name_field name;
          password_hash = take 64 (auth_hash_password pbkdf2 b salt password);
          role = role;
          active = true;
        }
          ∷ [])

-- The loop of `auth_lookup_user`.
unfoldable pub auth_lookup_user : Bytes → List User → Option User
auth_lookup_user name [] = none
auth_lookup_user name (u ∷ users) =
    if u.active && same (cstr u.username) name then some u else auth_lookup_user name users

unfoldable auth_user_exists : Bytes → List User → Bool
auth_user_exists name users = elim (auth_lookup_user name users) [ none ↦ false | some _ ↦ true ]

-- The characters that the fixed build admits in a name.
abbrev is_name_byte : ℕ → Bool
is_name_byte c =
    (leb b'a' c && leb c b'z')
    || ((leb b'A' c && leb c b'Z')
        || ((leb b'0' c && leb c b'9') || (c == b'_' || (c == b'-' || c == b'.'))))

unfoldable pub all_name_bytes : Bytes → Bool
all_name_bytes [] = true
all_name_bytes (c ∷ s) = is_name_byte c && all_name_bytes s

-- The checks in front of the lookup; the vulnerable build makes none.
unfoldable pub input_valid : Build → Bytes → Bytes → Bool
input_valid vulnerable name password = true
input_valid fixed name password =
    not (length name == 0 || leb max_username_len (length name))
    && (not (length password == 0 || leb max_password_len (length password)) && all_name_bytes name)

-- The loop of `auth_verify`: the first active user of the name decides.
unfoldable pub verify_loop : Bytes → Bytes → List User → Bool
verify_loop name compare_hash [] = false
verify_loop name compare_hash (u ∷ users) =
    if u.active && same (cstr u.username) name
    then same (cstr (hash_memory u)) (cstr compare_hash)
    else verify_loop name compare_hash users

unfoldable pub auth_verify :
    (Bytes → Bytes → Bytes)
    → Build
    → (salt : Bytes) → Option Bytes
    → Option Bytes
    → List User
    → Bool
auth_verify pbkdf2 b salt none password users = false
auth_verify pbkdf2 b salt (some name) none users = false
auth_verify pbkdf2 b salt (some name) (some password) users =
    if input_valid b name password
    then verify_loop name (auth_hash_password pbkdf2 b salt password) users
    else false

-- `auth_init`: the three users of the training, with a salt drawn for each; a failed creation is
-- passed over.
abbrev pub or_same : List User → Option (List User) → List User
or_same users none = users
or_same users (some users') = users'

unfoldable pub auth_init : (Bytes → Bytes → Bytes) → Build → (ℕ → Bytes) → List User → List User
auth_init pbkdf2 b salts users =
    let one = or_same users (
      auth_create_user pbkdf2 b (salts 0) (codes "admin") (codes "Admin@SecureFile2024!") admin
        users) in
    let two =
      or_same one
        (auth_create_user pbkdf2 b (salts 1) (codes "alice") (codes "AliceSecret123") user one) in
    or_same two
      (auth_create_user pbkdf2 b (salts 2) (codes "bob") (codes "BobPassword456") user two)
