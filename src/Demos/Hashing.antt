-- ===== src/Demos/Hashing.antt =====
-- 10_hardcoded_key_fixed.c: a password hash of a salt and a derived key, in hexadecimal digits. OpenSSL's
-- SHA-256 and its PBKDF2 with 100000 iterations are the parameters `sha256` and `pbkdf2`.
pub mod Same
use secure_ci_coding.Base.{
  ℕ, ◌≡◌, refl, codes, ltb, if◌then◌else◌, Bool, true, false, Option, none, some, Bytes,
}
use secure_ci_coding.Session.Token.{Buffer, blank, write_byte, hex_loop}

-- The environment variable, if it is set, and whether OpenSSL gives a context; the result is the key.
unfoldable pub load_key_from_env :
    (sha256 : Bytes → Bytes) → (env_key : Option Bytes) → (context : Bool) → Option Bytes
load_key_from_env sha256 none context = none
load_key_from_env sha256 (some env_key) false = none
load_key_from_env sha256 (some env_key) true = some (sha256 env_key)

-- The key of a call: that of the environment, or else `random_key` from `RAND_bytes`.
abbrev session_key : Option Bytes → Bytes → Bytes
session_key none random_key = random_key
session_key (some key) random_key = key

-- `hash_password_fixed` with its key, which it does not use. `salt` is what the array of 16 bytes holds
-- when it is read.
unfoldable pub hash_password_with :
    (pbkdf2 : Bytes → Bytes → Bytes) → (key salt password : Bytes) → (out_len : ℕ) → Option Buffer
hash_password_with pbkdf2 key salt password out_len =
    let derived = pbkdf2 password salt in
    if ltb out_len 97
    then none
    else some (write_byte 96 0 (hex_loop 16 derived (hex_loop 0 salt blank)))

-- The buffer `out`, or none where -1 is returned.
unfoldable pub hash_password_fixed :
    (sha256 : Bytes → Bytes)
    → (pbkdf2 : Bytes → Bytes → Bytes) → (env_key : Option Bytes) → (context : Bool)
    → (random_key salt password : Bytes) → (out_len : ℕ) → Option Buffer
hash_password_fixed sha256 pbkdf2 env_key context random_key salt password out_len =
    hash_password_with pbkdf2 (session_key (load_key_from_env sha256 env_key context) random_key)
      salt password out_len

-- `main`: what the array of 128 bytes holds, or none where the program reports a failure.
unfoldable main_hash :
    (sha256 : Bytes → Bytes)
    → (pbkdf2 : Bytes → Bytes → Bytes) → (env_key : Option Bytes) → (context : Bool)
    → (random_key salt : Bytes) → Option Buffer
main_hash sha256 pbkdf2 env_key context random_key salt =
    hash_password_fixed sha256 pbkdf2 env_key context random_key salt (codes "MySecretPassword123")
      128

-- The program never reports the failure that it blames on the variable SECUREFILE_ENC_KEY: with and without the
-- variable it shows a hash, and for the same salt the same one.
main_never_fails :
    (sha256 : Bytes → Bytes) (pbkdf2 : Bytes → Bytes → Bytes) (env_key env_key' : Option Bytes)
    (context context' : Bool) (random_key random_key' salt : Bytes)
    → (out : Buffer) × (main_hash sha256 pbkdf2 env_key context random_key salt ≡ some out)
      × (main_hash sha256 pbkdf2 env_key' context' random_key' salt ≡ some out)
unfolding main_hash hash_password_fixed hash_password_with
main_never_fails sha256 pbkdf2 env_key env_key' context context' random_key random_key' salt =
    (_, refl, refl)
