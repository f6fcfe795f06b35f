-- ===== src/Auth/Hash.antt =====
-- The text that `auth_hash_password` writes: its length and the string that it is.
use secure_ci_coding.Base.{
  ℕ, zero, suc, ◌+◌, ◌*◌, ◌≤◌, ◌<◌, ◌≡◌, refl, sym, ◌∷◌, ◌++◌, [], arith, Bytes, length,
  length-append, take, cstr, All, ap, ◌∙◌, ltb, byte_at, append_assoc, append-nil, length-take,
}
use secure_ci_coding.Common.{Build, vulnerable, fixed}
use secure_ci_coding.Session.Token.{hex2}
use secure_ci_coding.Auth.{hash_byte, hex_from, auth_hash_password}

abbrev pub NonZero : ℕ → Type 0
NonZero c = 0 < c

length-hex_from : (n i : ℕ) (f : ℕ → ℕ) → length (hex_from n i f) ≡ 2 * n
unfolding hex_from
length-hex_from zero i f = refl
length-hex_from (suc n) i f = omega (arith, length-hex_from n (i + 1) f)

hex_from-NonZero : (n i : ℕ) (f : ℕ → ℕ) → All NonZero (hex_from n i f)
unfolding hex_from
hex_from-NonZero zero i f = tt
hex_from-NonZero (suc n) i f = (ground arith, (ground arith, hex_from-NonZero n (i + 1) f))

hex_from_agree :
    (n i : ℕ) (f g : ℕ → ℕ) → ((k : ℕ) → k < i + n → f k ≡ g k) → hex_from n i f ≡ hex_from n i g
unfolding hex_from
hex_from_agree zero i f g h = refl
hex_from_agree (suc n) i f g h =
    ap (λ c. hex2 c ++ hex_from n (i + 1) f) (h i (omega arith))
    ∙ ap (◌++◌ (hex2 (g i))) (hex_from_agree n (i + 1) f g (λ k l. h k (omega arith)))

-- A string without NULs, in front of more memory.
pub cstr-append : (s m : Bytes) → All NonZero s → cstr (s ++ m) ≡ s ++ cstr m
unfolding cstr
cstr-append [] m h = refl
cstr-append (c ∷ s) m h = ground (arith, cstr-append s m h.1)

pub length-cstr-le : (m : Bytes) → length (cstr m) ≤ length m
unfolding cstr
length-cstr-le [] = omega arith
length-cstr-le (c ∷ m) = ground (arith, length-cstr-le m)

abbrev pub hash_length : Build → ℕ
hash_length vulnerable = 65
hash_length fixed = 97

-- In the vulnerable build `auth_hash_password` writes 65 bytes, and in the fixed build 97; the buffers
-- that its callers pass have 64.
pub length-auth_hash_password :
    (pbkdf2 : Bytes → Bytes → Bytes) (b : Build) (salt password : Bytes)
    → length (auth_hash_password pbkdf2 b salt password) ≡ hash_length b
unfolding auth_hash_password
length-auth_hash_password pbkdf2 vulnerable salt password = omega (
  arith,
  length-append (hex_from 32 0 (hash_byte password)) (0 ∷ []),
  length-hex_from 32 0 (hash_byte password),
)
length-auth_hash_password pbkdf2 fixed salt password = omega (
  arith,
  length-append (hex_from 16 0 (byte_at salt))
      (hex_from 32 0 (byte_at (pbkdf2 password salt)) ++ 0 ∷ []),
  length-append (hex_from 32 0 (byte_at (pbkdf2 password salt))) (0 ∷ []),
  length-hex_from 16 0 (byte_at salt),
  length-hex_from 32 0 (byte_at (pbkdf2 password salt)),
)

-- Its string, without the final NUL.
pub hash_text : (Bytes → Bytes → Bytes) → Build → Bytes → Bytes → Bytes
hash_text pbkdf2 vulnerable salt password = hex_from 32 0 (hash_byte password)
hash_text pbkdf2 fixed salt password =
    hex_from 16 0 (byte_at salt) ++ hex_from 32 0 (byte_at (pbkdf2 password salt))

All-append : (s t : Bytes) → All NonZero s → All NonZero t → All NonZero (s ++ t)
All-append [] t h k = k
All-append (c ∷ s) t h k = (h.0, All-append s t h.1 k)

pub hash_text-NonZero :
    (pbkdf2 : Bytes → Bytes → Bytes) (b : Build) (salt password : Bytes)
    → All NonZero (hash_text pbkdf2 b salt password)
unfolding hash_text
hash_text-NonZero pbkdf2 vulnerable salt password = hex_from-NonZero 32 0 (hash_byte password)
hash_text-NonZero pbkdf2 fixed salt password =
    All-append (hex_from 16 0 (byte_at salt)) _ (hex_from-NonZero 16 0 (byte_at salt))
      (hex_from-NonZero 32 0 (byte_at (pbkdf2 password salt)))

pub hash_text-eq :
    (pbkdf2 : Bytes → Bytes → Bytes) (b : Build) (salt password : Bytes)
    → auth_hash_password pbkdf2 b salt password ≡ hash_text pbkdf2 b salt password ++ 0 ∷ []
unfolding auth_hash_password hash_text
hash_text-eq pbkdf2 vulnerable salt password = refl
hash_text-eq pbkdf2 fixed salt password = sym (
    append_assoc (hex_from 16 0 (byte_at salt)) (hex_from 32 0 (byte_at (pbkdf2 password salt)))
      (0 ∷ []))

pub cstr-auth_hash_password :
    (pbkdf2 : Bytes → Bytes → Bytes) (b : Build) (salt password : Bytes)
    → cstr (auth_hash_password pbkdf2 b salt password) ≡ hash_text pbkdf2 b salt password
unfolding cstr
cstr-auth_hash_password pbkdf2 b salt password =
    ap cstr (hash_text-eq pbkdf2 b salt password)
    ∙ cstr-append (hash_text pbkdf2 b salt password) (0 ∷ [])
        (hash_text-NonZero pbkdf2 b salt password)
    ∙ append-nil (hash_text pbkdf2 b salt password)

pub length-hash_text :
    (pbkdf2 : Bytes → Bytes → Bytes) (b : Build) (salt password : Bytes)
    → length (hash_text pbkdf2 b salt password) + 1 ≡ hash_length b
length-hash_text pbkdf2 b salt password = omega (
  arith,
  ap length (hash_text-eq pbkdf2 b salt password),
  length-append (hash_text pbkdf2 b salt password) (0 ∷ []),
  length-auth_hash_password pbkdf2 b salt password,
)

-- The vulnerable hash reads 32 bytes of the password.
byte_at-take : (n i : ℕ) (s : Bytes) → i < n → byte_at (take n s) i ≡ byte_at s i
byte_at-take zero i s h = absurd (omega arith)
byte_at-take (suc n) i [] h = refl
byte_at-take (suc n) zero (c ∷ s) h = refl
byte_at-take (suc n) (suc i) (c ∷ s) h = byte_at-take n i s (omega arith)

ltb-length-take : (n i : ℕ) (s : Bytes) → i < n → ltb i (length (take n s)) ≡ ltb i (length s)
ltb-length-take n i s h = ground (arith, length-take n s)

hash_byte-take : (i : ℕ) (s : Bytes) → i < 32 → hash_byte (take 32 s) i ≡ hash_byte s i
hash_byte-take i s h = rw (ltb-length-take 32 i s h, byte_at-take 32 i s h) refl

pub hash_text-take :
    (pbkdf2 : Bytes → Bytes → Bytes) (salt salt' s t : Bytes)
    → take 32 s ≡ take 32 t
    → hash_text pbkdf2 vulnerable salt s ≡ hash_text pbkdf2 vulnerable salt' t
unfolding hash_text
hash_text-take pbkdf2 salt salt' s t e = hex_from_agree 32 0 (hash_byte s) (hash_byte t) λ k h.
    sym (hash_byte-take k s (omega arith))
    ∙ ap (λ p. hash_byte p k) e
    ∙ hash_byte-take k t (omega arith)
