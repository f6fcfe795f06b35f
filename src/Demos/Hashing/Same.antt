-- ===== src/Demos/Hashing/Same.antt =====
-- The hash of the program and that of `auth_hash_password` in src/auth.c.
use secure_ci_coding.Base.{
  ℕ, zero, suc, ◌+◌, ◌*◌, ◌≤◌, ◌<◌, ◌≡◌, ◌⊎◌, inl, inr, refl, sym, ap, ◌∙◌, arith, Bool, Option,
  none, some, [], ◌∷◌, ◌++◌, append_assoc, Bytes, byte_at, ltb, Bool-cases, length,
}
use secure_ci_coding.Common.{fixed}
use secure_ci_coding.Auth.{hex_from, auth_hash_password}
use secure_ci_coding.Session.Token.{
  Buffer, blank, write_byte, write_bytes, hex2, print, hex_loop, window,
}
use secure_ci_coding.Session.Token.Extent.{hex_loop-extent}
use secure_ci_coding.Demos.Hashing.{hash_password_with, hash_password_fixed}

-- The digits of a list of bytes.
abbrev digits : Bytes → Bytes
digits [] = []
digits (c ∷ cs) = hex2 c ++ digits cs

hex_from-digits :
    (cs : Bytes) (i : ℕ) (f : ℕ → ℕ)
    → ((j : ℕ) → f (i + j) ≡ byte_at cs j)
    → hex_from (length cs) i f ≡ digits cs
unfolding hex_from
hex_from-digits [] i f h = refl
hex_from-digits (c ∷ cs) i f h =
    let here : f i ≡ c = ap f (omega arith) ∙ h 0 in
    let rest = hex_from-digits cs (i + 1) f (λ j. ap f (omega arith) ∙ h (suc j)) in
    ap (λ x. hex2 x ++ hex_from (length cs) (i + 1) f) here ∙ ap (λ t. hex2 c ++ t) rest

-- The loop leaves alone what lies in front of its first digit.
hex_loop-below :
    (i : ℕ) (cs : Bytes) (b : Buffer) (k : ℕ) → k < i * 2 → (hex_loop i cs b).at k ≡ b.at k
unfolding hex_loop write_bytes write_byte
hex_loop-below i [] b k h = refl
hex_loop-below i (c ∷ cs) b k h =
    hex_loop-below (i + 1) cs (print (i * 2) (hex2 c) b) k (omega arith) ∙ ground arith

window-append : (m n i : ℕ) (f : ℕ → ℕ) → window (m + n) i f ≡ window m i f ++ window n (i + m) f
unfolding window
window-append zero n i f =
    let none_first : 0 + n ≡ n = omega arith in
    let at : i ≡ i + 0 = omega arith in
    ap (λ k. window k i f) none_first ∙ ap (λ j. window n j f) at
window-append (suc m) n i f =
    let one_first : suc m + n ≡ suc (m + n) = omega arith in
    let at : i + 1 + m ≡ i + suc m = omega arith in
    ap (λ k. window k i f) one_first
    ∙ ap (◌∷◌ (f i)) (window-append m n (i + 1) f ∙ ap (λ j. window m (i + 1) f ++ window n j f) at)

window-same :
    (n i : ℕ) (f g : ℕ → ℕ)
    → ((k : ℕ) → i ≤ k → k < i + n → f k ≡ g k)
    → window n i f ≡ window n i g
unfolding window
window-same zero i f g h = refl
window-same (suc n) i f g h =
    ap (λ x. x ∷ window n (i + 1) f) (h i (omega arith) (omega arith))
    ∙ ap (◌∷◌ (g i)) (window-same n (i + 1) f g (λ k a b. h k (omega arith) (omega arith)))

-- Behind the loop the buffer holds the digits.
hex_loop-digits :
    (i : ℕ) (cs : Bytes) (b : Buffer)
    → window (length cs * 2) (i * 2) (hex_loop i cs b).at ≡ digits cs
unfolding hex_loop write_bytes write_byte window
hex_loop-digits i [] b = refl
hex_loop-digits i (c ∷ cs) b =
    let next : Buffer = print (i * 2) (hex2 c) b in
    let low : (hex_loop (i + 1) cs next).at (i * 2) ≡ byte_at (hex2 c) 0 =
      hex_loop-below (i + 1) cs next (i * 2) (omega arith) ∙ ground arith in
    let high : (hex_loop (i + 1) cs next).at (i * 2 + 1) ≡ byte_at (hex2 c) 1 =
      hex_loop-below (i + 1) cs next (i * 2 + 1) (omega arith) ∙ ground arith in
    let f = (hex_loop (i + 1) cs next).at in
    let two : suc (length cs) * 2 ≡ suc (suc (length cs * 2)) = omega arith in
    let at : i * 2 + 1 + 1 ≡ (i + 1) * 2 = omega arith in
    ap (λ k. window k (i * 2) f) two
    ∙ ap (λ x. x ∷ f (i * 2 + 1) ∷ window (length cs * 2) (i * 2 + 1 + 1) f) low
    ∙ ap (λ x. byte_at (hex2 c) 0 ∷ x ∷ window (length cs * 2) (i * 2 + 1 + 1) f) high
    ∙ ap (λ t. hex2 c ++ t)
        (ap (λ j. window (length cs * 2) j f) at ∙ hex_loop-digits (i + 1) cs next)

module _ (salt derived : Bytes) (h : length salt ≡ 16) (k : length derived ≡ 32) where
  abbrev salted : Buffer
  salted = hex_loop 0 salt blank

  abbrev filled : Buffer
  filled = hex_loop 16 derived salted

  filled-extent : filled.extent ≡ 97
  filled-extent =
      let first = hex_loop-extent 0 salt blank (omega arith) in
      let second = hex_loop-extent 16 derived salted (omega (arith, first)) in
      omega (arith, first, second)

  reach : (write_byte 96 0 filled).extent ≡ 97
  unfolding write_byte
  reach = omega (arith, filled-extent)

  -- The digits of the salt and of the key, in front of the NUL.
  filled-text : window 96 0 filled.at ≡ digits salt ++ digits derived
  filled-text =
      let salt_part : window 32 0 filled.at ≡ digits salt =
        window-same 32 0 filled.at salted.at
          (λ j a b. hex_loop-below 16 derived salted j (omega arith))
        ∙ ap (λ n. window n 0 salted.at) (omega arith)
        ∙ hex_loop-digits 0 salt blank in
      let key_part : window 64 32 filled.at ≡ digits derived =
        ap (λ n. window n 32 filled.at) (omega arith) ∙ hex_loop-digits 16 derived salted in
      window-append 32 64 0 filled.at
      ∙ ap (λ t. t ++ window 64 32 filled.at) salt_part
      ∙ ap (λ t. digits salt ++ t) key_part

  ended-text : window 97 0 (write_byte 96 0 filled).at ≡ digits salt ++ (digits derived ++ 0 ∷ [])
  unfolding write_byte window
  ended-text =
      window-append 96 1 0 (write_byte 96 0 filled).at
      ∙ ap (λ t. t ++ 0 ∷ [])
          (window-same 96 0 (write_byte 96 0 filled).at filled.at (λ j a b. ground arith)
            ∙ filled-text)
      ∙ append_assoc (digits salt) (digits derived) (0 ∷ [])

hash-digits :
    (pbkdf2 : Bytes → Bytes → Bytes) (salt password : Bytes)
    → length salt ≡ 16
    → length (pbkdf2 password salt) ≡ 32
    → auth_hash_password pbkdf2 fixed salt password
      ≡ digits salt ++ (digits (pbkdf2 password salt) ++ 0 ∷ [])
unfolding auth_hash_password
hash-digits pbkdf2 salt password h k =
    let derived = pbkdf2 password salt in
    let salt_part : hex_from 16 0 (byte_at salt) ≡ digits salt =
      ap (λ n. hex_from n 0 (byte_at salt)) (sym h)
      ∙ hex_from-digits salt 0 (byte_at salt) (λ j. ap (byte_at salt) (omega arith)) in
    let key_part : hex_from 32 0 (byte_at derived) ≡ digits derived =
      ap (λ n. hex_from n 0 (byte_at derived)) (sym k)
      ∙ hex_from-digits derived 0 (byte_at derived) (λ j. ap (byte_at derived) (omega arith)) in
    ap (λ t. t ++ (hex_from 32 0 (byte_at derived) ++ 0 ∷ [])) salt_part
    ∙ ap (λ t. digits salt ++ (t ++ 0 ∷ [])) key_part

-- Where the salt has 16 bytes and the derived key 32, as the arrays do, the function refuses buffers of
-- less than 97 bytes; into any other it writes exactly 97 bytes, those that `auth_hash_password` of the
-- fixed server writes for the same salt, password and key derivation. So the key from the environment,
-- and whether there is one, changes nothing.
hash_password_fixed_same :
    (sha256 : Bytes → Bytes) (pbkdf2 : Bytes → Bytes → Bytes) (env_key : Option Bytes)
    (context : Bool) (random_key salt password : Bytes) (out_len : ℕ)
    → length salt ≡ 16
    → length (pbkdf2 password salt) ≡ 32
    → ((hash_password_fixed sha256 pbkdf2 env_key context random_key salt password out_len ≡ none)
        × (out_len < 97))
      ⊎ ((out : Buffer) × (hash_password_fixed sha256 pbkdf2 env_key context random_key salt
              password out_len
            ≡ some out)
          × (97 ≤ out_len)
          × (out.extent ≡ 97)
          × (window 97 0 out.at ≡ auth_hash_password pbkdf2 fixed salt password))
unfolding hash_password_fixed hash_password_with
hash_password_fixed_same sha256 pbkdf2 env_key context random_key salt password out_len h k =
    let derived = pbkdf2 password salt in
    elim (Bool-cases (ltb out_len 97)) [
      | inl small ↦ inl (rw small refl, ground arith)
      | inr large ↦ inr (
        write_byte 96 0 (filled salt derived h k),
        rw large refl,
        ground arith,
        reach salt derived h k,
        ended-text salt derived h k ∙ sym (hash-digits pbkdf2 salt password h k),
      )
    ]
