-- ===== src/Dispatch/LoginReply.antt =====
-- The reply to a log-in that was accepted, as the client reads it.
use secure_ci_coding.Base.{
  ℕ, zero, suc, ◌+◌, ◌-◌, ◌*◌, ◌/◌, ◌%◌, ◌≤◌, ◌<◌, ◌≡◌, refl, ◌∙◌, inl, inr, arith, Bool-cases, [],
  ◌∷◌, ◌++◌, Bytes, All, All-append, codes, cstr, ltb, length, length-append, take_all, u32_mod,
}
use secure_ci_coding.Common.{session_token_len}
use secure_ci_coding.Session.Token.{Buffer, window}
use secure_ci_coding.Auth.Hash.{length-cstr-le}
use secure_ci_coding.Dispatch.Handlers.{decimal, login_message}

-- The number that decimal digits stand for, behind digits that stand for `before`.
abbrev read_number : (before : ℕ) → Bytes → ℕ
read_number before [] = before
read_number before (c ∷ s) = read_number (10 * before + (c - b'0')) s

abbrev IsDigit : ℕ → Type 0
IsDigit c = (b'0' ≤ c) × (c ≤ b'9')

-- A reply that tells the client the id `sid`, in decimal digits, and a token.
pub record TellsId (message : Bytes) (sid : ℕ) : Type 0 where
  pub digits : Bytes
  pub token : Bytes
  pub reads : message ≡ codes "LOGIN_OK " ++ (digits ++ b' ' ∷ token)
  pub decimal_digits : (0 < length digits) × All IsDigit digits
  pub number : read_number 0 digits ≡ sid

read_number-append :
    (before : ℕ) (s : Bytes) (c : ℕ)
    → read_number before (s ++ c ∷ []) ≡ 10 * read_number before s + (c - b'0')
read_number-append before [] c = refl
read_number-append before (d ∷ s) c = read_number-append (10 * before + (d - b'0')) s c

-- 10 to the power `n`.
abbrev tens : ℕ → ℕ
tens zero = 1
tens (suc n) = 10 * tens n

read_number-decimal : (n x : ℕ) → x < tens n → read_number 0 (decimal n x) ≡ x
read_number-decimal zero x h = omega arith
read_number-decimal (suc n) x h = elim (Bool-cases (ltb x 10)) [
  | inl one ↦ rw one (omega arith)
  | inr more ↦
      let bound : x / 10 < tens n = omega arith in
      let rest = read_number-decimal n (x / 10) bound in
      rw more (read_number-append 0 (decimal n (x / 10)) (b'0' + x % 10) ∙ omega (arith, rest))
]

length-decimal : (n x : ℕ) → length (decimal n x) ≤ n
length-decimal zero x = omega arith
length-decimal (suc n) x =
    ground
      (arith, length-decimal n (x / 10), length-append (decimal n (x / 10)) ((b'0' + x % 10) ∷ []))

decimal_some : (n x : ℕ) → 0 < length (decimal (suc n) x)
decimal_some n x = ground (arith, length-append (decimal n (x / 10)) ((b'0' + x % 10) ∷ []))

decimal-IsDigit : (n x : ℕ) → All IsDigit (decimal n x)
decimal-IsDigit zero x = tt
decimal-IsDigit (suc n) x = elim (Bool-cases (ltb x 10)) [
  | inl one ↦ rw one ((omega arith, ground arith), tt)
  | inr more ↦ rw more (
      All-append IsDigit (decimal n (x / 10)) ((b'0' + x % 10) ∷ []) (decimal-IsDigit n (x / 10))
        ((omega arith, omega arith), tt))
]

length-window : (n i : ℕ) (f : ℕ → ℕ) → length (window n i f) ≡ n
unfolding window
length-window zero i f = refl
length-window (suc n) i f = omega (arith, length-window n (i + 1) f)

-- The message of a log-in is not cut, and it tells the client the id.
pub login_message-TellsId :
    (sid : ℕ) (token : Buffer) → sid < u32_mod → TellsId (login_message sid token) sid
login_message-TellsId sid token small =
    let text = cstr (window session_token_len 0 token.at) in
    let digits = decimal 10 sid in
    record {
      digits = digits;
      token = text;
      reads = take_all 511 (codes "LOGIN_OK " ++ (digits ++ b' ' ∷ text)) (
          omega (
            arith,
            length-append (codes "LOGIN_OK ") (digits ++ b' ' ∷ text),
            length-append digits (b' ' ∷ text),
            length-decimal 10 sid,
            length-cstr-le (window session_token_len 0 token.at),
            length-window session_token_len 0 token.at,
          ));
      decimal_digits = (decimal_some 9 sid, decimal-IsDigit 10 sid);
      number = read_number-decimal 10 sid (omega arith);
    }
