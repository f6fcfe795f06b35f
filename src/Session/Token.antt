-- ===== src/Session/Token.antt =====
-- `generate_token` of src/session.c: the session token as lower-case hexadecimal digits. A buffer
-- is its bytes and its extent, one more than the highest index written.
pub mod Extent
use secure_ci_coding.Base.{
  ℕ, zero, suc, ◌+◌, ◌-◌, ◌*◌, ◌/◌, ◌%◌, ◌^◌, max, Option, none, some, List, [], ◌∷◌, ◌++◌, Bytes,
  ltb, ◌==◌, if◌then◌else◌, length,
}
use secure_ci_coding.Common.{Build, vulnerable, fixed, session_token_len}

pub record Buffer : Type 0 where
  pub at : ℕ → ℕ
  pub extent : ℕ

abbrev pub blank : Buffer
blank = record { at = λ _. 0; extent = 0 }

unfoldable pub write_byte : ℕ → ℕ → Buffer → Buffer
write_byte i c b = record { at = λ k. if k == i then c else b.at k; extent = max b.extent (i + 1) }

unfoldable pub write_bytes : ℕ → Bytes → Buffer → Buffer
write_bytes i [] b = b
write_bytes i (c ∷ cs) b = write_bytes (i + 1) cs (write_byte i c b)

abbrev hex_digit : ℕ → ℕ
hex_digit d = if ltb d 10 then b'0' + d else b'a' + (d - 10)

-- `%02x` of a byte and `%08x` of a number below 2 ^ 32.
abbrev pub hex2 : ℕ → Bytes
hex2 x = hex_digit (x / 16 % 16) ∷ hex_digit (x % 16) ∷ []

abbrev pub hex8 : ℕ → Bytes
hex8 x =
    hex2 (x / 2 ^ 24 % 256)
    ++ (hex2 (x / 2 ^ 16 % 256) ++ (hex2 (x / 2 ^ 8 % 256) ++ hex2 (x % 256)))

-- `snprintf` of text that fits: the text and a NUL.
abbrev pub print : ℕ → Bytes → Buffer → Buffer
print i text b = write_bytes i (text ++ 0 ∷ []) b

-- What the library calls give: the bytes that `/dev/urandom` yields when it can be opened, and the
-- values of the successive calls of `rand`.
pub record Random : Type 0 where
  pub urandom : Option Bytes
  pub rand : ℕ → ℕ

-- `snprintf(token_out + i * 2, 3, "%02x", buf[i])` for the bytes that were read.
unfoldable pub hex_loop : ℕ → Bytes → Buffer → Buffer
hex_loop i [] b = b
hex_loop i (c ∷ cs) b = hex_loop (i + 1) cs (print (i * 2) (hex2 c) b)

-- `for (i = 0; i < len - 1; i += 2)`, with `n` rounds left.
unfoldable pub fallback_loop : ℕ → ℕ → (ℕ → ℕ) → Buffer → Buffer
fallback_loop zero i rand b = b
fallback_loop (suc n) i rand b =
    fallback_loop n (i + 2) rand (print i (hex2 (rand (i / 2) % 256)) b)

-- `for (i = 0; i < len - 1; i += 8)`, with `n` rounds left.
unfoldable pub rand_loop : ℕ → ℕ → (ℕ → ℕ) → Buffer → Buffer
rand_loop zero i rand b = b
rand_loop (suc n) i rand b = rand_loop n (i + 8) rand (print i (hex8 (rand (i / 8))) b)

-- The loops over `i < len - 1`, at `len` = 64, make 32 and 8 rounds.
unfoldable pub generate_token : Build → Random → Buffer
generate_token vulnerable r = write_byte (session_token_len - 1) 0 (rand_loop 8 0 r.rand blank)
generate_token fixed r = write_byte (session_token_len - 1) 0 (elim r.urandom [
  | none ↦ fallback_loop 32 0 r.rand blank
  | some bytes ↦ hex_loop 0 bytes blank
])

-- The first `n` bytes from index `i` on.
unfoldable pub window : ℕ → ℕ → (ℕ → ℕ) → Bytes
window zero i f = []
window (suc n) i f = f i ∷ window n (i + 1) f
