-- ===== src/Demos/Tokens.antt =====
-- 09_insecure_random.c and 09_insecure_random_fixed.c: tokens of hexadecimal digits in a buffer of `len`
-- bytes, where `len` is at least 1. The loops are those of `generate_token` in src/session.c, for any
-- length.
pub mod Fits
use secure_ci_coding.Base.{
  ℕ, zero, suc, List, ◌+◌, ◌-◌, ◌*◌, ◌/◌, ◌%◌, ◌^◌, min, Bool, true, false, Option, none, some, [],
  ◌∷◌, Bytes, ◌==◌, if◌then◌else◌, length, take, u32_mod, bit_xor,
}
use secure_ci_coding.Session.Token.{
  Buffer, Random, blank, write_byte, hex_loop, fallback_loop, rand_loop,
}

-- The number of rounds of `for (i = 0; i < len - 1; i += step)`.
abbrev pub rounds : ℕ → ℕ → ℕ
rounds step len = (len - 1 + (step - 1)) / step

unfoldable pub generate_token_vuln : (rand : ℕ → ℕ) → (len : ℕ) → Buffer
generate_token_vuln rand len = write_byte (len - 1) 0 (rand_loop (rounds 8 len) 0 rand blank)

-- `generate_token_fixed` of the vulnerable file. `r.urandom` is what `/dev/urandom` has to give; the
-- array `raw` holds the (len - 1) / 2 bytes for every `len` up to 130.
unfoldable pub generate_token_fixed : Random → (len : ℕ) → Buffer
generate_token_fixed r len = write_byte (len - 1) 0 (elim r.urandom [
  | none ↦ fallback_loop (rounds 2 len) 0 r.rand blank
  | some bytes ↦ hex_loop 0 (take ((len - 1) / 2) bytes) blank
])

-- `generate_token_urandom` of the fixed file: whether 0 is returned, and the buffer.
unfoldable pub generate_token_urandom : (urandom : Option Bytes) → (len : ℕ) → Bool × Buffer
generate_token_urandom none len = (false, blank)
generate_token_urandom (some bytes) len =
    let raw = take (min ((len - 1) / 2) 128) bytes in
    if length raw == 0
    then (false, blank)
    else (true, write_byte (len - 1) 0 (hex_loop 0 raw blank))

-- `generate_session_id` of the fixed file: `/dev/urandom` cannot be opened (none), reads short (some none)
-- or gives the id. `address` is that of a local variable.
unfoldable pub generate_session_id : (urandom : Option (Option ℕ)) → (address time pid : ℕ) → ℕ
generate_session_id (some (some id)) address time pid = id
generate_session_id (some none) address time pid =
    bit_xor (bit_xor (address % u32_mod) (time % u32_mod)) (pid % u32_mod)
generate_session_id none address time pid =
    bit_xor (bit_xor (address % u32_mod) (time % u32_mod)) (pid % u32_mod)

-- `main` of the vulnerable file: its tokens, in order. `rand` gives the values of `rand` from the start and
-- `seeded` those behind `srand`; a token takes 8 of them. The last two come from `/dev/urandom`.
unfoldable main_vuln : (rand seeded : ℕ → ℕ) → (first second : Random) → List Buffer
main_vuln rand seeded first second =
    generate_token_vuln rand 65
    ∷ generate_token_vuln (λ k. rand (k + rounds 8 65)) 65
    ∷ generate_token_vuln seeded 65
    ∷ generate_token_fixed first 65
    ∷ generate_token_fixed second 65
    ∷ []

-- `TOKEN_LEN`
abbrev token_len : ℕ
token_len = 64

-- `main` of the fixed file: what the three calls for a token and the three for an id give, from what
-- `/dev/urandom` has at each.
unfoldable main_fixed :
    (tokens : ℕ → Option Bytes)
    → (ids : ℕ → Option (Option ℕ)) → (address time pid : ℕ) → List (Bool × Buffer) × List ℕ
main_fixed tokens ids address time pid = (
  generate_token_urandom (tokens 0) token_len
      ∷ generate_token_urandom (tokens 1) token_len
      ∷ generate_token_urandom (tokens 2) token_len
      ∷ [],
  generate_session_id (ids 0) address time pid
      ∷ generate_session_id (ids 1) address time pid
      ∷ generate_session_id (ids 2) address time pid
      ∷ [],
)
