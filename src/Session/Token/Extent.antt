-- ===== src/Session/Token/Extent.antt =====
-- How far `generate_token` writes into the token buffer of 64 bytes.
use secure_ci_coding.Base.{
  ℕ, zero, suc, ◌+◌, ◌*◌, ◌/◌, ◌%◌, ◌≤◌, ◌≡◌, max, Option, none, some, [], ◌∷◌, arith, Bytes,
  length,
}
use secure_ci_coding.Common.{Build, vulnerable, fixed}
use secure_ci_coding.Session.Token.{
  Buffer, Random, blank, write_byte, write_bytes, hex2, hex8, print, hex_loop, fallback_loop,
  rand_loop, generate_token,
}

write_bytes-extent :
    (i c : ℕ) (cs : Bytes) (b : Buffer)
    → (write_bytes i (c ∷ cs) b).extent ≡ max b.extent (i + suc (length cs))
unfolding write_bytes write_byte
write_bytes-extent i c [] b = omega arith
write_bytes-extent i c (d ∷ cs) b =
    omega (arith, write_bytes-extent (i + 1) d cs (write_byte i c b))

pub hex_loop-extent :
    (i : ℕ) (cs : Bytes) (b : Buffer)
    → b.extent ≤ i * 2 + 1
    → (b.extent ≤ (hex_loop i cs b).extent)
      × (max (i * 2 + 1) (hex_loop i cs b).extent ≡ (i + length cs) * 2 + 1)
unfolding hex_loop
hex_loop-extent i [] b h = omega arith
hex_loop-extent i (c ∷ cs) b h =
    let next : Buffer = print (i * 2) (hex2 c) b in
    let reach : next.extent ≡ max b.extent (i * 2 + 3) = write_bytes-extent (i * 2) _ _ b in
    let later = hex_loop-extent (i + 1) cs next (omega arith) in (omega arith, omega arith)

pub fallback_loop-extent :
    (n i : ℕ) (rand : ℕ → ℕ) (b : Buffer)
    → b.extent ≤ i + 1
    → (b.extent ≤ (fallback_loop n i rand b).extent)
      × (max (i + 1) (fallback_loop n i rand b).extent ≡ i + 2 * n + 1)
unfolding fallback_loop
fallback_loop-extent zero i rand b h = omega arith
fallback_loop-extent (suc n) i rand b h =
    let next : Buffer = print i (hex2 (rand (i / 2) % 256)) b in
    let reach : next.extent ≡ max b.extent (i + 3) = write_bytes-extent i _ _ b in
    let later = fallback_loop-extent n (i + 2) rand next (omega arith) in (omega arith, omega arith)

pub rand_loop-extent :
    (n i : ℕ) (rand : ℕ → ℕ) (b : Buffer)
    → b.extent ≤ i + 1
    → (b.extent ≤ (rand_loop n i rand b).extent)
      × (max (i + 1) (rand_loop n i rand b).extent ≡ i + 8 * n + 1)
unfolding rand_loop
rand_loop-extent zero i rand b h = omega arith
rand_loop-extent (suc n) i rand b h =
    let next : Buffer = print i (hex8 (rand (i / 8))) b in
    let reach : next.extent ≡ max b.extent (i + 9) = write_bytes-extent i _ _ b in
    let later = rand_loop-extent n (i + 8) rand next (omega arith) in (omega arith, omega arith)

-- How many bytes the token takes, with its NULs.
abbrev token_extent : Build → Option Bytes → ℕ
token_extent vulnerable urandom = 65
token_extent fixed none = 65
token_extent fixed (some bytes) = max (2 * length bytes + 1) 64

-- The number of bytes that are written into the token buffer of 64 bytes: 65 in the vulnerable build,
-- 65 in the fixed build when `/dev/urandom` cannot be opened, and otherwise two digits for each byte
-- read and a NUL, but no fewer than 64.
generate_token-extent :
    (b : Build) (r : Random) → (generate_token b r).extent ≡ token_extent b r.urandom
unfolding generate_token write_byte
generate_token-extent vulnerable r = omega (arith, rand_loop-extent 8 0 r.rand blank (omega arith))
generate_token-extent fixed r = by_source r.urandom
  where
    by_source :
        (u : Option Bytes)
        → (generate_token fixed (record { urandom = u; rand = r.rand })).extent
          ≡ token_extent fixed u
    by_source none = omega (arith, fallback_loop-extent 32 0 r.rand blank (omega arith))
    by_source (some bytes) = omega (arith, hex_loop-extent 0 bytes blank (omega arith))
