-- ===== src/Demos/Tokens/Fits.antt =====
-- How far the tokens reach in their buffers.
use secure_ci_coding.Base.{
  ℕ, ◌-◌, ◌/◌, ◌%◌, ◌≤◌, ◌≡◌, ◌↔◌, min, arith, none, some, Bytes, if◌then◌else◌, take, length-take,
}
use secure_ci_coding.Session.Token.{blank, write_byte}
use secure_ci_coding.Session.Token.Extent.{hex_loop-extent, fallback_loop-extent, rand_loop-extent}
use secure_ci_coding.Demos.Tokens.{
  rounds, generate_token_vuln, generate_token_fixed, generate_token_urandom,
}

-- The fixed program's token reaches exactly to the end of its buffer, of any length, where it returns 0.
-- The token made by `rand` fits its buffer exactly when the length is one more than a multiple of 8; that
-- of the vulnerable file's repaired function always fits when it is read from `/dev/urandom`, and the
-- fallback fits exactly when the length is odd.
tokens_fit :
    (rand : ℕ → ℕ) (bytes : Bytes) (len : ℕ)
    → 1 ≤ len
    → ((generate_token_urandom (some bytes) len).1.extent
        ≡ (if (generate_token_urandom (some bytes) len).0 then len else 0))
      × (((generate_token_vuln rand len).extent ≤ len) ↔ ((len - 1) % 8 ≡ 0))
      × ((generate_token_fixed (record { urandom = some bytes; rand = rand }) len).extent ≡ len)
      × (((generate_token_fixed (record { urandom = none; rand = rand }) len).extent ≤ len)
          ↔ ((len - 1) % 2 ≡ 0))
unfolding generate_token_urandom generate_token_vuln generate_token_fixed write_byte
tokens_fit rand bytes len h =
    let read = take (min ((len - 1) / 2) 128) bytes in
    let read' = take ((len - 1) / 2) bytes in
    let by_urandom = hex_loop-extent 0 read blank (omega arith) in
    let by_urandom' = hex_loop-extent 0 read' blank (omega arith) in
    let by_rand = rand_loop-extent (rounds 8 len) 0 rand blank (omega arith) in
    let by_pairs = fallback_loop-extent (rounds 2 len) 0 rand blank (omega arith) in
    (
      ground (arith, by_urandom, length-take (min ((len - 1) / 2) 128) bytes),
      (λ e. omega (arith, by_rand), λ e. omega (arith, by_rand)),
      omega (arith, by_urandom', length-take ((len - 1) / 2) bytes),
      (λ e. omega (arith, by_pairs), λ e. omega (arith, by_pairs)),
    )
