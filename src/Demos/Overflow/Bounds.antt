-- ===== src/Demos/Overflow/Bounds.antt =====
-- How far the parser writes and reads.
use secure_ci_coding.Base.{
  ℕ, zero, suc, ◌+◌, ◌%◌, ◌≤◌, ◌<◌, ◌≡◌, inl, inr, ◌↔◌, min, max, refl, ◌∙◌, arith, true,
  Bool-cases, [], ◌∷◌, Bytes, ltb, leb, length, take, u32_mod,
}
use secure_ci_coding.Common.{vulnerable, fixed}
use secure_ci_coding.Session.Token.{Buffer, blank, write_byte, write_bytes, window}
use secure_ci_coding.Demos.Overflow.{
  filename_max, hdr_size, data_len_of, parse_message, parse_message_vuln, parse_message_fixed,
  packet_of, parse_argument,
}

write_bytes-below :
    (i : ℕ) (cs : Bytes) (b : Buffer) (k : ℕ) → k < i → (write_bytes i cs b).at k ≡ b.at k
unfolding write_bytes write_byte
write_bytes-below i [] b k h = refl
write_bytes-below i (c ∷ cs) b k h =
    write_bytes-below (i + 1) cs (write_byte i c b) k (omega arith) ∙ ground arith

write_bytes-reach :
    (i : ℕ) (cs : Bytes) (b : Buffer)
    → i ≤ b.extent
    → (write_bytes i cs b).extent ≡ max b.extent (i + length cs)
unfolding write_bytes write_byte
write_bytes-reach i [] b h = omega arith
write_bytes-reach i (c ∷ cs) b h =
    omega (arith, write_bytes-reach (i + 1) cs (write_byte i c b) (omega arith))

length-window : (n i : ℕ) (f : ℕ → ℕ) → length (window n i f) ≡ n
unfolding window
length-window zero i f = refl
length-window (suc n) i f = omega (arith, length-window n (i + 1) f)

copied-extent : (n i : ℕ) (raw : ℕ → ℕ) → (write_bytes 0 (window n i raw) blank).extent ≡ n
copied-extent n i raw =
    omega (arith, write_bytes-reach 0 (window n i raw) blank (omega arith), length-window n i raw)

-- For any message, the fixed parser writes at most 32 bytes into the array of 32, with the
-- terminating NUL, and reads nothing behind the end of the message.
parse_message_bounded :
    (raw : ℕ → ℕ) (len : ℕ)
    → ((parse_message fixed raw len).filename.extent ≤ filename_max)
      × ((parse_message fixed raw len).read_to ≤ len)
unfolding parse_message_fixed write_byte
parse_message_bounded raw len =
    let n = data_len_of raw in
    let reach = copied-extent n hdr_size raw in
    elim (Bool-cases (ltb len hdr_size)) [
      | inl a ↦ rw a (omega arith, omega arith)
      | inr a ↦ elim (Bool-cases (leb filename_max n)) [
        | inl b ↦ rw (a, b) (omega arith, ground arith)
        | inr b ↦ elim (Bool-cases (ltb len ((hdr_size + n) % u32_mod))) [
          | inl c ↦ rw (a, b, c) (omega arith, ground arith)
          | inr c ↦ rw (a, b, c) (ground (arith, reach), ground arith)
        ]
      ]
    ]

-- The length field of the packet that `main` builds is the length of its payload.
packet-data_len : (arg : Bytes) → data_len_of (packet_of arg).at ≡ min (length arg) 1024
unfolding write_bytes write_byte
packet-data_len arg =
    let n = min (length arg) 1024 in
    let low : n < u32_mod = omega arith in
    omega (
      arith,
      write_bytes-below 14 (take n arg) _ 10 (omega arith),
      write_bytes-below 14 (take n arg) _ 11 (omega arith),
      write_bytes-below 14 (take n arg) _ 12 (omega arith),
      write_bytes-below 14 (take n arg) _ 13 (omega arith),
    )

-- The programs on their command-line argument. The vulnerable one copies the whole argument, up to
-- 1024 bytes, into the array of 32 bytes, so that it writes behind the array exactly when the argument
-- is longer than 32 bytes; the fixed one never does, and accepts exactly the arguments of at most 31
-- bytes.
pub parse_argument_overflow :
    (arg : Bytes)
    → ((parse_argument vulnerable arg).filename.extent ≡ min (length arg) 1024)
      × ((filename_max < (parse_argument vulnerable arg).filename.extent)
          ↔ (filename_max < length arg))
      × ((parse_argument fixed arg).filename.extent ≤ filename_max)
      × (((parse_argument fixed arg).accepted ≡ true) ↔ (length arg < filename_max))
unfolding parse_argument parse_message_vuln parse_message_fixed
parse_argument_overflow arg =
    let raw = (packet_of arg).at in
    let n = min (length arg) 1024 in
    let field : data_len_of raw ≡ n = packet-data_len arg in
    let reach = copied-extent (data_len_of raw) hdr_size raw in
    let whole : (parse_message vulnerable raw (14 + n)).filename.extent ≡ n =
      ground (arith, reach, field) in
    (
      whole,
      (λ h. omega (arith, whole), λ h. omega (arith, whole)),
      (parse_message_bounded raw (14 + n)).0,
      (λ h. ground (arith, field), λ h. ground (arith, field)),
    )
