-- ===== src/Protocol/Parse.antt =====
-- What `parse_message` accepts, and with which result it refuses.
use secure_ci_coding.Base.{
  ℕ, ◌+◌, ◌%◌, ◌^◌, ◌<◌, ◌≤◌, ◌≡◌, ◌≢◌, refl, ◌⊎◌, inl, inr, ◌↔◌, true, false, arith, Bytes, read32,
  read16, u32_mod, Bool-cases,
}
use secure_ci_coding.Common.{
  OpType, op_code, login, logout, upload, download, delete, list, backup, ok, err_length,
  err_opcode, proto_hdr_len,
}
use secure_ci_coding.Protocol.{Header, is_known_op, message_size, parse_message}

pub known-op_code : (o : OpType) → is_known_op (op_code o) ≡ true
known-op_code login = refl
known-op_code logout = refl
known-op_code upload = refl
known-op_code download = refl
known-op_code delete = refl
known-op_code list = refl
known-op_code backup = refl

-- What a receiver may rely on, in the numbers of the wire: the 14 bytes of the header arrived, the size,
-- header included and added up in 32 bits, fits what arrived, and the operation field is 1 to 7.
pub record Acceptable (raw : Bytes) (len : ℕ) : Type 0 where
  pub whole_header : 14 ≤ len
  pub size_fits : (14 + read32 raw 10) % 2 ^ 32 ≤ len
  pub operation : (1 ≤ read16 raw 4) × (read16 raw 4 ≤ 7)

-- `parse_message` returns ok exactly for the messages of which the 14 bytes of the header arrived, whose
-- size, which is 14 more than the payload's and counted modulo 2 ^ 32, is at most the bytes received,
-- and whose operation is a number from 1 to 7.
pub parse_message_accepts :
    (raw : Bytes) (len : ℕ) (out : Header)
    → ((parse_message raw len out).0 ≡ ok) ↔ Acceptable raw len
unfolding parse_message
parse_message_accepts raw len out = (forwards, backwards)
  where
    forwards : (parse_message raw len out).0 ≡ ok → Acceptable raw len
    forwards e = record {
      whole_header = ground arith;
      size_fits = ground arith;
      operation = (ground arith, ground arith);
    }

    known : 1 ≤ read16 raw 4 → read16 raw 4 ≤ 7 → is_known_op (read16 raw 4) ≡ true
    known low high = ground arith

    backwards : Acceptable raw len → (parse_message raw len out).0 ≡ ok
    backwards a =
        let e : is_known_op (read16 raw 4) ≡ true = known a.operation.0 a.operation.1 in
        let header : 14 ≤ len = a.whole_header in
        let size : (14 + read32 raw 10) % 2 ^ 32 ≤ len = a.size_fits in ground arith

-- A refused message gets err_opcode when header and size are in order and the operation is
-- unknown; err_length when it is shorter than a header, and then the caller's variables stay as they
-- were; and err_length when its size, added up modulo 2 ^ 32, exceeds the bytes received.
parse_message_refuses :
    (raw : Bytes) (len : ℕ) (out : Header)
    → (parse_message raw len out).0 ≢ ok
    → (((parse_message raw len out).0 ≡ err_opcode)
        × (proto_hdr_len ≤ len)
        × (message_size (read32 raw 10) ≤ len)
        × ((o : OpType) → read16 raw 4 ≢ op_code o))
      ⊎ ((parse_message raw len out ≡ (err_length, out)) × (len < proto_hdr_len)
          ⊎ ((parse_message raw len out).0 ≡ err_length)
            × (proto_hdr_len ≤ len)
            × (len < message_size (read32 raw 10)))
unfolding parse_message
parse_message_refuses raw len out bad = elim decide_size [
  | inl fits ↦ elim (Bool-cases (is_known_op (read16 raw 4))) [
    | inl known ↦ absurd (ground arith)
    | inr unknown ↦ inl (ground arith, fits.0, fits.1, λ o e. strange o e unknown)
  ]
  | inr (inl short) ↦ inr (inl (ground arith, short))
  | inr (inr cut) ↦ inr (inr (ground arith, cut.0, cut.1))
]
  where
    strange : (o : OpType) → read16 raw 4 ≡ op_code o → is_known_op (read16 raw 4) ≡ false → ⊥
    strange o e unknown = ground (arith, known-op_code o)

    decide_size :
        ((proto_hdr_len ≤ len) × (message_size (read32 raw 10) ≤ len))
        ⊎ ((len < proto_hdr_len) ⊎ (proto_hdr_len ≤ len) × (len < message_size (read32 raw 10)))
    decide_size = ground arith

-- An accepted message whose declared payload is shorter than 2 ^ 32 - 14 bytes lies wholly inside
-- the bytes received: the payload starts directly behind the header and ends within them.
parse_message_in_bounds :
    (raw : Bytes) (len : ℕ) (out : Header) {h : Header}
    → parse_message raw len out ≡ (ok, h)
    → h.data_len + proto_hdr_len < u32_mod
    → (h.data_start ≡ proto_hdr_len) × (h.data_start + h.data_len ≤ len)
unfolding parse_message
parse_message_in_bounds raw len out e small = ground arith

-- A message whose 32-bit payload length is 2 ^ 32 - 14 or more, with a known operation, is
-- accepted as soon as its 14 header bytes were received, although the payload that it declares
-- ends behind the bytes received (fewer than 2 ^ 32): the sum with the header length wraps.
parse_message_wraps :
    (raw : Bytes) (len : ℕ) (out : Header) (o : OpType)
    → read16 raw 4 ≡ op_code o
    → u32_mod ≤ read32 raw 10 + proto_hdr_len
    → read32 raw 10 < u32_mod
    → proto_hdr_len ≤ len
    → len < u32_mod
    → ((parse_message raw len out).0 ≡ ok)
      × (len < (parse_message raw len out).1.data_start + (parse_message raw len out).1.data_len)
unfolding parse_message
parse_message_wraps raw len out o is big word long short = ground (arith, known-op_code o)
