-- ===== src/Protocol/RoundTrip.antt =====
-- `parse_message` reads back what `serialize_response` writes.
use secure_ci_coding.Base.{
  ℕ, ◌+◌, ◌<◌, ◌≤◌, ◌≡◌, refl, sym, ◌∙◌, arith, Bytes, read32, read16, be32, be16, u32_mod,
  word32_digits, word16_digits, length, take, drop, ◌++◌, length-take, take-append, length-append,
  take_all, Bool-cases, ltb, inl, inr, u16_mod,
}
use secure_ci_coding.Common.{OpType, op_code, ok, proto_hdr_len, proto_result_max}
use secure_ci_coding.Protocol.{Header, parse_message, message_len, serialize_response}
use secure_ci_coding.Protocol.Parse.{known-op_code}

message_len-le :
    (msg : Bytes) → (message_len msg ≤ length msg) × (message_len msg < proto_result_max)
unfolding message_len
message_len-le msg = ground arith

pub op_code-lt : (o : OpType) → op_code o < 8
op_code-lt OpType.login = omega arith
op_code-lt _ = omega arith

fields_read :
    (op sid : ℕ) (msg rest : Bytes)
    → op < u16_mod
    → sid < u32_mod
    → (read16 (serialize_response op sid msg ++ rest) 4 ≡ op)
      × (read32 (serialize_response op sid msg ++ rest) 6 ≡ sid)
      × (read32 (serialize_response op sid msg ++ rest) 10 ≡ message_len msg)
unfolding serialize_response be32 be16 read32 read16
fields_read op sid msg rest ho hs = (
  word16_digits op ho,
  word32_digits sid hs,
  word32_digits (message_len msg) (omega (arith, message_len-le msg)),
)

-- What the parser yields on a header whose fields have been read.
parse_of_fields :
    (raw : Bytes) (len : ℕ) (out : Header) (o : OpType) (sid n : ℕ)
    → (read16 raw 4 ≡ op_code o) × (read32 raw 6 ≡ sid) × (read32 raw 10 ≡ n)
    → proto_hdr_len + n < u32_mod
    → proto_hdr_len + n ≤ len
    → parse_message raw len out
      ≡ (ok, record { op = op_code o; session_id = sid; data_len = n; data_start = proto_hdr_len })
unfolding parse_message
parse_of_fields raw len out o sid n fields small fits = ground (arith, known-op_code o)

length-serialize :
    (op sid : ℕ) (msg : Bytes)
    → length (serialize_response op sid msg) ≡ proto_hdr_len + message_len msg
unfolding serialize_response be32 be16
length-serialize op sid msg = omega (arith, length-take (message_len msg) msg, message_len-le msg)

payload-serialize :
    (op sid : ℕ) (msg rest : Bytes)
    → drop proto_hdr_len (serialize_response op sid msg ++ rest)
      ≡ take (message_len msg) msg ++ rest
unfolding serialize_response be32 be16
payload-serialize op sid msg rest = refl

take-message_len : (msg : Bytes) → take (message_len msg) msg ≡ take 511 msg
unfolding message_len
take-message_len msg = elim (Bool-cases (ltb (length msg) proto_result_max)) [
  | inl short ↦
      rw short (take_all (length msg) msg (omega arith) ∙ sym (take_all 511 msg (ground arith)))
  | inr long ↦ rw long
]

-- Parsing a serialized response, whatever bytes follow it in the buffer, gives back the operation,
-- the session and the length of the message, and the payload behind the header is the message,
-- cut to 511 bytes. The session id is a uint32_t.
pub parse_message-serialize_response :
    (o : OpType) (sid : ℕ) (msg rest : Bytes) (out : Header)
    → sid < u32_mod
    → (parse_message
          (serialize_response (op_code o) sid msg ++ rest)
          (length (serialize_response (op_code o) sid msg ++ rest))
          out
        ≡ (
          ok,
          record {
            op = op_code o;
            session_id = sid;
            data_len = message_len msg;
            data_start = proto_hdr_len;
          },
        ))
      × (take
            (message_len msg)
            (drop proto_hdr_len (serialize_response (op_code o) sid msg ++ rest))
          ≡ take 511 msg)
parse_message-serialize_response o sid msg rest out small = (
  parse_of_fields _ _ out o sid (message_len msg)
      (fields_read (op_code o) sid msg rest (omega (arith, op_code-lt o)) small)
      (omega (arith, message_len-le msg))
      (omega (
        arith,
        length-append (serialize_response (op_code o) sid msg) rest,
        length-serialize (op_code o) sid msg,
      )),
  rw (payload-serialize (op_code o) sid msg rest) (
      take-append (message_len msg) (take (message_len msg) msg) rest
        (omega (arith, length-take (message_len msg) msg, message_len-le msg))
      ∙ take-message_len msg),
)
