-- ===== src/Examples/Wire.antt =====
-- Inputs for src/protocol.c: messages as tests/test_protocol.c builds them.
use secure_ci_coding.Base.{
  ◌≡◌, ◌≢◌, ◌↔◌, refl, arith, [], ◌∷◌, ◌++◌, Bytes, codes, length, take, drop, read16, read32,
}
use secure_ci_coding.Common.{op_code, login, upload, ok, proto_hdr_len}
use secure_ci_coding.Protocol.{Header, parse_message, message_len, serialize_response}
use secure_ci_coding.Protocol.Parse.{Acceptable, parse_message_accepts}
use secure_ci_coding.Protocol.RoundTrip.{parse_message-serialize_response}

abbrev clean : Header
clean = record { op = 0; session_id = 0; data_len = 0; data_start = 0 }

-- A log-out of session 0x3039 with an empty payload.
abbrev logout_packet : Bytes
logout_packet = 0 ∷ 0 ∷ 0 ∷ 14 ∷ 0 ∷ 2 ∷ 0 ∷ 0 ∷ 0x30 ∷ 0x39 ∷ 0 ∷ 0 ∷ 0 ∷ 0 ∷ []

-- The same with the unknown operation 0xffff.
abbrev unknown_packet : Bytes
unknown_packet = 0 ∷ 0 ∷ 0 ∷ 14 ∷ 255 ∷ 255 ∷ 0 ∷ 0 ∷ 0x30 ∷ 0x39 ∷ 0 ∷ 0 ∷ 0 ∷ 0 ∷ []

-- An upload that declares 2 ^ 32 - 14 bytes.
abbrev huge_packet : Bytes
huge_packet = 0 ∷ 0 ∷ 0 ∷ 14 ∷ 0 ∷ 3 ∷ 0 ∷ 0 ∷ 0 ∷ 1 ∷ 255 ∷ 255 ∷ 255 ∷ 242 ∷ []

logout_parses :
    parse_message logout_packet 14 clean
    ≡ (ok, record { op = 2; session_id = 12345; data_len = 0; data_start = 14 })
unfolding parse_message read16 read32
logout_parses = refl

parse_message_accepts_example :
    ((parse_message logout_packet 14 clean).0 ≡ ok) ↔ Acceptable logout_packet 14
parse_message_accepts_example = parse_message_accepts logout_packet 14 clean

unknown_refused : (parse_message unknown_packet 14 clean).0 ≢ ok
unfolding parse_message read16 read32
unknown_refused e = cc

huge_op : read16 huge_packet 4 ≡ op_code upload
unfolding read16
huge_op = refl

huge_len : read32 huge_packet 10 ≡ 4294967282
unfolding read32
huge_len = refl

abbrev reply : Bytes
reply = codes "LOGIN_OK"

parse_message-serialize_response_example :
    (parse_message
        (serialize_response (op_code login) 42 reply ++ 7 ∷ [])
        (length (serialize_response (op_code login) 42 reply ++ 7 ∷ []))
        clean
      ≡ (
        ok,
        record {
          op = op_code login;
          session_id = 42;
          data_len = message_len reply;
          data_start = proto_hdr_len;
        },
      ))
    × (take
          (message_len reply)
          (drop proto_hdr_len (serialize_response (op_code login) 42 reply ++ 7 ∷ []))
        ≡ take 511 reply)
parse_message-serialize_response_example =
    parse_message-serialize_response login 42 reply (7 ∷ []) clean (omega arith)
