-- ===== src/Tests/Protocol.antt =====
-- tests/test_protocol.c.
use secure_ci_coding.Base.{
  ℕ, ◌+◌, ◌<◌, ◌≡◌, refl, ap, ◌∙◌, Bool, true, false, ◌&&◌, Option, none, some, List, [], ◌∷◌, ◌++◌,
  Bytes, ltb, ◌==◌, if◌then◌else◌, length, take, codes, be32, be16, read32, read16, u32_mod,
  u16_mod, word32_digits, word16_digits,
}
use secure_ci_coding.Common.{
  op_code, login, logout, upload, ResultCode, ok, err_format, err_length, err_opcode, err_session,
  err_auth, err_perm, err_io, proto_hdr_len,
}
use secure_ci_coding.Protocol.{
  Header, message_size, message_len, is_known_op, read_fields, parse_message, serialize_response,
}
use secure_ci_coding.Auth.{zeros}

-- What `memcpy` puts behind the header.
abbrev copied : ℕ → Option Bytes → Bytes
copied dlen none = []
copied dlen (some memory) = if ltb 0 dlen then take dlen memory else []

-- The bytes that `build_packet` writes; `none` is a NULL for the data, else it is the memory there.
unfoldable pub build_packet : (op sid dlen : ℕ) → Option Bytes → Bytes
build_packet op sid dlen memory =
    be32 (message_size dlen) ++ (be16 op ++ (be32 sid ++ (be32 dlen ++ copied dlen memory)))

-- The comparisons of `ret`.
abbrev is_ok : ResultCode × Header → Bool
is_ok (c, h) = elim c [
  | ok ↦ true
  | err_format ↦ false
  | err_length ↦ false
  | err_opcode ↦ false
  | err_session ↦ false
  | err_auth ↦ false
  | err_perm ↦ false
  | err_io ↦ false
]

abbrev is_err_length : ResultCode × Header → Bool
is_err_length (c, h) = elim c [
  | ok ↦ false
  | err_format ↦ false
  | err_length ↦ true
  | err_opcode ↦ false
  | err_session ↦ false
  | err_auth ↦ false
  | err_perm ↦ false
  | err_io ↦ false
]

abbrev is_err_opcode : ResultCode × Header → Bool
is_err_opcode (c, h) = elim c [
  | ok ↦ false
  | err_format ↦ false
  | err_length ↦ false
  | err_opcode ↦ true
  | err_session ↦ false
  | err_auth ↦ false
  | err_perm ↦ false
  | err_io ↦ false
]

-- Before a block writes its variables they hold what is on the stack: `stack k` behind the packet of block `k`
-- and `vars k` in `op`, `sid` and `dlen`. `beyond` is the memory behind the literal "short".
unfoldable pub test_protocol :
    (stack : ℕ → Bytes) → (vars : ℕ → Header) → (beyond : Bytes) → List Bool
test_protocol stack vars beyond =
    let logged_in =
      parse_message
        (build_packet (op_code login) 0 16 (some (codes "admin" ++ 0 ∷ codes "password123"))
          ++ stack 1)
        (proto_hdr_len + 16) (vars 1) in
    let short = parse_message (zeros 10) 10 (vars 2) in
    let unknown =
      parse_message (build_packet 0xFFFF 0 4 (some (codes "test")) ++ stack 3) (proto_hdr_len + 4)
        (vars 3) in
    let truncated =
      parse_message
        (build_packet (op_code upload) 0 100 (some (codes "short" ++ 0 ∷ beyond)) ++ stack 4)
        (proto_hdr_len + 5) (vars 4) in
    let out = serialize_response (op_code login) 42 (codes "LOGIN_OK") in
    let empty =
      parse_message (build_packet (op_code logout) 12345 0 none ++ stack 6) proto_hdr_len
        (vars 6) in
    (is_ok logged_in && (logged_in.1.op == op_code login && logged_in.1.data_len == 16))
    ∷ is_err_length short
    ∷ is_err_opcode unknown
    ∷ is_err_length truncated
    ∷ (length out == proto_hdr_len + 8)
    ∷ (is_ok empty && (empty.1.data_len == 0 && empty.1.session_id == 12345))
    ∷ []

-- All six checks of the program pass, whatever is on its stack and behind its literals.
test_protocol_lem :
    (stack : ℕ → Bytes) (vars : ℕ → Header) (beyond : Bytes)
    → test_protocol stack vars beyond ≡ true ∷ true ∷ true ∷ true ∷ true ∷ true ∷ []
unfolding test_protocol build_packet parse_message serialize_response be32 be16 read32 read16
    message_len
test_protocol_lem stack vars beyond = refl

pair-if :
    (t : Bool) (c d : ResultCode) (h : Header)
    → ◌≡◌ {A = ResultCode × Header} (if t then (c, h) else (d, h)) (if t then c else d, h)
pair-if true c d h = refl
pair-if false c d h = refl

module _ (op sid dlen : ℕ) (memory : Option Bytes) (rest : Bytes) (small_op : op < u16_mod)
    (small_sid : sid < u32_mod) (small : dlen < u32_mod) where
  packet_fields :
      (out : Header)
      → read_fields (build_packet op sid dlen memory ++ rest) out
        ≡ record { op = op; session_id = sid; data_len = dlen; data_start = out.data_start }
  unfolding build_packet be32 be16 read32 read16
  packet_fields out =
      let e = word16_digits op small_op in
      let e' = word32_digits sid small_sid in
      let e'' = word32_digits dlen small in
      λ i. record { op = e i; session_id = e' i; data_len = e'' i; data_start = out.data_start }

  -- Whatever the test puts into a packet, the parser reads the operation, the session and the length
  -- back from it, where the header was received, and answers by the length received and the operation.
  parse_message-build_packet :
      (len : ℕ) (out : Header)
      → parse_message (build_packet op sid dlen memory ++ rest) len out ≡ (
          if ltb len proto_hdr_len
          then (err_length, out)
          else if ltb len (message_size dlen)
          then (
            err_length,
            record { op = op; session_id = sid; data_len = dlen; data_start = out.data_start },
          )
          else (
            if is_known_op op then ok else err_opcode,
            record { op = op; session_id = sid; data_len = dlen; data_start = proto_hdr_len },
          ))
  unfolding parse_message
  parse_message-build_packet len out =
      ap (λ h. answer h) (packet_fields out)
      ∙ ap
          (λ x.
            if ltb len proto_hdr_len
            then (err_length, out)
            else if ltb len (message_size dlen)
            then (
              err_length,
              record { op = op; session_id = sid; data_len = dlen; data_start = out.data_start },
            )
            else x)
          (pair-if (is_known_op op) ok err_opcode
            (record { op = op; session_id = sid; data_len = dlen; data_start = proto_hdr_len }))
    where
      answer : Header → ResultCode × Header
      answer h =
          if ltb len proto_hdr_len
          then (err_length, out)
          else if ltb len (message_size h.data_len)
          then (err_length, h)
          else if is_known_op h.op
          then (ok, record h { data_start = proto_hdr_len })
          else (err_opcode, record h { data_start = proto_hdr_len })
