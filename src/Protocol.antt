-- ===== src/Protocol.antt =====
-- src/protocol.c: the wire format. `parse_message` and `serialize_response`.
-- A message is the memory from the pointer on; `len` is the number of bytes received.
pub mod Parse
pub mod RoundTrip
use secure_ci_coding.Base.{
  ℕ, ◌+◌, ◌%◌, ◌++◌, ◌||◌, Bool, Bytes, ltb, ◌==◌, if◌then◌else◌, u32_mod, u16_mod, be32, be16,
  read32, read16, length, take, drop,
}
use secure_ci_coding.Common.{
  OpType, op_code, login, logout, upload, download, delete, list, backup, ResultCode, ok,
  err_length, err_opcode, proto_hdr_len, proto_result_max,
}

-- The caller's variables that `parse_message` writes; `data_start` is an offset into the message.
pub record Header : Type 0 where
  pub op : ℕ
  pub session_id : ℕ
  pub data_len : ℕ
  pub data_start : ℕ

-- The cases of the switch on the operation code.
abbrev pub is_known_op : ℕ → Bool
is_known_op op =
    op == op_code login
    || op == op_code logout
    || op == op_code upload
    || op == op_code download
    || op == op_code delete
    || op == op_code list
    || op == op_code backup

-- `PROTO_HDR_LEN + *data_len` is a sum of an int and a uint32_t: it wraps at 2 ^ 32.
abbrev pub message_size : ℕ → ℕ
message_size data_len = (proto_hdr_len + data_len) % u32_mod

-- The four fields are read before the length and the operation are checked.
abbrev pub read_fields : Bytes → Header → Header
read_fields raw out = record out {
  op = read16 raw 4;
  session_id = read32 raw 6;
  data_len = read32 raw 10;
}

unfoldable pub parse_message : Bytes → ℕ → Header → ResultCode × Header
parse_message raw len out =
    if ltb len proto_hdr_len
    then (err_length, out)
    else (let h = read_fields raw out in
        if ltb len (message_size h.data_len)
        then (err_length, h)
        else (let h' = record h { data_start = proto_hdr_len } in
            if is_known_op h.op then (ok, h') else (err_opcode, h')))

-- `result_msg` is a C string of at most 511 bytes in the callers; a longer one is cut here.
unfoldable pub message_len : Bytes → ℕ
message_len msg = if ltb (length msg) proto_result_max then length msg else 511

-- The bytes written to `out`; `*out_len` is their number.
unfoldable pub serialize_response : ℕ → ℕ → Bytes → Bytes
serialize_response op session_id msg =
    let n = message_len msg in
    be32 (proto_hdr_len + n) ++ (be16 op ++ (be32 session_id ++ (be32 n ++ take n msg)))
