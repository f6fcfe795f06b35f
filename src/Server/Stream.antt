-- ===== src/Server/Stream.antt =====
-- A buffer of whole messages, as a client sends them: each is handed to the dispatcher once, in order.
use secure_ci_coding.Base.{
  ℕ, zero, suc, ◌+◌, ◌<◌, ◌≡◌, refl, ap, sym, ◌∙◌, arith, List, [], ◌∷◌, ◌++◌, Bytes, read16,
  read32, be16, be32, u32_mod, drop, length, length-append, append_assoc, All, word16_digits,
  word32_digits,
}
use secure_ci_coding.Common.{OpType, op_code, proto_hdr_len}
use secure_ci_coding.Protocol.{message_size, read_fields}
use secure_ci_coding.Protocol.RoundTrip.{op_code-lt}
use secure_ci_coding.Server.{Request, waiting, unset, request_of, process_loop}
use secure_ci_coding.Server.Framing.{process_known, process_stop, dispatched}

-- A message of the wire protocol.
pub record Message : Type 0 where
  pub op : OpType
  pub session_id : ℕ
  pub payload : Bytes

-- `build_packet`: the header with its four fields in big-endian order, and the payload.
unfoldable pub build_packet : Message → Bytes
build_packet m =
    be32 (proto_hdr_len + length m.payload)
    ++ (be16 (op_code m.op) ++ (be32 m.session_id ++ (be32 (length m.payload) ++ m.payload)))

unfoldable pub packets : List Message → Bytes
packets [] = []
packets (m ∷ ms) = build_packet m ++ packets ms

-- The session is a uint32_t, and the payload is below the length at which its size wraps.
abbrev pub IsSendable : Message → Type 0
IsSendable m = (m.session_id < u32_mod) × (proto_hdr_len + length m.payload < u32_mod)

-- The requests in order; the memory behind a payload is what follows it in the buffer.
abbrev pub dispatch_all : {S : Type 0} → (Request → S → S) → List Message → Bytes → S → S
dispatch_all dispatch [] behind s = s
dispatch_all dispatch (m ∷ ms) behind s = dispatch_all dispatch ms behind (
    dispatch
      (record {
        op = op_code m.op;
        session_id = m.session_id;
        data_len = length m.payload;
        content = m.payload ++ (packets ms ++ behind);
      })
      s)

packet_fields :
    (m : Message) (rest : Bytes)
    → IsSendable m
    → (read16 (build_packet m ++ rest) 4 ≡ op_code m.op)
      × (read32 (build_packet m ++ rest) 6 ≡ m.session_id)
      × (read32 (build_packet m ++ rest) 10 ≡ length m.payload)
      × (drop proto_hdr_len (build_packet m ++ rest) ≡ m.payload ++ rest)
unfolding build_packet be32 be16 read32 read16
packet_fields m rest fits = (
  word16_digits (op_code m.op) (omega (arith, op_code-lt m.op)),
  word32_digits m.session_id fits.0,
  word32_digits (length m.payload) (omega arith),
  refl,
)

length-build_packet : (m : Message) → length (build_packet m) ≡ proto_hdr_len + length m.payload
unfolding build_packet be32 be16
length-build_packet m = omega arith

drop-append : (s t : Bytes) → drop (length s) (s ++ t) ≡ t
drop-append [] t = refl
drop-append (c ∷ s) t = drop-append s t

drop-nil : (n : ℕ) → drop {A = ℕ} n [] ≡ []
drop-nil zero = refl
drop-nil (suc n) = refl

drop-drop : (a b : ℕ) (s : Bytes) → drop (a + b) s ≡ drop b (drop a s)
drop-drop zero b s = ap (λ k. drop k s) (omega arith)
drop-drop (suc a) b [] = drop-nil (suc a + b) ∙ sym (drop-nil b)
drop-drop (suc a) b (c ∷ s) =
    let step : suc a + b ≡ suc (a + b) = omega arith in
    ap (λ k. drop k (c ∷ s)) step ∙ drop-drop a b s

abbrev request : Message → Bytes → Request
request m rest = record {
  op = op_code m.op;
  session_id = m.session_id;
  data_len = length m.payload;
  content = m.payload ++ rest;
}

request_of_packet :
    (m : Message) (msg rest : Bytes)
    → IsSendable m
    → msg ≡ build_packet m ++ rest
    → request_of msg (record (read_fields msg unset) { data_start = proto_hdr_len })
      ≡ request m rest
request_of_packet m msg rest fits at =
    let (op, sid, len, content) = packet_fields m rest fits in
    let op' : read16 msg 4 ≡ op_code m.op = ap (λ x. read16 x 4) at ∙ op in
    let sid' : read32 msg 6 ≡ m.session_id = ap (λ x. read32 x 6) at ∙ sid in
    let len' : read32 msg 10 ≡ length m.payload = ap (λ x. read32 x 10) at ∙ len in
    let content' : drop proto_hdr_len msg ≡ m.payload ++ rest =
      ap (drop proto_hdr_len) at ∙ content in
    λ i. record { op = op' i; session_id = sid' i; data_len = len' i; content = content' i }

-- From a place where the buffer goes on with whole messages, up to its end.
process_packets :
    (S : Type 0) (dispatch : Request → S → S) (raw : Bytes) (buf_pos : ℕ) (ms : List Message)
    (behind : Bytes) (n consumed : ℕ) (s : S)
    → All IsSendable ms
    → drop consumed raw ≡ packets ms ++ behind
    → consumed + length (packets ms) ≡ buf_pos
    → length ms < n
    → process_loop dispatch n raw buf_pos consumed s
      ≡ waiting buf_pos (dispatch_all dispatch ms behind s)
unfolding packets
process_packets S dispatch raw buf_pos [] behind zero consumed s a at end fuel =
    absurd (omega arith)
process_packets S dispatch raw buf_pos [] behind (suc n) consumed s a at end fuel =
    process_stop dispatch raw buf_pos n consumed s (omega arith)
    ∙ ap (λ c. waiting c s) (omega arith)
process_packets S dispatch raw buf_pos (m ∷ ms) behind zero consumed s a at end fuel =
    absurd (omega arith)
process_packets S dispatch raw buf_pos (m ∷ ms) behind (suc n) consumed s a at end fuel =
    let rest = packets ms ++ behind in
    let msg : drop consumed raw ≡ build_packet m ++ rest =
      at ∙ append_assoc (build_packet m) (packets ms) behind in
    let fields = packet_fields m rest a.0 in
    let op : read16 (drop consumed raw) 4 ≡ op_code m.op = ap (λ x. read16 x 4) msg ∙ fields.0 in
    let len : read32 (drop consumed raw) 10 ≡ length m.payload =
      ap (λ x. read32 x 10) msg ∙ fields.2 in
    let size : message_size (read32 (drop consumed raw) 10) ≡ length (build_packet m) =
      omega (arith, length-build_packet m, ap message_size len) in
    let parts = length-append (build_packet m) (packets ms) in
    process_known dispatch raw buf_pos n consumed s m.op (omega (arith, length-build_packet m)) op
      (omega arith)
    ∙ ap
        (λ k.
          process_loop dispatch n raw buf_pos (consumed + k)
            (dispatched dispatch raw buf_pos consumed s))
        size
    ∙ ap
        (λ r.
          process_loop dispatch n raw buf_pos (consumed + length (build_packet m)) (dispatch r s))
        (request_of_packet m (drop consumed raw) rest a.0 msg)
    ∙ process_packets S dispatch raw buf_pos ms behind n (consumed + length (build_packet m)) _ a.1
        (drop-drop consumed (length (build_packet m)) raw
          ∙ ap (drop (length (build_packet m))) msg
          ∙ drop-append (build_packet m) rest)
        (omega arith) (omega arith)

-- A buffer that holds whole messages and nothing else up to `buf_pos` is used up: each message reaches
-- the dispatcher once, in order, with its operation, session and payload length, and with the
-- payload at the front of its data. One round more than there are messages is enough.
pub process_loop-packets :
    (S : Type 0) (dispatch : Request → S → S) (ms : List Message) (behind : Bytes) (s : S)
    → All IsSendable ms
    → process_loop dispatch (suc (length ms)) (packets ms ++ behind) (length (packets ms)) 0 s
      ≡ waiting (length (packets ms)) (dispatch_all dispatch ms behind s)
process_loop-packets S dispatch ms behind s a =
    process_packets S dispatch (packets ms ++ behind) (length (packets ms)) ms behind
      (suc (length ms)) 0 s a refl (omega arith) (omega arith)
