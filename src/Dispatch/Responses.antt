-- ===== src/Dispatch/Responses.antt =====
-- The responses that `handle_client` passes on for the messages in its buffer.
use secure_ci_coding.Base.{
  ℕ, suc, ◌+◌, ◌<◌, ◌≡◌, refl, sym, subst, ap, ◌∙◌, arith, true, List, [], ◌∷◌, ◌++◌, Bytes, All,
  length, append_assoc, append-nil, u32_mod,
}
use secure_ci_coding.Common.{Build, op_code, ok, proto_hdr_len}
use secure_ci_coding.Protocol.{Header, parse_message, serialize_response, message_len}
use secure_ci_coding.Protocol.RoundTrip.{parse_message-serialize_response}
use secure_ci_coding.Server.{Request, waiting, process_loop}
use secure_ci_coding.Server.Stream.{
  Message, packets, IsSendable, dispatch_all, process_loop-packets,
}
use secure_ci_coding.Dispatch.{handle, respond, proto_dispatch, Running, serve}
use secure_ci_coding.Dispatch.State.{Calls}

-- A response that the client can match with its message: the parser accepts it and reads back the operation and
-- the session.
abbrev IsResponse : Message → Bytes → Type 0
IsResponse m r =
    (n : ℕ) × ((out : Header)
      → parse_message r (length r) out ≡ (
        ok,
        record {
          op = op_code m.op;
          session_id = m.session_id;
          data_len = n;
          data_start = proto_hdr_len;
        },
      ))

-- One response for each message, in order.
abbrev pub Answered : List Message → List Bytes → Type 0
Answered [] [] = Unit {0}
Answered [] (r ∷ rs) = ⊥
Answered (m ∷ ms) [] = ⊥
Answered (m ∷ ms) (r ∷ rs) = IsResponse m r × Answered ms rs

module _ (pbkdf2 : Bytes → Bytes → Bytes) (b : Build) (calls : ℕ → Calls)
    (memory : (k : ℕ) → (calls k).response_memory ≡ true) where
  answer : Request → Running → Bytes
  answer r s =
      let reply = (handle pbkdf2 b (calls s.turn) r s.vault).0 in
      serialize_response r.op r.session_id reply.message ++ reply.body

  serve-responses :
      (r : Request) (s : Running)
      → (serve pbkdf2 b calls r s).responses ≡ s.responses ++ answer r s ∷ []
  unfolding serve proto_dispatch respond answer
  serve-responses r s = rw (memory s.turn) refl

  serve-turn : (r : Request) (s : Running) → (serve pbkdf2 b calls r s).turn ≡ s.turn + 1
  unfolding serve
  serve-turn r s = refl

  answer-IsResponse :
      (m : Message) (r : Request) (s : Running)
      → m.session_id < u32_mod
      → r.op ≡ op_code m.op
      → r.session_id ≡ m.session_id
      → IsResponse m (answer r s)
  unfolding answer
  answer-IsResponse m r s small op sid =
      let reply = (handle pbkdf2 b (calls s.turn) r s.vault).0 in
      subst (IsResponse m)
        (λ i. serialize_response (sym op i) (sym sid i) reply.message ++ reply.body)
        (
          message_len reply.message,
          λ out.
              (parse_message-serialize_response m.op m.session_id reply.message reply.body out
                small).0,
        )

  dispatch_all-Answered :
      (ms : List Message) (behind : Bytes) (s : Running)
      → All IsSendable ms
      → (rs : List Bytes) × ((dispatch_all (serve pbkdf2 b calls) ms behind s).responses
          ≡ s.responses ++ rs)
        × Answered ms rs
        × ((dispatch_all (serve pbkdf2 b calls) ms behind s).turn ≡ s.turn + length ms)
  dispatch_all-Answered [] behind s a = ([], sym (append-nil s.responses), tt, omega arith)
  dispatch_all-Answered (m ∷ ms) behind s a =
      let r : Request = record {
        op = op_code m.op;
        session_id = m.session_id;
        data_len = length m.payload;
        content = m.payload ++ (packets ms ++ behind);
      } in
      let (rs, e, answered, turns) =
        dispatch_all-Answered ms behind (serve pbkdf2 b calls r s) a.1 in
      (
        answer r s ∷ rs,
        e ∙ ap (λ t. t ++ rs) (serve-responses r s) ∙ append_assoc s.responses (answer r s ∷ []) rs,
        (answer-IsResponse m r s a.0.0 refl refl, answered),
        omega (arith, turns, serve-turn r s),
      )

-- Where the buffer holds whole messages and nothing else, and each response finds memory, both builds use the
-- buffer up and pass on one response for each message, in order, whatever the requests do: the
-- parser accepts it, and it carries the operation and the session of its message.
pub process_loop-responses :
    (pbkdf2 : Bytes → Bytes → Bytes) (b : Build) (calls : ℕ → Calls) (ms : List Message)
    (behind : Bytes) (s : Running)
    → ((k : ℕ) → (calls k).response_memory ≡ true)
    → All IsSendable ms
    → (t : Running) × (rs : List Bytes) × (process_loop
          (serve pbkdf2 b calls)
          (suc (length ms))
          (packets ms ++ behind)
          (length (packets ms))
          0
          s
        ≡ waiting (length (packets ms)) t)
      × (t.responses ≡ s.responses ++ rs)
      × Answered ms rs
      × (t.turn ≡ s.turn + length ms)
process_loop-responses pbkdf2 b calls ms behind s memory a =
    let (rs, e, answered, turns) = dispatch_all-Answered pbkdf2 b calls memory ms behind s a in
    (
      dispatch_all (serve pbkdf2 b calls) ms behind s,
      rs,
      process_loop-packets Running (serve pbkdf2 b calls) ms behind s a,
      e,
      answered,
      turns,
    )
