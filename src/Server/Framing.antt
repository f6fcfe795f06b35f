-- ===== src/Server/Framing.antt =====
-- The loop over the messages in the buffer: what it leaves, when it ends, and when it does not.
use secure_ci_coding.Base.{
  ℕ, zero, suc, ◌+◌, ◌-◌, ◌≤◌, ◌<◌, ◌≡◌, ◌≢◌, inl, inr, refl, ap, sym, ◌∙◌, true, false, arith,
  Bytes, read16, read32, u32_mod, drop, leb, ltb, if◌then◌else◌, Bool-cases,
}
use secure_ci_coding.Common.{OpType, op_code, ResultCode, ok, proto_hdr_len}
use secure_ci_coding.Protocol.{Header, message_size, parse_message, read_fields}
use secure_ci_coding.Protocol.Parse.{known-op_code}
use secure_ci_coding.Server.{
  Request, closing, waiting, running, unset, after_parse, request_of, process_loop,
}

parse_ok_size :
    (raw : Bytes) (len : ℕ) (out h : Header)
    → parse_message raw len out ≡ (ok, h)
    → (message_size h.data_len ≤ len) × (h.data_len ≡ read32 raw 10)
unfolding parse_message
parse_ok_size raw len out h e = (ground arith, ground arith)

-- What the parser yields on a known operation, where the size fits as it is added up.
parse_known :
    (raw : Bytes) (len : ℕ) (out : Header) (o : OpType)
    → read16 raw 4 ≡ op_code o
    → proto_hdr_len ≤ len
    → message_size (read32 raw 10) ≤ len
    → parse_message raw len out ≡ (ok, record (read_fields raw out) { data_start = proto_hdr_len })
unfolding parse_message
parse_known raw len out o op long fits = ground (arith, known-op_code o)

waiting_inv : {S : Type 0} {c c' : ℕ} {s s' : S} → waiting c s ≡ waiting c' s' → c ≡ c'
waiting_inv e = cc

module _ {S : Type 0} (dispatch : Request → S → S) (raw : Bytes) (buf_pos : ℕ) where
  -- One round, seen from the result of the parser.
  process_round :
      (n consumed : ℕ) (s : S)
      → consumed + proto_hdr_len ≤ buf_pos
      → process_loop dispatch (suc n) raw buf_pos consumed s
        ≡ after_parse dispatch
            (process_loop dispatch n raw buf_pos)
            raw
            buf_pos
            consumed
            s
            (parse_message (drop consumed raw) (buf_pos - consumed) unset)
  unfolding process_loop
  process_round n consumed s h =
      let yes_more : leb (consumed + proto_hdr_len) buf_pos ≡ true = ground arith in
      rw (yes_more, process_loop)

  pub process_stop :
      (n consumed : ℕ) (s : S)
      → buf_pos < consumed + proto_hdr_len
      → process_loop dispatch (suc n) raw buf_pos consumed s ≡ waiting consumed s
  unfolding process_loop
  process_stop n consumed s h =
      let no_more : leb (consumed + proto_hdr_len) buf_pos ≡ false = ground arith in
      rw (no_more, process_loop)

  -- When the loop waits for more bytes, it has stopped inside the bytes received, and fewer bytes than
  -- a header are left: no complete header is ever left waiting for its payload.
  pub process_loop_leaves :
      (n consumed : ℕ) (s : S) (left : ℕ) (s' : S)
      → consumed ≤ buf_pos
      → process_loop dispatch n raw buf_pos consumed s ≡ waiting left s'
      → (left ≤ buf_pos) × (buf_pos < left + proto_hdr_len)
  unfolding process_loop
  process_loop_leaves zero consumed s left s' h e = absurd (cc)
  process_loop_leaves (suc n) consumed s left s' h e =
      elim (Bool-cases (leb (consumed + proto_hdr_len) buf_pos)) [
        | inr short ↦
            let at : consumed ≡ left =
              waiting_inv (sym (process_stop n consumed s (ground arith)) ∙ e) in
            (omega arith, ground arith)
        | inl more ↦
            by_result (parse_message (drop consumed raw) (buf_pos - consumed) unset) refl
              (sym (process_round n consumed s (ground arith)) ∙ e) (process_loop_leaves n)
      ]
    where
      by_result :
          (r : ResultCode × Header)
          → parse_message (drop consumed raw) (buf_pos - consumed) unset ≡ r
          → after_parse dispatch (process_loop dispatch n raw buf_pos) raw buf_pos consumed s r
            ≡ waiting left s'
          → ((c : ℕ) (t : S) (l : ℕ) (t' : S)
              → c ≤ buf_pos
              → process_loop dispatch n raw buf_pos c t ≡ waiting l t'
              → (l ≤ buf_pos) × (buf_pos < l + proto_hdr_len))
          → (left ≤ buf_pos) × (buf_pos < left + proto_hdr_len)
      by_result (ok, record_h) is e' ih =
          let (fits, _) =
            parse_ok_size (drop consumed raw) (buf_pos - consumed) unset record_h is in
          let no_break : ltb (buf_pos - consumed) (message_size record_h.data_len) ≡ false =
            ground arith in
          ih _ _ left s' (omega arith) (rw no_break at e')
      by_result (_, record_h) is e' ih = absurd (cc)

  -- A message whose header is complete and whose size, added up modulo 2 ^ 32, exceeds the bytes
  -- received closes the connection; it is not kept until the rest of it arrives.
  process_loop_fragment :
      (n consumed : ℕ) (s : S)
      → consumed + proto_hdr_len ≤ buf_pos
      → buf_pos < consumed + message_size (read32 (drop consumed raw) 10)
      → process_loop dispatch (suc n) raw buf_pos consumed s ≡ closing s
  process_loop_fragment n consumed s whole cut =
      process_round n consumed s whole
      ∙ by_result (parse_message (drop consumed raw) (buf_pos - consumed) unset) refl
    where
      by_result :
          (r : ResultCode × Header)
          → parse_message (drop consumed raw) (buf_pos - consumed) unset ≡ r
          → after_parse dispatch
              (process_loop dispatch n raw buf_pos)
              raw
              buf_pos
              consumed
              s
              (parse_message (drop consumed raw) (buf_pos - consumed) unset)
            ≡ closing s
      by_result (ok, h) is =
          let (fits, same) = parse_ok_size (drop consumed raw) (buf_pos - consumed) unset h is in
          absurd (omega (arith, ap message_size same))
      by_result (_, h) is =
          ap (after_parse dispatch (process_loop dispatch n raw buf_pos) raw buf_pos consumed s) is

  -- The state behind the dispatch of the message at `consumed`.
  abbrev pub dispatched : ℕ → S → S
  dispatched consumed s =
      let msg = drop consumed raw in
      dispatch (request_of msg (record (read_fields msg unset) { data_start = proto_hdr_len })) s

  -- One round on a message that fits and has a known operation.
  pub process_known :
      (n consumed : ℕ) (s : S) (o : OpType)
      → consumed + proto_hdr_len ≤ buf_pos
      → read16 (drop consumed raw) 4 ≡ op_code o
      → consumed + message_size (read32 (drop consumed raw) 10) ≤ buf_pos
      → process_loop dispatch (suc n) raw buf_pos consumed s
        ≡ process_loop dispatch n raw buf_pos
            (consumed + message_size (read32 (drop consumed raw) 10))
            (dispatched consumed s)
  process_known n consumed s o whole op fits =
      let msg = drop consumed raw in
      let parsed = parse_known msg (buf_pos - consumed) unset o op (omega arith) (omega arith) in
      let goes_on : ltb (buf_pos - consumed) (message_size (read32 msg 10)) ≡ false =
        ground arith in
      process_round n consumed s whole
      ∙ ap (after_parse dispatch (process_loop dispatch n raw buf_pos) raw buf_pos consumed s)
          parsed
      ∙ ap
          (λ t.
            if t
            then waiting consumed s
            else process_loop dispatch n raw buf_pos (consumed + message_size (read32 msg 10))
                (dispatched consumed s))
          goes_on

  -- A message with a known operation and the payload length 2 ^ 32 - 14 is never left behind: its size
  -- wraps to 0, so the loop runs on at the same place, for any number of rounds.
  pub process_loop_diverges :
      (n consumed : ℕ) (s : S) (o : OpType)
      → consumed + proto_hdr_len ≤ buf_pos
      → read16 (drop consumed raw) 4 ≡ op_code o
      → read32 (drop consumed raw) 10 + proto_hdr_len ≡ u32_mod
      → process_loop dispatch n raw buf_pos consumed s ≡ running
  unfolding process_loop
  process_loop_diverges zero consumed s o whole op big = refl
  process_loop_diverges (suc n) consumed s o whole op big =
      process_known n consumed s o whole op (omega arith)
      ∙ ap (λ c. process_loop dispatch n raw buf_pos c (dispatched consumed s)) (omega arith)
      ∙ process_loop_diverges n consumed (dispatched consumed s) o whole op big

  -- Where no place in the buffer reads as a message of the length 2 ^ 32 - 14, the loop ends: one round
  -- more than the bytes left is enough.
  pub process_loop_ends :
      (n consumed : ℕ) (s : S)
      → ((c : ℕ) → c ≤ buf_pos → message_size (read32 (drop c raw) 10) ≢ 0)
      → consumed ≤ buf_pos
      → buf_pos < consumed + n
      → process_loop dispatch n raw buf_pos consumed s ≢ running
  unfolding process_loop
  process_loop_ends zero consumed s sound h fuel e = omega arith
  process_loop_ends (suc n) consumed s sound h fuel e =
      elim (Bool-cases (leb (consumed + proto_hdr_len) buf_pos)) [
        | inr short ↦ absurd (stops (sym (process_stop n consumed s (ground arith)) ∙ e))
        | inl more ↦
            by_result (parse_message (drop consumed raw) (buf_pos - consumed) unset) refl
              (sym (process_round n consumed s (ground arith)) ∙ e)
              (λ c t. process_loop_ends n c t sound)
      ]
    where
      stops : waiting consumed s ≡ running → ⊥
      stops e = cc

      by_result :
          (r : ResultCode × Header)
          → parse_message (drop consumed raw) (buf_pos - consumed) unset ≡ r
          → after_parse dispatch (process_loop dispatch n raw buf_pos) raw buf_pos consumed s r
            ≡ running
          → ((c : ℕ) (t : S)
              → c ≤ buf_pos
              → buf_pos < c + n
              → process_loop dispatch n raw buf_pos c t ≢ running)
          → ⊥
      by_result (ok, m) is e' ih =
          let (fits, same) = parse_ok_size (drop consumed raw) (buf_pos - consumed) unset m is in
          let moves = sound consumed (omega arith) in
          let no_break : ltb (buf_pos - consumed) (message_size m.data_len) ≡ false =
            ground arith in
          let size : message_size m.data_len ≡ message_size (read32 (drop consumed raw) 10) =
            ap message_size same in
          ih _ _ (omega arith) (omega arith) (rw no_break at e')
      by_result (_, h) is e' ih = cc
