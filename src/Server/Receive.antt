-- ===== src/Server/Receive.antt =====
-- One round of `handle_client` of src/main.c: a `recv`, the message loop, and what is kept.
use secure_ci_coding.Base.{
  ℕ, ◌+◌, ◌-◌, ◌<◌, ◌≡◌, inl, inr, refl, ap, arith, Bytes, Bool-cases, length, ◌==◌,
}
use secure_ci_coding.Common.{proto_hdr_len}
use secure_ci_coding.Server.{
  Request, Outcome, closing, waiting, running, process_loop, Client, received, reset, after_process,
  receive, ended, going, stuck,
}
use secure_ci_coding.Server.Framing.{process_loop_leaves}

-- A round of `handle_client` that keeps the connection open leaves fewer than 14 bytes in the buffer,
-- so the reset of a nearly full buffer never drops a byte.
pub receive_leaves :
    (S : Type 0) (dispatch : Request → S → S) (n : ℕ) (c : Client S) (chunk : Bytes) {c' : Client S}
    → receive dispatch n c chunk ≡ going c'
    → c'.buf_pos < proto_hdr_len
unfolding receive
receive_leaves S dispatch n c chunk {c'} e = elim (Bool-cases (length chunk == 0)) [
  | inl closed ↦ absurd (over (rw closed at e))
  | inr open_still ↦ by_outcome _ refl (rw open_still at e)
]
  where
    raw : Bytes
    raw = received c.raw c.buf_pos chunk

    buf_pos : ℕ
    buf_pos = c.buf_pos + length chunk

    over : {s : S} → ended s ≡ going c' → ⊥
    over e = cc

    never : stuck ≡ going c' → ⊥
    never e = cc

    client_eq : {x y : Client S} → going x ≡ going y → x ≡ y
    client_eq e = cc

    by_outcome :
        (o : Outcome S)
        → process_loop dispatch n raw buf_pos 0 c.server ≡ o
        → after_process raw buf_pos o ≡ going c'
        → c'.buf_pos < proto_hdr_len
    by_outcome running is e' = absurd (never e')
    by_outcome (closing s) is e' = absurd (over e')
    by_outcome (waiting consumed s) is e' =
        let (inside, few) =
          process_loop_leaves dispatch raw buf_pos n 0 c.server consumed s (omega arith) is in
        let at : reset (buf_pos - consumed) ≡ c'.buf_pos =
          ap (λ (x : Client S). x.buf_pos) (client_eq e') in
        ground arith
