-- ===== src/Server/Guarded.antt =====
-- What the receive loop asks of a dispatcher in order to keep a property of the server's state.
use secure_ci_coding.Base.{
  ℕ, zero, suc, ◌+◌, some, none, Option, List, [], ◌∷◌, Bytes, Bool, true, false, if_both, length,
  ◌==◌, leb, ltb, drop, ◌-◌,
}
use secure_ci_coding.Common.{ResultCode, ok, proto_hdr_len}
use secure_ci_coding.Protocol.{Header, message_size, parse_message}
use secure_ci_coding.Server.{
  Request, Outcome, closing, waiting, running, unset, request_of, after_parse, process_loop, Client,
  received, after_process, Round, ended, going, stuck, receive, after_round, client_loop,
}

-- A dispatcher with a property that every request keeps.
pub record Guarded (S : Type 0) : Type 1 where
  pub dispatch : Request → S → S
  pub Good : S → Type 0
  pub keeps : (r : Request) (s : S) → Good s → Good (dispatch r s)

module _ {S : Type 0} (g : Guarded S) where
  open g use {dispatch, Good, keeps}

  abbrev GoodOutcome : Outcome S → Type 0
  GoodOutcome (closing s) = Good s
  GoodOutcome (waiting c s) = Good s
  GoodOutcome running = Unit {0}

  abbrev GoodRound : Round S → Type 0
  GoodRound (ended s) = Good s
  GoodRound (going c) = Good c.server
  GoodRound stuck = Unit {0}

  abbrev GoodResult : Option S → Type 0
  GoodResult none = Unit {0}
  GoodResult (some s) = Good s

  process_loop-Good :
      (n : ℕ) (raw : Bytes) (buf_pos consumed : ℕ) (s : S)
      → Good s
      → GoodOutcome (process_loop dispatch n raw buf_pos consumed s)
  unfolding process_loop
  process_loop-Good zero raw buf_pos consumed s h = tt
  process_loop-Good (suc n) raw buf_pos consumed s h =
      more (leb (consumed + proto_hdr_len) buf_pos) (process_loop-Good n raw buf_pos)
    where
      parsed :
          (r : ResultCode × Header)
          → ((c : ℕ) (t : S) → Good t → GoodOutcome (process_loop dispatch n raw buf_pos c t))
          → GoodOutcome
              (after_parse dispatch (process_loop dispatch n raw buf_pos) raw buf_pos consumed s r)
      parsed (ok, m) later =
          if_both GoodOutcome (ltb (buf_pos - consumed) (message_size m.data_len)) h (
            later (consumed + message_size m.data_len)
              (dispatch (request_of (drop consumed raw) m) s)
              (keeps (request_of (drop consumed raw) m) s h))
      parsed (_, m) later = h

      more :
          (t : Bool)
          → ((c : ℕ) (t : S) → Good t → GoodOutcome (process_loop dispatch n raw buf_pos c t))
          → GoodOutcome (elim t [
            | false ↦ waiting consumed s
            | true ↦
                after_parse dispatch
                  (process_loop dispatch n raw buf_pos)
                  raw
                  buf_pos
                  consumed
                  s
                  (parse_message (drop consumed raw) (buf_pos - consumed) unset)
          ])
      more false later = h
      more true later = parsed (parse_message (drop consumed raw) (buf_pos - consumed) unset) later

  receive-Good :
      (n : ℕ) (c : Client S) (chunk : Bytes)
      → Good c.server
      → GoodRound (receive dispatch n c chunk)
  unfolding receive
  receive-Good n c chunk h = if_both GoodRound (length chunk == 0) h (
      after
        (process_loop dispatch n (received c.raw c.buf_pos chunk) (c.buf_pos + length chunk) 0
          c.server)
        (process_loop-Good n _ _ 0 c.server h))
    where
      after :
          (o : Outcome S)
          → GoodOutcome o
          → GoodRound (after_process (received c.raw c.buf_pos chunk) (c.buf_pos + length chunk) o)
      after running k = tt
      after (closing s) k = k
      after (waiting consumed s) k = k

  pub client_loop-Good :
      (n : ℕ) (chunks : List Bytes) (c : Client S)
      → Good c.server
      → GoodResult (client_loop dispatch n chunks c)
  unfolding client_loop
  client_loop-Good n [] c h = h
  client_loop-Good n (chunk ∷ chunks) c h =
      after (receive dispatch n c chunk) (receive-Good n c chunk h) (client_loop-Good n chunks)
    where
      after :
          (r : Round S)
          → GoodRound r
          → ((d : Client S) → Good d.server → GoodResult (client_loop dispatch n chunks d))
          → GoodResult (after_round (client_loop dispatch n chunks) r)
      after (ended s) k later = k
      after (going d) k later = later d k
      after stuck k later = tt
