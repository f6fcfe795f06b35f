-- ===== src/Server.antt =====
-- src/main.c: the receive loop of a client. `handle_client` reads into a buffer of 4096 bytes,
-- cuts complete messages off its front and hands them to the dispatcher.
pub mod Framing
pub mod Stream
pub mod Receive
pub mod Ends
pub mod Guarded
use secure_ci_coding.Base.{
  ℕ, zero, suc, ◌+◌, ◌-◌, ◌%◌, ◌&&◌, Bool, true, false, not, Option, none, some, List, [], ◌∷◌,
  ◌++◌, Bytes, ltb, leb, ◌==◌, if◌then◌else◌, take, drop, length,
}
use secure_ci_coding.Common.{ResultCode, ok, max_connections, net_buffer_size, proto_hdr_len}
use secure_ci_coding.Session.{Ptr, null}
use secure_ci_coding.Network.{Network, Connection, touch}
use secure_ci_coding.Protocol.{Header, message_size, parse_message}

-- The search for the connection of a descriptor, over all slots, with `n` left at slot `i`.
abbrev has_fd : Option ℕ → ℕ → Bool
has_fd none fd = false
has_fd (some d) fd = d == fd

unfoldable pub find_loop : ℕ → ℕ → ℕ → Network → Ptr × Network
find_loop zero i fd s = (null, s)
find_loop (suc n) i fd s =
    let p = s.slots i in
    let s' = (if p == null then s else touch p s) in
    let rest = find_loop n (i + 1) fd s' in
    if not (p == null) && has_fd (s.heap p).fd fd then (p, s') else rest

unfoldable pub find_connection : ℕ → Network → Ptr × Network
find_connection fd s = find_loop max_connections 0 fd s

-- A request as the dispatcher gets it: `content` is the memory from the payload on.
pub record Request : Type 0 where
  pub op : ℕ
  pub session_id : ℕ
  pub data_len : ℕ
  pub content : Bytes

-- How the loop over the received messages ends: it closes the connection, or it waits for more bytes
-- after `consumed`; `running` when the rounds given are used up and it still runs.
pub data Outcome (S : Type 0) : Type 0 where
  closing : S → Outcome S
  waiting : (consumed : ℕ) → S → Outcome S
  running : Outcome S

-- The four variables are not initialised in the source; `parse_message` sets them.
abbrev pub unset : Header
unset = record { op = 0; session_id = 0; data_len = 0; data_start = 0 }

abbrev pub request_of : Bytes → Header → Request
request_of msg h = record {
  op = h.op;
  session_id = h.session_id;
  data_len = h.data_len;
  content = drop h.data_start msg;
}

-- The buffer of `handle_client` with `buf_pos` bytes in use, and the state of the server.
pub record Client (S : Type 0) : Type 0 where
  pub raw : Bytes
  pub buf_pos : ℕ
  pub server : S

-- The buffer behind a `recv` of `chunk`.
abbrev pub received : Bytes → ℕ → Bytes → Bytes
received raw buf_pos chunk = take buf_pos raw ++ (chunk ++ drop (buf_pos + length chunk) raw)

-- `memmove` of the bytes that are left to the front.
abbrev pub shifted : Bytes → (buf_pos consumed : ℕ) → Bytes
shifted raw buf_pos consumed =
    if ltb 0 consumed && ltb consumed buf_pos
    then take (buf_pos - consumed) (drop consumed raw) ++ drop (buf_pos - consumed) raw
    else raw

-- The reset when the buffer is nearly full.
abbrev pub reset : ℕ → ℕ
reset buf_pos = if ltb (net_buffer_size - proto_hdr_len) buf_pos then 0 else buf_pos

-- What a round of the loop over `recv` leaves: it ended with the connection to be closed, it goes on,
-- or the loop over the messages was still running when its rounds were used up.
pub data Round (S : Type 0) : Type 0 where
  ended : S → Round S
  going : Client S → Round S
  stuck : Round S

abbrev pub after_process : {S : Type 0} → Bytes → ℕ → Outcome S → Round S
after_process raw buf_pos running = stuck
after_process raw buf_pos (closing s) = ended s
after_process raw buf_pos (waiting consumed s) = going (record {
  raw = shifted raw buf_pos consumed;
  buf_pos = reset (buf_pos - consumed);
  server = s;
})

abbrev pub after_round : {S : Type 0} → (Client S → Option S) → Round S → Option S
after_round rest (ended s) = some s
after_round rest (going c) = rest c
after_round rest stuck = none

module _ {S : Type 0} (dispatch : Request → S → S) where
  -- One round on a message that was parsed, where `msg_total` is a uint32_t sum; `rest` is what the
  -- loop does from the new position and state on.
  abbrev pub after_parse :
      (rest : ℕ → S → Outcome S)
      → (raw : Bytes) → (buf_pos consumed : ℕ) → S
      → ResultCode × Header
      → Outcome S
  after_parse rest raw buf_pos consumed s (ok, h) =
      if ltb (buf_pos - consumed) (message_size h.data_len)
      then waiting consumed s
      else rest (consumed + message_size h.data_len) (dispatch (request_of (drop consumed raw) h) s)
  after_parse rest raw buf_pos consumed s (_, h) = closing s

  -- `while (consumed + PROTO_HDR_LEN <= buf_pos)`
  unfoldable pub process_loop : ℕ → Bytes → (buf_pos consumed : ℕ) → S → Outcome S
  process_loop zero raw buf_pos consumed s = running
  process_loop (suc n) raw buf_pos consumed s = elim (leb (consumed + proto_hdr_len) buf_pos) [
    | false ↦ waiting consumed s
    | true ↦
        after_parse (process_loop n raw buf_pos) raw buf_pos consumed s
          (parse_message (drop consumed raw) (buf_pos - consumed) unset)
  ]

  -- One round of `handle_client` on the bytes of one `recv`, with `n` rounds for the inner loop.
  -- `recv` gives no more than the free space, and nothing when the peer has closed or on an error.
  unfoldable pub receive : ℕ → Client S → Bytes → Round S
  receive n c chunk =
      let raw = received c.raw c.buf_pos chunk in
      let buf_pos = c.buf_pos + length chunk in
      if length chunk == 0
      then ended c.server
      else after_process raw buf_pos (process_loop n raw buf_pos 0 c.server)

  -- `while (g_running)` over the results of the successive calls of `recv`, until `g_running` is
  -- cleared; none when an inner loop is stuck.
  unfoldable pub client_loop : ℕ → List Bytes → Client S → Option S
  client_loop n [] c = some c.server
  client_loop n (chunk ∷ chunks) c = after_round (client_loop n chunks) (receive n c chunk)
