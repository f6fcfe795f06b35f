-- ===== src/Network.antt =====
-- src/network.c and include/network.h: connections on a heap, the table of connections, and the
-- close of a connection. Objects and buffers share one heap of addresses; an access to freed memory
-- and a second free are recorded as faults. System calls come in as their results.
pub mod Close
pub mod Accept
pub mod Write
use secure_ci_coding.Base.{
  ℕ, zero, suc, ◌+◌, ◌-◌, ◌&&◌, Bool, true, false, not, Option, none, some, List, [], ◌∷◌, Bytes,
  ltb, leb, ◌==◌, if◌then◌else◌,
}
use secure_ci_coding.Common.{
  Build, vulnerable, fixed, Fault, null_dereference, use_after_free, double_free, max_connections,
  net_buffer_size,
}
use secure_ci_coding.Session.{Ptr, null, update}

-- `connection_t`, less the address of the peer; `session` is a pointer. `fd` is none for -1.
pub record Connection : Type 0 where
  pub fd : Option ℕ
  pub buffer : Ptr
  pub buf_size : ℕ
  pub buf_used : ℕ
  pub session : Ptr

pub record Network : Type 0 where
  pub heap : Ptr → Connection
  pub live : Ptr → Bool
  pub is_open : ℕ → Bool
  pub slots : ℕ → Ptr
  pub count : ℕ
  pub faults : List Fault

abbrev pub touch : Ptr → Network → Network
touch p s = record s {
  faults =
      if p == null
      then null_dereference ∷ s.faults
      else if s.live p
      then s.faults
      else use_after_free ∷ s.faults;
}

-- `free`: nothing for NULL, and a fault for memory that was freed before.
abbrev free : Ptr → Network → Network
free p s = record s {
  live = if p == null then s.live else update s.live p false;
  faults = if p == null then s.faults else if s.live p then s.faults else double_free ∷ s.faults;
}

abbrev pub close : ℕ → Network → Network
close fd s = record s { is_open = update s.is_open fd false }

-- The descriptors behind `if (conn->fd > 0) close(conn->fd)`.
abbrev pub closed : Option ℕ → (ℕ → Bool) → ℕ → Bool
closed none is_open = is_open
closed (some fd) is_open = if ltb 0 fd then update is_open fd false else is_open

abbrev close_fd : Option ℕ → Network → Network
close_fd fd s = record s { is_open = closed fd s.is_open }

-- The descriptor that `if (conn->fd > 0)` leaves: none for -1.
abbrev fd_left : Option ℕ → Option ℕ
fd_left none = none
fd_left (some fd) = if ltb 0 fd then none else some fd

-- `conn_close`; `shut` tells whether `shutdown` succeeds, which is asked where a session is attached.
unfoldable pub conn_close : Build → (shut : Bool) → Ptr → Network → Network
conn_close vulnerable shut p s =
    if p == null
    then s
    else (let s' = touch p s in
        let c = s.heap p in
        if not (c.session == null) && not shut
        then free p (free c.buffer (free c.buffer s'))
        else free p (free c.buffer (close_fd c.fd (free c.buffer s'))))
conn_close fixed shut p s =
    if p == null
    then s
    else (let s' = touch p s in
        let c = s.heap p in
        let s'' = close_fd c.fd (free c.buffer s') in
        free p
          (record s'' { heap = update s''.heap p (record c { fd = fd_left c.fd; buffer = null }) }))

-- `network_init`: the listening descriptor, none for -1. The arguments are the descriptor that `socket`
-- gives, if it does, and whether `bind` and `listen` succeed.
unfoldable pub network_init :
    (sock : Option ℕ) → (bound listens : Bool) → Network → Option ℕ × Network
network_init none bound listens s = (none, s)
network_init (some fd) bound listens s =
    let opened = record s { is_open = update s.is_open fd true } in
    if not bound
    then (none, close fd opened)
    else if not listens
    then (none, close fd opened)
    else (some fd, opened)

abbrev pub new_connection : ℕ → Ptr → Connection
new_connection fd buffer = record {
  fd = some fd;
  buffer = buffer;
  buf_size = net_buffer_size;
  buf_used = 0;
  session = null;
}

-- What the calls of `network_accept` give: the descriptor, none for -1, and the two addresses.
pub record Incoming : Type 0 where
  pub client_fd : ℕ
  pub conn : Ptr
  pub buffer : Ptr

unfoldable pub network_accept : Option Incoming → Network → Option ℕ × Network
network_accept none s = (none, s)
network_accept (some i) s =
    let opened = record s { is_open = update s.is_open i.client_fd true } in
    if i.conn == null
    then (none, close i.client_fd opened)
    else (let with_conn = record opened {
      live = update s.live i.conn true;
      heap = update s.heap i.conn (new_connection i.client_fd i.buffer);
    } in
        if i.buffer == null
        then (none, close i.client_fd (free i.conn with_conn))
        else (let whole = record with_conn { live = update with_conn.live i.buffer true } in
            if ltb s.count max_connections
            then (
              some i.client_fd,
              record whole { slots = update s.slots s.count i.conn; count = s.count + 1 },
            )
            else (none, close i.client_fd (free i.conn (free i.buffer whole)))))

-- `network_read`: a failure of `recv` gives -1 (none).
unfoldable network_read : Option Bytes → Option Bytes
network_read none = none
network_read (some received) = some received

-- One answer of `send`: an error that lets the loop go on, another error, or a number of bytes.
pub data SendResult : Type 0 where
  again : SendResult
  failed : SendResult
  sent : ℕ → SendResult

pub data WriteResult : Type 0 where
  done : WriteResult
  error : WriteResult
  waiting : ℕ → WriteResult

-- The loop of `network_write` with `total` bytes written, over the answers of the successive calls;
-- `waiting total` when the answers are used up and the loop still runs.
unfoldable pub write_loop : ℕ → ℕ → List SendResult → WriteResult
write_loop len total [] = if ltb total len then waiting total else done
write_loop len total (again ∷ rest) =
    let more = write_loop len total rest in if ltb total len then more else done
write_loop len total (failed ∷ rest) = if ltb total len then error else done
write_loop len total (sent n ∷ rest) =
    let more = write_loop len (total + n) rest in if ltb total len then more else done

unfoldable pub network_write : ℕ → List SendResult → WriteResult
network_write len answers = write_loop len 0 answers
