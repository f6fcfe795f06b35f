-- ===== src/Network/Accept.antt =====
-- `network_accept`, and the table of connections over any run of the server.
use secure_ci_coding.Base.{
  ◌+◌, ◌≡◌, ◌≢◌, ◌≤◌, ◌<◌, refl, false, arith, some, none, Bool, List, [], ◌∷◌, Option,
}
use secure_ci_coding.Common.{Build, vulnerable, fixed, max_connections}
use secure_ci_coding.Session.{Ptr, null}
use secure_ci_coding.Network.{Network, Incoming, new_connection, network_accept, conn_close}
use secure_ci_coding.Network.Close.{Holds}

-- Addresses that `calloc` and `malloc` may return.
record IsFresh (s : Network) (i : Incoming) : Type 0 where
  pub conn_real : i.conn ≢ null
  pub buffer_real : i.buffer ≢ null
  pub conn_free : s.live i.conn ≡ false
  pub buffer_free : s.live i.buffer ≡ false
  pub apart : i.buffer ≢ i.conn

-- With memory and a free slot, an accepted descriptor is returned, and its connection stands in the
-- next slot with a buffer of its own.
network_accept_registers :
    (i : Incoming) (s : Network)
    → IsFresh s i
    → s.count < max_connections
    → ((network_accept (some i) s).0 ≡ some i.client_fd)
      × ((network_accept (some i) s).1.slots s.count ≡ i.conn)
      × ((network_accept (some i) s).1.count ≡ s.count + 1)
      × ((network_accept (some i) s).1.heap i.conn ≡ new_connection i.client_fd i.buffer)
      × Holds (network_accept (some i) s).1 i.conn
unfolding network_accept
network_accept_registers i s f room = (
  ground arith,
  ground arith,
  ground arith,
  ground arith,
  record {
    real = f.conn_real;
    buffer_real = ground arith;
    alive = ground arith;
    buffer_alive = ground arith;
    apart = ground arith;
  },
)

-- With a full table the descriptor is closed again, both allocations are given back, and no fault
-- occurs.
network_accept_full :
    (i : Incoming) (s : Network)
    → IsFresh s i
    → max_connections ≤ s.count
    → ((network_accept (some i) s).0 ≡ none)
      × ((network_accept (some i) s).1.is_open i.client_fd ≡ false)
      × ((q : Ptr) → (network_accept (some i) s).1.live q ≡ s.live q)
      × ((network_accept (some i) s).1.faults ≡ s.faults)
unfolding network_accept
network_accept_full i s f full = (ground arith, ground arith, (λ q. ground arith), ground arith)

-- What the server does to the table in any order.
pub data Event : Type 0 where
  accepts : Option Incoming → Event
  closes : Build → Bool → Ptr → Event

abbrev pub step : Event → Network → Network
step (accepts i) s = (network_accept i s).1
step (closes b shut p) s = conn_close b shut p s

abbrev pub run : List Event → Network → Network
run [] s = s
run (e ∷ es) s = run es (step e s)

conn_close-count :
    (b : Build) (shut : Bool) (p : Ptr) (s : Network) → (conn_close b shut p s).count ≡ s.count
unfolding conn_close
conn_close-count vulnerable shut p s = ground arith
conn_close-count fixed shut p s = ground arith

accept-count :
    (i : Option Incoming) (s : Network)
    → max_connections ≤ s.count
    → ((network_accept i s).0 ≡ none) × (max_connections ≤ (network_accept i s).1.count)
unfolding network_accept
accept-count none s full = (refl, full)
accept-count (some i) s full = (ground arith, ground arith)

run-count :
    (es : List Event) (s : Network) → max_connections ≤ s.count → max_connections ≤ (run es s).count
run-count [] s full = full
run-count (accepts i ∷ es) s full = run-count es _ (accept-count i s full).1
run-count (closes b shut p ∷ es) s full =
    run-count es _ (omega (arith, conn_close-count b shut p s))

-- Once the table is full no connection is ever accepted again, whatever connections are closed in the
-- meantime: a close does not give its slot back.
pub network_accept_exhausted :
    (es : List Event) (i : Option Incoming) (s : Network)
    → max_connections ≤ s.count
    → (network_accept i (run es s)).0 ≡ none
network_accept_exhausted es i s full = (accept-count i (run es s) (run-count es s full)).0
