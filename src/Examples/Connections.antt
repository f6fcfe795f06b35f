-- ===== src/Examples/Connections.antt =====
-- Connections as src/network.c keeps them.
use secure_ci_coding.Base.{◌≡◌, refl, arith, true, ◌||◌, some, none, [], ◌∷◌, ◌==◌, if◌then◌else◌}
use secure_ci_coding.Common.{fixed, double_free, use_after_free}
use secure_ci_coding.Session.{Ptr}
use secure_ci_coding.Network.{Network, Connection, Incoming, conn_close, network_accept}
use secure_ci_coding.Network.Close.{Holds, conn_close_twice}
use secure_ci_coding.Network.Accept.{accepts, closes, run, network_accept_exhausted}

-- One connection at 10 with its buffer at 20, on descriptor 4, with a session attached.
abbrev connection_at : Ptr → Connection
connection_at p = record { fd = some 4; buffer = 20; buf_size = 4096; buf_used = 0; session = 30 }

abbrev one_connection : Network
one_connection = record {
  heap = connection_at;
  live = λ p. p == 10 || p == 20;
  is_open = λ fd. fd == 4;
  slots = λ i. if i == 0 then 10 else 0;
  count = 1;
  faults = [];
}

one-Holds : Holds one_connection 10
one-Holds = record {
  real = omega arith;
  buffer_real = omega arith;
  alive = refl;
  buffer_alive = refl;
  apart = omega arith;
}

-- The same with the counter at its limit.
abbrev full_table : Network
full_table = record one_connection { count = 32 }

abbrev visitor : Incoming
visitor = record { client_fd = 7; conn = 40; buffer = 41 }

conn_close_twice_example :
    ((conn_close fixed true 10 one_connection).slots 0 ≡ 10)
    × ((conn_close fixed true 10 (conn_close fixed true 10 one_connection)).faults
        ≡ double_free ∷ use_after_free ∷ [])
conn_close_twice_example = conn_close_twice true true 0 one_connection one-Holds

network_accept_exhausted_example :
    (network_accept (some visitor) (run (closes fixed true 10 ∷ accepts none ∷ []) full_table)).0
    ≡ none
network_accept_exhausted_example =
    network_accept_exhausted (closes fixed true 10 ∷ accepts none ∷ []) (some visitor) full_table
      (omega arith)
