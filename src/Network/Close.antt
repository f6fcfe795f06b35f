-- ===== src/Network/Close.antt =====
-- `conn_close` in the two builds.
use secure_ci_coding.Base.{
  ℕ, ◌≡◌, ◌≢◌, ◌<◌, true, false, arith, some, Bool, ◌∷◌, if◌then◌else◌, ◌==◌,
}
use secure_ci_coding.Common.{vulnerable, fixed, double_free, use_after_free}
use secure_ci_coding.Session.{Ptr, null}
use secure_ci_coding.Network.{Network, conn_close}

-- A live connection with a live buffer of its own.
pub record Holds (s : Network) (p : Ptr) : Type 0 where
  pub real : p ≢ null
  pub buffer_real : (s.heap p).buffer ≢ null
  pub alive : s.live p ≡ true
  pub buffer_alive : s.live (s.heap p).buffer ≡ true
  pub apart : (s.heap p).buffer ≢ p

-- On a live connection with a live buffer of its own, the fixed build frees the two once each and
-- nothing else, and causes no fault.
conn_close_fixed_frees :
    (shut : Bool) (p : Ptr) (s : Network)
    → Holds s p
    → ((conn_close fixed shut p s).faults ≡ s.faults)
      × ((q : Ptr)
          → (conn_close fixed shut p s).live q
            ≡ (if q == p then false else if q == (s.heap p).buffer then false else s.live q))
unfolding conn_close
conn_close_fixed_frees shut p s h = (ground arith, λ q. ground arith)

-- On a live connection with a live buffer of its own, the vulnerable build frees the buffer twice, on
-- each of its paths: with and without a session, and whether or not the shutdown succeeds.
conn_close_vulnerable_double_free :
    (shut : Bool) (p : Ptr) (s : Network)
    → Holds s p
    → (conn_close vulnerable shut p s).faults ≡ double_free ∷ s.faults
unfolding conn_close
conn_close_vulnerable_double_free shut p s h = ground arith

-- Where a session is attached and the shutdown fails, the vulnerable build leaves the descriptor open;
-- the fixed build closes it.
conn_close_leaks_fd :
    (p : Ptr) (s : Network) (fd : ℕ)
    → Holds s p
    → (s.heap p).session ≢ null
    → (s.heap p).fd ≡ some fd
    → 0 < fd
    → s.is_open fd ≡ true
    → ((conn_close vulnerable false p s).is_open fd ≡ true)
      × ((conn_close fixed false p s).is_open fd ≡ false)
unfolding conn_close
conn_close_leaks_fd p s fd h attached is positive open_before = (ground arith, ground arith)

-- In the fixed build a connection that was live, with a live buffer of its own, before it was closed stays in the table, and closing it again, as the shutdown of
-- the server does with every slot that is not NULL, reads freed memory and frees it a second time.
pub conn_close_twice :
    (shut shut' : Bool) (i : ℕ) (s : Network)
    → Holds s (s.slots i)
    → ((conn_close fixed shut (s.slots i) s).slots i ≡ s.slots i)
      × ((conn_close fixed shut' (s.slots i) (conn_close fixed shut (s.slots i) s)).faults
          ≡ double_free ∷ use_after_free ∷ s.faults)
unfolding conn_close
conn_close_twice shut shut' i s h =
    let real : (s.slots i == null) ≡ false = ground (arith, h.real) in
    rw real (ground arith, ground arith)
