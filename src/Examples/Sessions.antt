-- ===== src/Examples/Sessions.antt =====
-- Tables of sessions as src/session.c builds them.
use secure_ci_coding.Base.{
  ℕ, ◌+◌, ◌≤◌, ◌≡◌, ◌≢◌, ◌↔◌, refl, sym, ◌∙◌, List, arith, true, false, ◌||◌, some, [], ◌∷◌, ◌==◌,
  if◌then◌else◌,
}
use secure_ci_coding.Common.{fixed, guest, pos, use_after_free}
use secure_ci_coding.Session.{
  Ptr, Session, Sessions, Environment, generate_session_id, session_lookup, lookup_loop,
  session_validate, session_destroy_by_ptr,
}
use secure_ci_coding.Session.Token.{Random}
use secure_ci_coding.Session.Invariant.{Inv, Has}
use secure_ci_coding.Session.Validate.{session_validate_sound}
use secure_ci_coding.Session.Destroy.{session_destroy_by_ptr_removes, session_destroy_by_ptr_faults}
use secure_ci_coding.Session.View.{Unique, view}
use secure_ci_coding.Session.View.Run.{
  Op, creates, destroys, cleans, Allowed, run, replay, run_refines,
}

-- Two sessions, at the addresses 10 and 11 and with these ids; the first expires at 500, the other at
-- 1500.
abbrev session_at : Ptr → Session
session_at p = record {
  session_id = p;
  user_id = pos 1;
  role = guest;
  token = [];
  created_at = 0;
  expires_at = if p == 10 then 500 else 1500;
  active = true;
}

abbrev two_sessions : Sessions
two_sessions = record {
  heap = session_at;
  live = λ p. p == 10 || p == 11;
  slots = λ i. if i == 0 then 10 else if i == 1 then 11 else 0;
  count = 2;
  faults = [];
}

two-Inv : Inv two_sessions
two-Inv = record {
  bounded = omega arith;
  alive = λ i h. (ground arith, ground arith);
  cleared = λ i h. ground arith;
  distinct = λ i j h k e. ground arith;
}

-- The calls of a server where `/dev/urandom` gives the id 77 and two bytes.
abbrev calls : Environment
calls = record {
  urandom_id = some (some 77);
  urandom_token = some (171 ∷ 205 ∷ []);
  rand = λ k. k;
  time = 1000;
  pid = 5;
  fresh = 40;
}

session_validate_sound_example :
    (((session_validate fixed 11 900 two_sessions).0 ≡ true)
      ↔ (Has two_sessions 11 × (true ≡ true) × (900 ≤ 1500)))
    × ((session_validate fixed 11 900 two_sessions).1 ≡ two_sessions)
session_validate_sound_example = session_validate_sound 11 900 two_sessions two-Inv

session_destroy_by_ptr_removes_example :
    Inv (session_destroy_by_ptr fixed 10 two_sessions)
    × ((q : Ptr)
        → Has (session_destroy_by_ptr fixed 10 two_sessions) q ↔ (Has two_sessions q × (q ≢ 10)))
    × ((q : Ptr)
        → (session_destroy_by_ptr fixed 10 two_sessions).live q
          ≡ (if q == 10 then false else two_sessions.live q))
    × ((session_destroy_by_ptr fixed 10 two_sessions).count + 1 ≡ 2)
session_destroy_by_ptr_removes_example =
    session_destroy_by_ptr_removes fixed 10 two_sessions two-Inv (0, omega arith, refl)

session_destroy_by_ptr_faults_example :
    (session_destroy_by_ptr fixed 10 two_sessions).faults ≡ use_after_free ∷ []
session_destroy_by_ptr_faults_example =
    session_destroy_by_ptr_faults fixed 10 two_sessions two-Inv (0, omega arith, refl)

abbrev some_random : Random
some_random = record { urandom = some (171 ∷ 205 ∷ []); rand = λ k. k }

two-Unique : Unique two_sessions
two-Unique sid p q l l' = l.1 ∙ sym l'.1

-- A session is created, session 11 is logged out, and the table is cleaned at 1000.
abbrev three_operations : List Op
three_operations = creates calls (pos 3) guest ∷ destroys 11 ∷ cleans 1000 ∷ []

three-Allowed : Allowed fixed three_operations two_sessions
unfolding Allowed view session_lookup lookup_loop generate_session_id
three-Allowed = ((refl, omega arith, omega arith, refl), (tt, (tt, tt)))

run_refines_example :
    Inv (run fixed three_operations two_sessions)
    × Unique (run fixed three_operations two_sessions)
    × ((i : ℕ)
        → view (run fixed three_operations two_sessions) i
          ≡ replay fixed three_operations (view two_sessions) i)
run_refines_example =
    run_refines fixed three_operations two_sessions two-Inv two-Unique three-Allowed
