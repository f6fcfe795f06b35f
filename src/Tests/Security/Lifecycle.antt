-- ===== src/Tests/Security/Lifecycle.antt =====
-- The life of one session in tests/test_security.c: created, found, validated, destroyed, and not found again.
use secure_ci_coding.Base.{
  ℕ, ◌+◌, ◌<◌, ◌≤◌, ◌≡◌, ◌≢◌, refl, sym, ap, ◌∙◌, inr, arith, true, false, not, Option, [], ◌∷◌,
  leb, ◌==◌,
}
use secure_ci_coding.Common.{
  Build, vulnerable, fixed, user, pos, max_connections, session_timeout_sec,
}
use secure_ci_coding.Session.{
  Ptr, null, Sessions, Environment, generate_session_id, session_create, session_lookup,
  session_validate, session_destroy,
}
use secure_ci_coding.Session.Invariant.{Inv}
use secure_ci_coding.Session.Lookup.{ActiveUnder}
use secure_ci_coding.Session.Create.{session_create-Inv, session_create_registers}
use secure_ci_coding.Session.Opened.{only_new, session_lookup-session_create}
use secure_ci_coding.Session.Destroy.{session_lookup-session_destroy}
use secure_ci_coding.Dispatch.Gate.{validate_registered}
use secure_ci_coding.Tests.Security.{
  address, check_gone, check_valid, check_found, test_session_validation_after_destroy,
}

module _ (b : Build) (e : Environment) (now : ℕ) (s : Sessions) (v : Inv s)
    (dead : s.live e.fresh ≡ false) (real : e.fresh ≢ null) (room : s.count < max_connections)
    (unused : (j : ℕ)
      → j < s.count
      → ¬ ActiveUnder s (generate_session_id b e.urandom_id e.time e.pid (e.rand 0)) j)
    (early : now ≤ e.time + session_timeout_sec) where
  abbrev t : Sessions
  t = (session_create b e (pos 99) user s).2

  abbrev sid : ℕ
  sid = generate_session_id b e.urandom_id e.time e.pid (e.rand 0)

  in_order : Inv t
  in_order = session_create-Inv b e (pos 99) user s v (inr dead)

  -- Behind the destruction no lookup finds a session under the id.
  gone : (b' : Build) → b' ≡ b → check_gone b' sid (session_destroy b sid t) ≡ true ∷ []
  gone vulnerable same = refl
  gone fixed same =
      ap (λ (x : Option Ptr × Sessions). (address x.0 == null) ∷ [])
        (session_lookup-session_destroy b sid t in_order λ j k hj hk mj mk.
          in_order.distinct j k hj hk (
            only_new b e (pos 99) user s v dead real room unused j hj mj
            ∙ sym (only_new b e (pos 99) user s v dead real room unused k hk mk)))

  -- On a table in order with a free slot, with memory for a session and an id that no session is active under,
  -- the three checks pass in both builds: the session that was created is found, it is valid up to 1800 seconds
  -- later, and once destroyed it is not found again.
  pub test_session_validation_after_destroy_lem :
      test_session_validation_after_destroy b e now s ≡ true ∷ true ∷ true ∷ []
  unfolding test_session_validation_after_destroy
  test_session_validation_after_destroy_lem =
      let (k, h, at, m, expires, found) =
        session_lookup-session_create b e (pos 99) user s v dead real room unused in
      let id = (session_create_registers b e (pos 99) user s v dead real room).0 in
      let p = t.slots k in
      let nonzero : (p == null) ≡ false = rw at (ground arith) in
      let on_time : leb now (t.heap p).expires_at ≡ true = rw (at, expires) (ground arith) in
      ap (λ x. check_found b x now (session_lookup x t)) id
      ∙ ap (check_found b sid now) found
      ∙ ap (λ x. not x ∷ check_valid b sid (session_validate b p now t)) nonzero
      ∙ ap (λ x. true ∷ check_valid b sid x) (validate_registered b k now t in_order h m.1)
      ∙ ap (λ x. true ∷ x ∷ check_gone b sid (session_destroy b sid t)) on_time
      ∙ ap (λ x. true ∷ true ∷ x) (gone b refl)
