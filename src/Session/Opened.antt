-- ===== src/Session/Opened.antt =====
-- A session that was just created, as a lookup of its id sees it.
use secure_ci_coding.Base.{
  ℕ, ◌+◌, ◌<◌, ◌≡◌, ◌≢◌, ◌⊎◌, ◌↔◌, inl, inr, refl, sym, ap, ◌∙◌, arith, true, false, ◌==◌, some,
}
use secure_ci_coding.Common.{Build, ℤ, Role, max_connections, session_timeout_sec}
use secure_ci_coding.Session.{
  Ptr, null, Session, Sessions, Environment, session_create, generate_session_id, session_lookup,
}
use secure_ci_coding.Session.Invariant.{Inv, Has}
use secure_ci_coding.Session.Lookup.{ActiveUnder, session_lookup_finds}
use secure_ci_coding.Session.Create.{session_create-Inv, session_create_registers}

module _ (b : Build) (e : Environment) (user_id : ℤ) (role : Role) (s : Sessions) (v : Inv s)
    (dead : s.live e.fresh ≡ false) (real : e.fresh ≢ null) (room : s.count < max_connections) where
  abbrev after : Sessions
  after = (session_create b e user_id role s).2

  abbrev new_id : ℕ
  new_id = generate_session_id b e.urandom_id e.time e.pid (e.rand 0)

  -- What the new object holds.
  contents :
      ((after.heap e.fresh).session_id ≡ new_id)
      × ((after.heap e.fresh).active ≡ true)
      × ((after.heap e.fresh).expires_at ≡ e.time + session_timeout_sec)
  contents =
      let (id, has, heap) = session_create_registers b e user_id role s v dead real room in
      let here = heap e.fresh in
      let found : (e.fresh == e.fresh) ≡ true = ground arith in
      (
        ap (λ (x : Session). x.session_id) here ∙ rw found id,
        ap (λ (x : Session). x.active) here ∙ (rw found),
        ap (λ (x : Session). x.expires_at) here ∙ (rw found),
      )

  -- An object that was registered before keeps its contents.
  old_contents : (j : ℕ) → j < s.count → after.heap (s.slots j) ≡ s.heap (s.slots j)
  old_contents j h =
      let (id, has, heap) = session_create_registers b e user_id role s v dead real room in
      let apart : (s.slots j == e.fresh) ≡ false = ground (arith, v.alive j) in
      heap (s.slots j) ∙ (rw apart)

  -- Under an id that no registered session was active under, only the new session is active.
  pub only_new :
      ((j : ℕ) → j < s.count → ¬ ActiveUnder s new_id j)
      → (k : ℕ) → k < after.count
      → ActiveUnder after new_id k
      → after.slots k ≡ e.fresh
  only_new unused k h m =
      let (id, has, heap) = session_create_registers b e user_id role s v dead real room in
      elim ((has (after.slots k)).0 (k, h, refl)) [
        | inr at ↦ at
        | inl (j, hj, at) ↦
            let same : after.heap (after.slots k) ≡ s.heap (s.slots j) =
              ap after.heap (sym at) ∙ old_contents j hj in
            absurd (
              unused j hj (
                ap (λ (x : Session). x.session_id) (sym same) ∙ m.0,
                ap (λ (x : Session). x.active) (sym same) ∙ m.1,
              ))
      ]

-- A session that was created under an id that no registered session is active under is what a lookup
-- of its id finds; it is active and expires 1800 seconds after its creation. The table was in
-- order and had a free slot, and there was memory.
pub session_lookup-session_create :
    (b : Build) (e : Environment) (user_id : ℤ) (role : Role) (s : Sessions)
    → Inv s
    → s.live e.fresh ≡ false
    → e.fresh ≢ null
    → s.count < max_connections
    → ((j : ℕ)
        → j < s.count
        → ¬ ActiveUnder s (generate_session_id b e.urandom_id e.time e.pid (e.rand 0)) j)
    → (k : ℕ) × (k < (session_create b e user_id role s).2.count)
      × ((session_create b e user_id role s).2.slots k ≡ e.fresh)
      × ActiveUnder
          (session_create b e user_id role s).2
          (generate_session_id b e.urandom_id e.time e.pid (e.rand 0))
          k
      × (((session_create b e user_id role s).2.heap e.fresh).expires_at
          ≡ e.time + session_timeout_sec)
      × (session_lookup
            (generate_session_id b e.urandom_id e.time e.pid (e.rand 0))
            (session_create b e user_id role s).2
          ≡ (
            some ((session_create b e user_id role s).2.slots k),
            (session_create b e user_id role s).2,
          ))
session_lookup-session_create b e user_id role s v dead real room unused =
    elim (session_lookup_finds sid t (session_create-Inv b e user_id role s v (inr dead))) [
      | inl (_, out) ↦
          let (k, h, at) = (has e.fresh).1 (inr refl) in absurd (out k h (holds.0 k at))
      | inr (k, h, m, first, found) ↦
          (k, h, only_new b e user_id role s v dead real room unused k h m, m, holds.1, found)
    ]
  where
    t : Sessions
    t = (session_create b e user_id role s).2

    sid : ℕ
    sid = generate_session_id b e.urandom_id e.time e.pid (e.rand 0)

    has : (q : Ptr) → Has t q ↔ (Has s q ⊎ (q ≡ e.fresh))
    has = (session_create_registers b e user_id role s v dead real room).1

    holds :
        ((k : ℕ) → t.slots k ≡ e.fresh → ActiveUnder t sid k)
        × ((t.heap e.fresh).expires_at ≡ e.time + session_timeout_sec)
    holds =
        let (id, active, expiry) = contents b e user_id role s v dead real room in
        (
          λ k at.
              (ap (λ p. (t.heap p).session_id) at ∙ id, ap (λ p. (t.heap p).active) at ∙ active),
          expiry,
        )
