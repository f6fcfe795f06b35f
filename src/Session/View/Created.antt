-- ===== src/Session/View/Created.antt =====
-- What `session_create` does to the view.
use secure_ci_coding.Base.{
  ℕ, ◌<◌, ◌≡◌, ◌≢◌, ◌⊎◌, inl, inr, refl, sym, ap, subst, ◌∙◌, arith, false, Bool-cases, none, some,
  ◌==◌, if◌then◌else◌,
}
use secure_ci_coding.Common.{Build, Role, ℤ, max_connections, session_token_len}
use secure_ci_coding.Session.{
  Ptr, null, Session, Sessions, Environment, new_session, generate_session_id, token_random,
  session_create,
}
use secure_ci_coding.Session.Token.{generate_token, window}
use secure_ci_coding.Session.Invariant.{Inv, Has}
use secure_ci_coding.Session.Create.{session_create-Inv, session_create_registers}
use secure_ci_coding.Session.View.{view, Live, Unique, view_cases, view-Live, view-none}
use secure_ci_coding.Session.View.Steps.{add}

abbrev pub id_of : Build → Environment → ℕ
id_of b e = generate_session_id b e.urandom_id e.time e.pid (e.rand 0)

-- The session that a successful `session_create` stores.
abbrev pub created : Build → Environment → ℤ → Role → Session
created b e user_id role =
    new_session (id_of b e) user_id role
      (window session_token_len 0 (generate_token b (token_random b e)).at) e.time

-- There is memory and a free slot, and no session is active under the id that is drawn.
abbrev pub HasRoom : Build → Environment → Sessions → Type 0
HasRoom b e s =
    (s.live e.fresh ≡ false)
    × (e.fresh ≢ null)
    × (s.count < max_connections)
    × (view s (id_of b e) ≡ none)

module _ (b : Build) (e : Environment) (user_id : ℤ) (role : Role) (s : Sessions) (v : Inv s)
    (u : Unique s) (ok : HasRoom b e s) where
  abbrev after : Sessions
  after = (session_create b e user_id role s).2

  fresh_unused : ¬ Has s e.fresh
  fresh_unused (k, h, at) = ground (arith, v.alive k h, ok.0, at)

  new_contents :
      (q : Ptr) → after.heap q ≡ (if q == e.fresh then created b e user_id role else s.heap q)
  unfolding session_create
  new_contents q =
      let (id, _, heap) = session_create_registers b e user_id role s v ok.0 ok.1 ok.2 in
      heap q
      ∙ ap
          (λ sid.
            if q == e.fresh
            then new_session sid user_id role
                (window session_token_len 0 (generate_token b (token_random b e)).at) e.time
            else s.heap q)
          id

  contents_new : after.heap e.fresh ≡ created b e user_id role
  contents_new = ground (arith, new_contents e.fresh)

  contents_old : (q : Ptr) → q ≢ e.fresh → after.heap q ≡ s.heap q
  contents_old q other = ground (arith, new_contents q)

  Live-after : (i : ℕ) (q : Ptr) → Live after i q → ((q ≡ e.fresh) × (i ≡ id_of b e)) ⊎ Live s i q
  Live-after i q (has, id, active) =
      let (_, keeps, _) = session_create_registers b e user_id role s v ok.0 ok.1 ok.2 in
      elim ((keeps q).0 has) [
        | inl old ↦
            let other : q ≢ e.fresh = λ at. fresh_unused (subst (Has s) at old) in
            let same = contents_old q other in
            inr (
              old,
              ap (λ (x : Session). x.session_id) (sym same) ∙ id,
              ap (λ (x : Session). x.active) (sym same) ∙ active,
            )
        | inr at ↦ inl (
          at,
          sym id
              ∙ ap (λ r. (after.heap r).session_id) at
              ∙ ap (λ (x : Session). x.session_id) contents_new,
        )
      ]

  Live-kept : (i : ℕ) (q : Ptr) → Live s i q → Live after i q
  Live-kept i q (has, id, active) =
      let (_, keeps, _) = session_create_registers b e user_id role s v ok.0 ok.1 ok.2 in
      let same = contents_old q (λ at. fresh_unused (subst (Has s) at has)) in
      (
        (keeps q).1 (inl has),
        ap (λ (x : Session). x.session_id) same ∙ id,
        ap (λ (x : Session). x.active) same ∙ active,
      )

  Live-new : Live after (id_of b e) e.fresh
  Live-new =
      let (_, keeps, _) = session_create_registers b e user_id role s v ok.0 ok.1 ok.2 in
      (
        (keeps e.fresh).1 (inr refl),
        ap (λ (x : Session). x.session_id) contents_new,
        ap (λ (x : Session). x.active) contents_new,
      )

  not_Live : (q : Ptr) → ¬ Live s (id_of b e) q
  not_Live q l =
      let clash : some (s.heap q) ≡ none = sym (view-Live s (id_of b e) q v u l) ∙ ok.3 in
      ground (arith, clash)

  pub create-Unique : Unique after
  create-Unique i p q l l' = elim (Live-after i p l) [
    | inl (at, id) ↦ elim (Live-after i q l') [
      | inl (at', _) ↦ at ∙ sym at'
      | inr old ↦ absurd (not_Live q (subst (λ j. Live s j q) id old))
    ]
    | inr old ↦ elim (Live-after i q l') [
      | inl (_, id) ↦ absurd (not_Live p (subst (λ j. Live s j p) id old))
      | inr old' ↦ u i p q old old'
    ]
  ]

  pub create-view : (i : ℕ) → view after i ≡ add (id_of b e) (created b e user_id role) (view s) i
  unfolding add
  create-view i =
      let v' = session_create-Inv b e user_id role s v (inr ok.0) in
      elim (Bool-cases (i == id_of b e)) [
        | inl here ↦
            let at : i ≡ id_of b e = ground arith in
            ap (view after) at
            ∙ view-Live after (id_of b e) e.fresh v' create-Unique Live-new
            ∙ ap some contents_new
            ∙ ap (λ c. if c then some (created b e user_id role) else view s i) (sym here)
        | inr away ↦
            elim (view_cases s i v) [
              | inl (n, out) ↦
                  view-none after i v' (λ q l. elim (Live-after i q l) [
                    | inl (_, id) ↦ ground (arith, id, away)
                    | inr old ↦ out q old
                  ])
                  ∙ sym n
              | inr (q, l, n) ↦
                  view-Live after i q v' create-Unique (Live-kept i q l)
                  ∙ ap some (contents_old q (λ at. fresh_unused (subst (Has s) at l.0)))
                  ∙ sym n
            ]
            ∙ ap (λ c. if c then some (created b e user_id role) else view s i) (sym away)
      ]
