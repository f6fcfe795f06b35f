-- ===== src/Session/Create.antt =====
-- `session_create`: a free slot, a full table, and no memory.
use secure_ci_coding.Base.{
  ℕ, ◌≤◌, ◌<◌, ◌≡◌, ◌≢◌, sym, ◌∙◌, ap, ◌⊎◌, ◌↔◌, inl, inr, false, arith, Bool-cases, ◌==◌, Bytes,
  if◌then◌else◌,
}
use secure_ci_coding.Common.{Build, ℤ, Role, max_connections, session_token_len}
use secure_ci_coding.Session.{
  Ptr, null, Sessions, store_session, new_session, Environment, session_create, generate_session_id,
}
use secure_ci_coding.Session.Token.{window}
use secure_ci_coding.Session.Invariant.{Inv, Has, IsFree}

module _ (sid : ℕ) (user_id : ℤ) (role : Role) (token : Bytes) (p : Ptr) (now : ℕ) (s : Sessions)
    (v : Inv s) where
  -- An address that `calloc` may return: NULL, or one that is not in use.
  not_registered : s.live p ≡ false → (k : ℕ) → k < s.count → s.slots k ≢ p
  not_registered dead k h e = ground (arith, v.alive k)

  store_session-Inv : s.live p ≡ false → Inv (store_session sid user_id role token p now s).1
  unfolding store_session
  store_session-Inv dead = record {
    bounded = ground (arith, v.bounded);
    alive = λ k h. ground (arith, v.alive k, not_registered dead k);
    cleared = λ k h. ground (arith, v.cleared k);
    distinct =
        λ j k hj hk e. ground (arith, v.distinct j k, not_registered dead j, not_registered dead k);
  }

  store_session_registers :
      s.live p ≡ false
      → p ≢ null
      → s.count < max_connections
      → ((store_session sid user_id role token p now s).0 ≡ sid)
        × ((q : Ptr) → Has (store_session sid user_id role token p now s).1 q ↔ (Has s q ⊎ (q ≡ p)))
        × ((q : Ptr)
            → (store_session sid user_id role token p now s).1.heap q
              ≡ (if q == p then new_session sid user_id role token now else s.heap q))
  unfolding store_session
  store_session_registers dead real room = (
    ground arith,
    λ q. (
      λ (k, h, e). elim (Bool-cases (k == s.count)) [
        | inl new ↦ inr (ground arith)
        | inr old ↦ inl (k, ground arith, ground arith)
      ],
      elim [
        | inl (k, h, e) ↦ (k, ground arith, ground arith)
        | inr e ↦ (s.count, ground arith, ground arith)
      ],
    ),
    λ q. ground arith,
  )

  store_session_full :
      s.live p ≡ false
      → max_connections ≤ s.count
      → ((store_session sid user_id role token p now s).0 ≡ 0)
        × ((q : Ptr) → Has (store_session sid user_id role token p now s).1 q ↔ Has s q)
        × ((q : Ptr) → (store_session sid user_id role token p now s).1.live q ≡ s.live q)
  unfolding store_session
  store_session_full dead full = (
    ground arith,
    λ q. (
      λ (k, h, e). (k, ground arith, ground arith),
      λ (k, h, e). (k, ground arith, ground arith),
    ),
    λ q. ground arith,
  )

-- Creating a session keeps the table in order, whether it finds a free slot, a full table or no
-- memory; the allocator returns NULL or an address that is not in use.
pub session_create-Inv :
    (b : Build) (e : Environment) (user_id : ℤ) (role : Role) (s : Sessions)
    → Inv s
    → IsFree s e.fresh
    → Inv (session_create b e user_id role s).2
unfolding session_create store_session
session_create-Inv b e user_id role s v (inl failed) = rw failed v
session_create-Inv b e user_id role s v (inr dead) =
    store_session-Inv _ user_id role _ e.fresh e.time s v dead

-- On a table in order, with memory and a free slot, the call returns the generated id and registers one session beside the
-- others: of the given user and role, active, and valid for 1800 seconds. The other sessions
-- keep their contents.
pub session_create_registers :
    (b : Build) (e : Environment) (user_id : ℤ) (role : Role) (s : Sessions)
    → Inv s
    → s.live e.fresh ≡ false
    → e.fresh ≢ null
    → s.count < max_connections
    → ((session_create b e user_id role s).0
        ≡ generate_session_id b e.urandom_id e.time e.pid (e.rand 0))
      × ((q : Ptr) → Has (session_create b e user_id role s).2 q ↔ (Has s q ⊎ (q ≡ e.fresh)))
      × ((q : Ptr)
          → (session_create b e user_id role s).2.heap q ≡ (
              if q == e.fresh
              then new_session
                  (session_create b e user_id role s).0
                  user_id
                  role
                  (window session_token_len 0 (session_create b e user_id role s).1.at)
                  e.time
              else s.heap q))
unfolding session_create
session_create_registers b e user_id role s v dead real room =
    let (id, has, heap) =
      store_session_registers _ user_id role _ e.fresh e.time s v dead real room in
    (
      id,
      has,
      λ q.
          heap q
          ∙ ap
              (λ sid.
                if q == e.fresh
                then new_session sid user_id role
                    (window session_token_len 0 (session_create b e user_id role s).1.at) e.time
                else s.heap q)
              (sym id),
    )

-- With a full table the call returns 0, no session is registered or lost, and the memory that it took
-- is given back.
pub session_create_full :
    (b : Build) (e : Environment) (user_id : ℤ) (role : Role) (s : Sessions)
    → Inv s
    → s.live e.fresh ≡ false
    → max_connections ≤ s.count
    → ((session_create b e user_id role s).0 ≡ 0)
      × ((q : Ptr) → Has (session_create b e user_id role s).2 q ↔ Has s q)
      × ((q : Ptr) → (session_create b e user_id role s).2.live q ≡ s.live q)
unfolding session_create
session_create_full b e user_id role s v dead full =
    store_session_full _ user_id role _ e.fresh e.time s v dead full
