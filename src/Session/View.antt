-- ===== src/Session/View.antt =====
-- The session table as its clients see it: a partial function from ids to sessions, where the order of
-- the slots and the addresses are forgotten; and what each operation does to it.
pub mod Steps
pub mod Created
pub mod Run
use secure_ci_coding.Base.{
  ℕ, zero, suc, ◌+◌, ◌<◌, ◌≤◌, ◌≡◌, ◌≢◌, ◌⊎◌, ◌↔◌, inl, inr, refl, sym, ap, subst, ◌∙◌, arith, Bool,
  true, false, Bool-cases, Option, none, some, some_eq, List, [], ◌∷◌, ◌==◌, ltb, if◌then◌else◌,
  not, ◌&&◌,
}
use secure_ci_coding.Common.{Build, Role, ℤ, max_connections, session_token_len}
use secure_ci_coding.Session.{
  Ptr, null, Session, Sessions, Environment, new_session, generate_session_id, token_random,
  session_create, session_lookup, session_destroy, session_destroy_by_ptr, cleanup_loop,
  session_cleanup_expired, release, remove_slot, touch_slot, is_stale,
}
use secure_ci_coding.Session.Token.{generate_token, window}
use secure_ci_coding.Session.Invariant.{Inv, Has}
use secure_ci_coding.Session.Lookup.{ActiveUnder, session_lookup_finds}
use secure_ci_coding.Session.Create.{session_create-Inv, session_create_registers}
use secure_ci_coding.Session.Destroy.{
  session_destroy_by_ptr_removes, session_destroy_cases, session_destroy-Inv, destroy-heap,
}
use secure_ci_coding.Session.Cleanup.{session_cleanup_expired_keeps}

abbrev pub Table : Type 0
Table = ℕ → Option Session

abbrev contents : Sessions → Option Ptr → Option Session
contents s none = none
contents s (some p) = some (s.heap p)

unfoldable pub view : Sessions → Table
view s sid = contents s (session_lookup sid s).0

-- `p` is registered and active under the id.
abbrev pub Live : Sessions → ℕ → Ptr → Type 0
Live s sid p = Has s p × ((s.heap p).session_id ≡ sid) × ((s.heap p).active ≡ true)

-- No two sessions are active under one id.
abbrev pub Unique : Sessions → Type 0
Unique s = (sid : ℕ) (p q : Ptr) → Live s sid p → Live s sid q → p ≡ q

pub view_cases :
    (s : Sessions) (sid : ℕ)
    → Inv s
    → ((view s sid ≡ none) × ((p : Ptr) → ¬ Live s sid p))
      ⊎ ((p : Ptr) × Live s sid p × (view s sid ≡ some (s.heap p)))
unfolding view
view_cases s sid v = elim (session_lookup_finds sid s v) [
  | inl (e, out) ↦ inl (
    ap (λ (r : Option Ptr × Sessions). contents s r.0) e,
    λ p ((k, h, at), id, active).
        out k h (ap (λ q. (s.heap q).session_id) at ∙ id, ap (λ q. (s.heap q).active) at ∙ active),
  )
  | inr (k, h, m, first, e) ↦
      inr
        (s.slots k, ((k, h, refl), m.0, m.1), ap (λ (r : Option Ptr × Sessions). contents s r.0) e)
]

pub view-Live :
    (s : Sessions) (sid : ℕ) (p : Ptr)
    → Inv s
    → Unique s
    → Live s sid p
    → view s sid ≡ some (s.heap p)
view-Live s sid p v u l = elim (view_cases s sid v) [
  | inl (e, out) ↦ absurd (out p l)
  | inr (q, l', e) ↦ e ∙ ap (λ r. some (s.heap r)) (u sid q p l' l)
]

pub view-none : (s : Sessions) (sid : ℕ) → Inv s → ((p : Ptr) → ¬ Live s sid p) → view s sid ≡ none
view-none s sid v out = elim (view_cases s sid v) [
  | inl (e, _) ↦ e
  | inr (p, l, e) ↦ absurd (out p l)
]

-- `t` holds no session that `s` does not hold, with the same contents.
abbrev pub Within : Sessions → Sessions → Type 0
Within t s = (p : Ptr) → Has t p → Has s p × (t.heap p ≡ s.heap p)

pub Live-Within : (t s : Sessions) (sid : ℕ) (p : Ptr) → Within t s → Live t sid p → Live s sid p
Live-Within t s sid p w (has, id, active) =
    let (old, same) = w p has in
    (
      old,
      ap (λ (x : Session). x.session_id) (sym same) ∙ id,
      ap (λ (x : Session). x.active) (sym same) ∙ active,
    )

pub Unique-Within : (t s : Sessions) → Within t s → Unique s → Unique t
Unique-Within t s w u sid p q l l' =
    u sid p q (Live-Within t s sid p w l) (Live-Within t s sid q w l')

-- Where a session of `s` is still held, the two views agree.
pub view-Within :
    (t s : Sessions) (sid : ℕ)
    → Inv t
    → Inv s
    → Unique s
    → Within t s
    → ((p : Ptr) → Live s sid p → Has t p)
    → view t sid ≡ view s sid
view-Within t s sid v v' u w held = elim (view_cases s sid v') [
  | inl (e, out) ↦ view-none t sid v (λ p l. out p (Live-Within t s sid p w l)) ∙ sym e
  | inr (p, l, e) ↦
      let has = held p l in
      let (_, same) = w p has in
      view-Live t sid p v (Unique-Within t s w u) (
        has,
        ap (λ (x : Session). x.session_id) same ∙ l.1,
        ap (λ (x : Session). x.active) same ∙ l.2,
      )
      ∙ ap some same
      ∙ sym e
]
