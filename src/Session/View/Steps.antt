-- ===== src/Session/View/Steps.antt =====
-- What `session_create`, `session_destroy` and `session_cleanup_expired` do to the view.
use secure_ci_coding.Base.{
  ℕ, ◌<◌, ◌≡◌, inl, inr, refl, sym, ap, subst, ◌∙◌, arith, Bool-cases, Option, none, some, ◌==◌,
  ltb, if◌then◌else◌,
}
use secure_ci_coding.Common.{Build}
use secure_ci_coding.Session.{
  Ptr, Session, Sessions, session_destroy, session_destroy_by_ptr, session_cleanup_expired,
}
use secure_ci_coding.Session.Invariant.{Inv, Has}
use secure_ci_coding.Session.Destroy.{
  session_destroy_by_ptr_removes, session_destroy_cases, destroy-heap,
}
use secure_ci_coding.Session.Cleanup.{session_cleanup_expired_keeps, cleanup-heap}
use secure_ci_coding.Session.View.{
  Table, view, Live, Unique, view_cases, view-Live, view-none, Within, Live-Within, Unique-Within,
  view-Within,
}

unfoldable pub add : ℕ → Session → Table → Table
add sid x f i = if i == sid then some x else f i

unfoldable pub remove : ℕ → Table → Table
remove sid f i = if i == sid then none else f i

abbrev pub unexpired : ℕ → Option Session → Option Session
unexpired now none = none
unexpired now (some x) = if ltb now x.expires_at then some x else none

unfoldable pub expire : ℕ → Table → Table
expire now f i = unexpired now (f i)

cleanup-Within : (now : ℕ) (s : Sessions) → Inv s → Within (session_cleanup_expired now s) s
cleanup-Within now s v p has =
    let (_, keeps, _) = session_cleanup_expired_keeps now s v in
    (((keeps p).0 has).0, ap (λ heap. heap p) (cleanup-heap now s v))

pub cleanup-Unique :
    (now : ℕ) (s : Sessions) → Inv s → Unique s → Unique (session_cleanup_expired now s)
cleanup-Unique now s v u =
    Unique-Within (session_cleanup_expired now s) s (cleanup-Within now s v) u

pub cleanup-view :
    (now : ℕ) (s : Sessions)
    → Inv s
    → Unique s
    → (i : ℕ) → view (session_cleanup_expired now s) i ≡ expire now (view s) i
unfolding expire
cleanup-view now s v u i =
    let t = session_cleanup_expired now s in
    let (v', keeps, _) = session_cleanup_expired_keeps now s v in
    let w = cleanup-Within now s v in
    elim (view_cases s i v) [
      | inl (e, out) ↦
          view-none t i v' (λ p l. out p (Live-Within t s i p w l)) ∙ ap (unexpired now) (sym e)
      | inr (p, l, e) ↦ elim (Bool-cases (ltb now (s.heap p).expires_at)) [
        | inl later ↦
            let has : Has t p = (keeps p).1 (l.0, l.2, ground arith) in
            view-Live t i p v' (Unique-Within t s w u) (
              has,
              ap (λ (x : Session). x.session_id) (w p has).1 ∙ l.1,
              ap (λ (x : Session). x.active) (w p has).1 ∙ l.2,
            )
            ∙ ap some (w p has).1
            ∙ ap (λ c. if c then some (s.heap p) else none) (sym later)
            ∙ ap (unexpired now) (sym e)
        | inr over ↦
            view-none t i v' (λ q l'.
              let same : q ≡ p = u i q p (Live-Within t s i q w l') l in
              let early : now < (s.heap q).expires_at = ((keeps q).0 l'.0).2 in
              ground (arith, same, early, over))
            ∙ ap (λ c. if c then some (s.heap p) else none) (sym over)
            ∙ ap (unexpired now) (sym e)
      ]
    ]

module _ (b : Build) (sid : ℕ) (s : Sessions) (v : Inv s) (u : Unique s) where
  destroy-Within : (p : Ptr) → Has s p → Within (session_destroy_by_ptr b p s) s
  destroy-Within p has q has' =
      let (_, keeps, _, _) = session_destroy_by_ptr_removes b p s v has in
      let (old, other) = (keeps q).0 has' in (old, destroy-heap b p s q v has other)

  pub destroy-Unique : Unique (session_destroy b sid s)
  destroy-Unique = elim (session_destroy_cases b sid s v) [
    | inl (e, _) ↦ subst Unique (sym e) u
    | inr (k, h, _, e) ↦ subst Unique (sym e) (
        Unique-Within (session_destroy_by_ptr b (s.slots k) s) s
          (destroy-Within (s.slots k) (k, h, refl)) u)
  ]

  -- One session is taken out.
  removed :
      (p : Ptr)
      → Live s sid p
      → (i : ℕ) → view (session_destroy_by_ptr b p s) i ≡ remove sid (view s) i
  unfolding remove
  removed p l i =
      let t = session_destroy_by_ptr b p s in
      let (v', keeps, _, _) = session_destroy_by_ptr_removes b p s v l.0 in
      let w = destroy-Within p l.0 in
      elim (Bool-cases (i == sid)) [
        | inl here ↦
            let at : i ≡ sid = ground arith in
            view-none t i v' (λ q l'.
              ((keeps q).0 l'.0).1
                (u sid q p (subst (λ j. Live s j q) at (Live-Within t s i q w l')) l))
            ∙ ap (λ c. if c then none else view s i) (sym here)
        | inr away ↦
            view-Within t s i v' v u w (λ q l'.
              (keeps q).1
                (l'.0, λ e. ground (arith, away, l'.1, l.1, ap (λ r. (s.heap r).session_id) e)))
            ∙ ap (λ c. if c then none else view s i) (sym away)
      ]

  pub destroy-view : (i : ℕ) → view (session_destroy b sid s) i ≡ remove sid (view s) i
  unfolding remove
  destroy-view i = elim (session_destroy_cases b sid s v) [
    | inl (e, out) ↦ ap (λ t. view t i) e ∙ elim (Bool-cases (i == sid)) [
      | inl here ↦
          let at : i ≡ sid = ground arith in
          view-none s i v (λ p ((k, h, at_k), id, active). out k h (
            ap (λ q. (s.heap q).session_id) at_k ∙ id ∙ at,
            ap (λ q. (s.heap q).active) at_k ∙ active,
          ))
          ∙ ap (λ c. if c then none else view s i) (sym here)
      | inr away ↦ ap (λ c. if c then none else view s i) (sym away)
    ]
    | inr (k, h, m, e) ↦ ap (λ t. view t i) e ∙ removed (s.slots k) ((k, h, refl), m.0, m.1) i
  ]
