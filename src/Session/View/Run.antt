-- ===== src/Session/View/Run.antt =====
-- Sequences of operations on the table of sessions, and the same operations on the view.
use secure_ci_coding.Base.{
  ℕ, ◌≡◌, inr, refl, ap, ◌∙◌, none, some, ◌==◌, if◌then◌else◌, List, [], ◌∷◌,
}
use secure_ci_coding.Common.{Build, Role, ℤ}
use secure_ci_coding.Session.{
  Sessions, Environment, session_create, session_destroy, session_cleanup_expired,
}
use secure_ci_coding.Session.Invariant.{Inv}
use secure_ci_coding.Session.Create.{session_create-Inv}
use secure_ci_coding.Session.Destroy.{session_destroy-Inv}
use secure_ci_coding.Session.Cleanup.{session_cleanup_expired_keeps}
use secure_ci_coding.Session.View.{Table, view, Unique}
use secure_ci_coding.Session.View.Created.{id_of, created, HasRoom, create-Unique, create-view}
use secure_ci_coding.Session.View.Steps.{
  add, remove, expire, unexpired, cleanup-Unique, cleanup-view, destroy-Unique, destroy-view,
}

pub data Op : Type 0 where
  creates : Environment → ℤ → Role → Op
  destroys : ℕ → Op
  cleans : ℕ → Op

abbrev pub perform : Build → Op → Sessions → Sessions
perform b (creates e user_id role) s = (session_create b e user_id role s).2
perform b (destroys sid) s = session_destroy b sid s
perform b (cleans now) s = session_cleanup_expired now s

abbrev replay_one : Build → Op → Table → Table
replay_one b (creates e user_id role) f = add (id_of b e) (created b e user_id role) f
replay_one b (destroys sid) f = remove sid f
replay_one b (cleans now) f = expire now f

unfoldable pub run : Build → List Op → Sessions → Sessions
run b [] s = s
run b (op ∷ ops) s = run b ops (perform b op s)

unfoldable pub replay : Build → List Op → Table → Table
replay b [] f = f
replay b (op ∷ ops) f = replay b ops (replay_one b op f)

abbrev AllowedOne : Build → Op → Sessions → Type 0
AllowedOne b (creates e user_id role) s = HasRoom b e s
AllowedOne b (destroys sid) s = Unit
AllowedOne b (cleans now) s = Unit

unfoldable pub Allowed : Build → List Op → Sessions → Type 0
Allowed b [] s = Unit
Allowed b (op ∷ ops) s = AllowedOne b op s × Allowed b ops (perform b op s)

-- One operation.
perform_refines :
    (b : Build) (op : Op) (s : Sessions)
    → Inv s
    → Unique s
    → AllowedOne b op s
    → Inv (perform b op s)
      × Unique (perform b op s)
      × ((i : ℕ) → view (perform b op s) i ≡ replay_one b op (view s) i)
perform_refines b (creates e user_id role) s v u ok = (
  session_create-Inv b e user_id role s v (inr ok.0),
  create-Unique b e user_id role s v u ok,
  create-view b e user_id role s v u ok,
)
perform_refines b (destroys sid) s v u ok =
    (session_destroy-Inv b sid s v, destroy-Unique b sid s v u, destroy-view b sid s v u)
perform_refines b (cleans now) s v u ok =
    ((session_cleanup_expired_keeps now s v).0, cleanup-Unique now s v u, cleanup-view now s v u)

-- The abstract operations respect pointwise equality.
replay_one_cong :
    (b : Build) (op : Op) (f g : Table)
    → ((i : ℕ) → f i ≡ g i)
    → (i : ℕ) → replay_one b op f i ≡ replay_one b op g i
unfolding add remove expire
replay_one_cong b (creates e user_id role) f g same i =
    ap (λ x. if i == id_of b e then some (created b e user_id role) else x) (same i)
replay_one_cong b (destroys sid) f g same i = ap (λ x. if i == sid then none else x) (same i)
replay_one_cong b (cleans now) f g same i = ap (unexpired now) (same i)

replay_cong :
    (b : Build) (ops : List Op) (f g : Table)
    → ((i : ℕ) → f i ≡ g i)
    → (i : ℕ) → replay b ops f i ≡ replay b ops g i
unfolding replay
replay_cong b [] f g same i = same i
replay_cong b (op ∷ ops) f g same i = replay_cong b ops _ _ (replay_one_cong b op f g same) i

-- The table of sessions refines a partial function from ids to sessions. In either build, from a
-- table in order with at most one session active under each id, let any sequence of creations,
-- log-outs by id and clean-ups run, where each creation finds memory and a free slot and draws an id
-- that no active session has. Then a lookup under any id gives what the same sequence gives on the
-- partial function, where a creation sets one id, a log-out clears one id, and a clean-up clears the
-- ids whose session has expired; and the table is again in order with at most one session active
-- under each id.
pub run_refines :
    (b : Build) (ops : List Op) (s : Sessions)
    → Inv s
    → Unique s
    → Allowed b ops s
    → Inv (run b ops s)
      × Unique (run b ops s)
      × ((i : ℕ) → view (run b ops s) i ≡ replay b ops (view s) i)
unfolding run replay Allowed
run_refines b [] s v u ok = (v, u, λ i. refl)
run_refines b (op ∷ ops) s v u (now, later) =
    let (v', u', same) = perform_refines b op s v u now in
    let (end, unique, agrees) = run_refines b ops (perform b op s) v' u' later in
    (end, unique, λ i. agrees i ∙ replay_cong b ops _ _ same i)
