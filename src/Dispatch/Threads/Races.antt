-- ===== src/Dispatch/Threads/Races.antt =====
-- What another thread can do to a request between its sections.
use secure_ci_coding.Base.{
  ℕ, ◌+◌, ◌≤◌, ◌<◌, ◌≡◌, ◌≢◌, ◌⊎◌, refl, sym, ap, subst, ◌∙◌, inl, inr, arith, true, false,
  Bool-cases, ◌∷◌, Bytes, leb, ◌==◌, if◌then◌else◌,
}
use secure_ci_coding.Common.{
  Build, fixed, op_code, login, delete, backup, null_dereference, use_after_free,
}
use secure_ci_coding.Session.{Ptr, null, Session, Sessions, touch, session_destroy}
use secure_ci_coding.Session.Invariant.{Inv, Has}
use secure_ci_coding.Session.Lookup.{}
use secure_ci_coding.Session.Validate.{is_registered→Has}
use secure_ci_coding.Session.Destroy.{
  session_destroy_first, session_destroy-slots, session_destroy-Inv, session_destroy_by_ptr_removes,
  destroy-heap,
}
use secure_ci_coding.Server.{Request}
use secure_ci_coding.Dispatch.{switch, after_validate}
use secure_ci_coding.Dispatch.State.{Vault, Calls, Reply, with_sessions}
use secure_ci_coding.Dispatch.Handlers.{handle_delete, handle_backup}
use secure_ci_coding.Dispatch.Gate.{validate_registered}
use secure_ci_coding.Dispatch.Threads.{
  passes_search, invalid, expired, after_reads, after_search, validated, handle_among,
}
use secure_ci_coding.Dispatch.Threads.Quiet.{returned_same}
use secure_ci_coding.Dispatch.Threads.Windows.{
  behind_unlock, behind_lookup, behind_validate, IsFirst, reaches, passes,
}

-- Another thread's log-out by the id `sid`.
abbrev pub log_out : Build → ℕ → Vault → Vault
log_out b sid u = with_sessions (session_destroy b sid u.sessions) u

-- Two slots in use hold two objects.
other_object : (s : Sessions) (k : ℕ) → Inv s → k + 1 < s.count → s.slots (k + 1) ≢ s.slots k
other_object s k v next e =
    let same = v.distinct (k + 1) k next (omega arith) e in absurd (omega arith)

-- The session behind the one that is destroyed moves into its slot and is what it was.
moved :
    (b : Build) (sid k : ℕ) (s : Sessions)
    → Inv s
    → IsFirst s sid k
    → k + 1 < s.count
    → ((session_destroy b sid s).slots k ≡ s.slots (k + 1))
      × (k < (session_destroy b sid s).count)
      × ((session_destroy b sid s).heap (s.slots (k + 1)) ≡ s.heap (s.slots (k + 1)))
moved b sid k s v f next =
    let e = session_destroy_first b sid s k v f.used f.active f.first in
    let removed = session_destroy_by_ptr_removes b (s.slots k) s v (k, f.used, refl) in
    (
      session_destroy-slots b sid s k k v f.used f.active f.first ∙ ground arith,
      subst (λ (t : Sessions). k < t.count) (sym e) (omega (arith, removed.3)),
      ap (λ (t : Sessions). t.heap (s.slots (k + 1))) e
          ∙ destroy-heap b (s.slots k) s (s.slots (k + 1)) v (k, f.used, refl)
              (other_object s k v next),
    )

-- `session_lookup` gives up the mutex before it reads the slot that it found. In both builds, where another
-- thread's log-out of the same session falls between, on a table in order whose next slot holds an
-- active session that has not expired, a request other than a log-in runs with that other session: its
-- id is not compared again.
pub handle_among-confused :
    (pbkdf2 : Bytes → Bytes → Bytes) (b : Build) (c : Calls) (r : Request) (s : Vault) (k : ℕ)
    → Inv s.sessions
    → r.op ≢ op_code login
    → IsFirst s.sessions r.session_id k
    → k + 1 < s.sessions.count
    → (s.sessions.heap (s.sessions.slots (k + 1))).active ≡ true
    → c.now ≤ (s.sessions.heap (s.sessions.slots (k + 1))).expires_at
    → handle_among pbkdf2 b c (behind_unlock (log_out b r.session_id)) r s
      ≡ switch b c r (s.sessions.slots (k + 1)) (log_out b r.session_id s)
handle_among-confused pbkdf2 b c r s k v other f next active early =
    let o = behind_unlock (log_out b r.session_id) in
    let t = session_destroy b r.session_id s.sessions in
    let u = log_out b r.session_id s in
    let p = s.sessions.slots (k + 1) in
    let (at, used, same) = moved b r.session_id k s.sessions v f next in
    let kept : t.heap (t.slots k) ≡ s.sessions.heap p = ap t.heap at ∙ same in
    let real : (t.slots k == null) ≡ false = rw at (ground (arith, v.alive (k + 1) next)) in
    let on_time : leb c.now (t.heap (t.slots k)).expires_at ≡ true = rw kept (ground arith) in
    reaches pbkdf2 b c o r s k v other f
    ∙ returned_same b c r (t.slots k) u real
    ∙ ap (after_validate b c r (t.slots k) u) (
        validate_registered b k c.now t (session_destroy-Inv b r.session_id s.sessions v) used
          (ap (λ (x : Session). x.active) kept ∙ active))
    ∙ ap (λ x. after_validate b c r (t.slots k) u (x, t)) on_time
    ∙ ap (λ q. switch b c r q u) at

-- The fixed build closes the window in front of the search of `session_validate`: where the other thread takes
-- the session that was found out of the table, the request is refused as expired and does nothing more.
pub handle_among-refuses :
    (pbkdf2 : Bytes → Bytes → Bytes) (c : Calls) (w : Vault → Vault) (r : Request) (s : Vault)
    (k : ℕ)
    → Inv s.sessions
    → r.op ≢ op_code login
    → IsFirst s.sessions r.session_id k
    → ¬ Has (w s).sessions (s.sessions.slots k)
    → handle_among pbkdf2 fixed c (behind_lookup w) r s ≡ expired (w s)
handle_among-refuses pbkdf2 c w r s k v other f gone =
    let o = behind_lookup w in
    let p = s.sessions.slots k in
    let real : (p == null) ≡ false = ground (arith, v.alive k f.used) in
    reaches pbkdf2 fixed c o r s k v other f
    ∙ ap (λ t. if t then invalid s else validated fixed c o r p s) real
    ∙ ap (λ t. if t then after_search fixed c o r p (w s) else expired (w s)) unregistered
  where
    unregistered : passes_search fixed (s.sessions.slots k) (w s).sessions ≡ false
    unregistered = elim (Bool-cases (passes_search fixed (s.sessions.slots k) (w s).sessions)) [
      | inl found ↦ absurd (gone (is_registered→Has (s.sessions.slots k) (w s).sessions found))
      | inr none_there ↦ none_there
    ]

-- The first access of a request to delete a file or to make a backup is to the session's role.
switch_touches :
    (b : Build) (c : Calls) (r : Request) (p : Ptr) (s : Vault)
    → (r.op ≡ op_code delete) ⊎ (r.op ≡ op_code backup)
    → (switch b c r p s).1.sessions ≡ touch p s.sessions
unfolding switch handle_delete handle_backup
switch_touches b c r p s (inl e) = ground arith
switch_touches b c r p s (inr e) = ground arith

-- The window behind `session_validate` stays open in both builds: where the other thread frees the session that
-- was found and validated, a request to delete a file or to make a backup reads the role out of the
-- freed object.
pub handle_among-races :
    (pbkdf2 : Bytes → Bytes → Bytes) (b : Build) (c : Calls) (w : Vault → Vault) (r : Request)
    (s : Vault) (k : ℕ)
    → Inv s.sessions
    → (r.op ≡ op_code delete) ⊎ (r.op ≡ op_code backup)
    → IsFirst s.sessions r.session_id k
    → c.now ≤ (s.sessions.heap (s.sessions.slots k)).expires_at
    → (w s).sessions.live (s.sessions.slots k) ≡ false
    → (handle_among pbkdf2 b c (behind_validate w) r s).1.sessions.faults
      ≡ use_after_free ∷ (w s).sessions.faults
handle_among-races pbkdf2 b c w r s k v op f early freed =
    let o = behind_validate w in
    let p = s.sessions.slots k in
    let real : (p == null) ≡ false = ground (arith, v.alive k f.used) in
    let on_time : leb c.now (s.sessions.heap p).expires_at ≡ true = ground arith in
    let valid = validate_registered b k c.now s.sessions v f.used f.active.1 in
    let (search, reads) =
      passes b p c.now s.sessions real (valid ∙ ap (λ t. (t, s.sessions)) on_time) in
    let whole : handle_among pbkdf2 b c o r s ≡ switch b c r p (w s) =
      reaches pbkdf2 b c o r s k v (not_login op) f
      ∙ ap (λ t. if t then invalid s else validated b c o r p s) real
      ∙ ap (λ t. if t then after_search b c o r p s else expired s) search
      ∙ ap (after_reads b c o r p s) reads in
    ap (λ (h : Reply × Vault). h.1.sessions.faults) whole
    ∙ ap (λ (t : Sessions). t.faults) (switch_touches b c r p (w s) op)
    ∙ dangling p (w s).sessions real freed
  where
    not_login : (r.op ≡ op_code delete) ⊎ (r.op ≡ op_code backup) → r.op ≢ op_code login
    not_login (inl e) = omega arith
    not_login (inr e) = omega arith

    dangling :
        (p : Ptr) (t : Sessions)
        → (p == null) ≡ false
        → t.live p ≡ false
        → (touch p t).faults ≡ use_after_free ∷ t.faults
    dangling p t real freed =
        ap
          (λ x.
            if x
            then null_dereference ∷ t.faults
            else if t.live p
            then t.faults
            else use_after_free ∷ t.faults)
          real
        ∙ ap (λ x. if x then t.faults else use_after_free ∷ t.faults) freed
