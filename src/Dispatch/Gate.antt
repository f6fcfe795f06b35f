-- ===== src/Dispatch/Gate.antt =====
-- Who may do what: the session that a request needs, and the role of its user.
use secure_ci_coding.Base.{
  ℕ, ◌≤◌, ◌<◌, ◌≡◌, ◌≢◌, ◌⊎◌, ◌↔◌, inl, inr, refl, sym, ap, subst, ◌∙◌, arith, true, false,
  Bool-cases, leb, ◌==◌, Bytes, some,
}
use secure_ci_coding.Common.{
  Build, vulnerable, fixed, op_code, login, delete, backup, err_session, admin, Role, user, guest,
}
use secure_ci_coding.Session.{Ptr, Sessions, session_lookup, session_validate}
use secure_ci_coding.Session.Invariant.{Inv, Has}
use secure_ci_coding.Session.Lookup.{ActiveUnder, session_lookup_finds}
use secure_ci_coding.Session.Validate.{session_validate_sound}
use secure_ci_coding.Server.{Request}
use secure_ci_coding.Dispatch.{handle, switch, after_lookup, after_validate}
use secure_ci_coding.Dispatch.State.{Vault, Calls, Reply}
use secure_ci_coding.Dispatch.Handlers.{handle_delete, handle_backup, is_admin}

-- On a registered active session both builds of `session_validate` look at the time only.
pub validate_registered :
    (b : Build) (k now : ℕ) (s : Sessions)
    → Inv s
    → k < s.count
    → (s.heap (s.slots k)).active ≡ true
    → session_validate b (s.slots k) now s ≡ (leb now (s.heap (s.slots k)).expires_at, s)
unfolding session_validate
validate_registered vulnerable k now s v h active = ground (arith, v.alive k)
validate_registered fixed k now s v h active =
    let (sound, same) = session_validate_sound (s.slots k) now s v in λ i. (answer sound i, same i)
  where
    answer :
        (((session_validate fixed (s.slots k) now s).0 ≡ true) ↔ (
          Has s (s.slots k)
          × ((s.heap (s.slots k)).active ≡ true)
          × (now ≤ (s.heap (s.slots k)).expires_at)))
        → (session_validate fixed (s.slots k) now s).0 ≡ leb now (s.heap (s.slots k)).expires_at
    answer sound = elim (Bool-cases (leb now (s.heap (s.slots k)).expires_at)) [
      | inl early ↦ sound.1 ((k, h, refl), active, ground arith) ∙ sym early
      | inr late ↦ elim (Bool-cases (session_validate fixed (s.slots k) now s).0) [
        | inl granted ↦ absurd (let e = (sound.0 granted).2 in ground arith)
        | inr denied ↦ denied ∙ sym late
      ]
    ]

handle_other :
    (pbkdf2 : Bytes → Bytes → Bytes) (b : Build) (c : Calls) (r : Request) (s : Vault)
    → r.op ≢ op_code login
    → handle pbkdf2 b c r s ≡ after_lookup b c r s (session_lookup r.session_id s.sessions)
unfolding handle
handle_other pbkdf2 b c r s other = let no : (r.op == op_code login) ≡ false = ground arith in rw no

-- A lookup that finds an active session which has not expired leads to the switch.
pub handle_found :
    (pbkdf2 : Bytes → Bytes → Bytes) (b : Build) (c : Calls) (r : Request) (s : Vault) (k : ℕ)
    → Inv s.sessions
    → r.op ≢ op_code login
    → k < s.sessions.count
    → ActiveUnder s.sessions r.session_id k
    → session_lookup r.session_id s.sessions ≡ (some (s.sessions.slots k), s.sessions)
    → c.now ≤ (s.sessions.heap (s.sessions.slots k)).expires_at
    → handle pbkdf2 b c r s ≡ switch b c r (s.sessions.slots k) s
handle_found pbkdf2 b c r s k v other h m e early =
    let p = s.sessions.slots k in
    let on_time : leb c.now (s.sessions.heap p).expires_at ≡ true = ground arith in
    handle_other pbkdf2 b c r s other
    ∙ ap (after_lookup b c r s) e
    ∙ ap (after_validate b c r p s) (validate_registered b k c.now s.sessions v h m.1)
    ∙ ap (λ t. after_validate b c r p s (t, s.sessions)) on_time

-- A request other than a log-in, on a session table in order, is refused with the session error and
-- changes nothing, or it reaches its case of the switch with a registered session that is active
-- under the id of the request and has not expired. This holds in both builds.
pub handle_gate :
    (pbkdf2 : Bytes → Bytes → Bytes) (b : Build) (c : Calls) (r : Request) (s : Vault)
    → Inv s.sessions
    → r.op ≢ op_code login
    → (((handle pbkdf2 b c r s).0.code ≡ err_session) × ((handle pbkdf2 b c r s).1 ≡ s))
      ⊎ ((k : ℕ) × (k < s.sessions.count)
          × ActiveUnder s.sessions r.session_id k
          × (c.now ≤ (s.sessions.heap (s.sessions.slots k)).expires_at)
          × (handle pbkdf2 b c r s ≡ switch b c r (s.sessions.slots k) s))
handle_gate pbkdf2 b c r s v other = elim (session_lookup_finds r.session_id s.sessions v) [
  | inl (e, out) ↦
      let at = handle_other pbkdf2 b c r s other ∙ ap (after_lookup b c r s) e in
      inl (ap (λ (h : Reply × Vault). h.0.code) at, ap (λ (h : Reply × Vault). h.1) at)
  | inr (k, h, m, first, e) ↦
      let p = s.sessions.slots k in
      let valid = validate_registered b k c.now s.sessions v h m.1 in
      let at =
        handle_other pbkdf2 b c r s other
        ∙ ap (after_lookup b c r s) e
        ∙ ap (after_validate b c r p s) valid in
      elim (Bool-cases (leb c.now (s.sessions.heap p).expires_at)) [
        | inl early ↦
            inr
              (k, h, m, ground arith, at ∙ ap (λ t. after_validate b c r p s (t, s.sessions)) early)
        | inr late ↦
            let at' = at ∙ ap (λ t. after_validate b c r p s (t, s.sessions)) late in
            inl (ap (λ (h : Reply × Vault). h.0.code) at', ap (λ (h : Reply × Vault). h.1) at')
      ]
]

role_cases : (role : Role) → (role ≡ admin) ⊎ (is_admin role ≡ false)
role_cases admin = inl refl
role_cases user = inr refl
role_cases guest = inr refl

-- What a request may have changed: nothing outside the server, unless `p` is an administrator's.
abbrev Privileged : Reply × Vault → Ptr → Vault → Type 0
Privileged h p s =
    ((h.1.effects ≡ s.effects) × (h.1.commands ≡ s.commands)) ⊎ ((s.sessions.heap p).role ≡ admin)

delete-Privileged :
    (c : Calls) (r : Request) (p : Ptr) (s : Vault) → Privileged (handle_delete c r p s) p s
unfolding handle_delete
delete-Privileged c r p s = elim (role_cases (s.sessions.heap p).role) [
  | inl granted ↦ inr granted
  | inr denied ↦ inl (ground arith, ground arith)
]

backup-Privileged :
    (b : Build) (r : Request) (p : Ptr) (s : Vault) → Privileged (handle_backup b r p s) p s
unfolding handle_backup
backup-Privileged b r p s = elim (role_cases (s.sessions.heap p).role) [
  | inl granted ↦ inr granted
  | inr denied ↦ inl (ground arith, ground arith)
]

switch-Privileged :
    (b : Build) (c : Calls) (r : Request) (p : Ptr) (s : Vault)
    → (r.op ≡ op_code delete) ⊎ (r.op ≡ op_code backup)
    → Privileged (switch b c r p s) p s
unfolding switch
switch-Privileged b c r p s (inl e) =
    let case : switch b c r p s ≡ handle_delete c r p s = ground arith in
    subst (λ h. Privileged h p s) (sym case) (delete-Privileged c r p s)
switch-Privileged b c r p s (inr e) =
    let case : switch b c r p s ≡ handle_backup b r p s = ground arith in
    subst (λ h. Privileged h p s) (sym case) (backup-Privileged b r p s)

-- A request to delete a file or to make a backup, on a session table in order, removes no file and
-- runs no command unless a registered session of an administrator is active under its id and
-- has not expired. This holds in both builds.
pub handle_privileged :
    (pbkdf2 : Bytes → Bytes → Bytes) (b : Build) (c : Calls) (r : Request) (s : Vault)
    → Inv s.sessions
    → (r.op ≡ op_code delete) ⊎ (r.op ≡ op_code backup)
    → (((handle pbkdf2 b c r s).1.effects ≡ s.effects)
        × ((handle pbkdf2 b c r s).1.commands ≡ s.commands))
      ⊎ ((k : ℕ) × (k < s.sessions.count)
          × ActiveUnder s.sessions r.session_id k
          × (c.now ≤ (s.sessions.heap (s.sessions.slots k)).expires_at)
          × ((s.sessions.heap (s.sessions.slots k)).role ≡ admin))
handle_privileged pbkdf2 b c r s v op = elim (handle_gate pbkdf2 b c r s v (other op)) [
  | inl (_, same) ↦ inl (ap (λ (t : Vault). t.effects) same, ap (λ (t : Vault). t.commands) same)
  | inr (k, h, m, early, e) ↦
      elim (subst (λ x. Privileged x (s.sessions.slots k) s) (sym e)
        (switch-Privileged b c r (s.sessions.slots k) s op)) [
          | inl same ↦ inl same
          | inr granted ↦ inr (k, h, m, early, granted)
        ]
]
  where
    other : (r.op ≡ op_code delete) ⊎ (r.op ≡ op_code backup) → r.op ≢ op_code login
    other (inl e) = omega arith
    other (inr e) = omega arith
