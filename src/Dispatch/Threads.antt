-- ===== src/Dispatch/Threads.antt =====
-- A request while other threads act. `proto_dispatch` of src/protocol.c holds the mutex of src/session.c
-- only inside the searches of `session_lookup` and `session_validate`; between these and the uses of the
-- pointer other threads may change everything. Here one request is cut at these places.
pub mod Gate
pub mod Quiet
pub mod Windows
pub mod Races
use secure_ci_coding.Base.{
  ℕ, zero, suc, ◌+◌, Bool, true, false, Option, none, some, Bytes, ◌==◌, if◌then◌else◌, codes,
}
use secure_ci_coding.Common.{Build, vulnerable, fixed, op_code, login, err_session}
use secure_ci_coding.Session.{
  Ptr, null, Sessions, touch_slot, slot_matches, is_registered, check_times,
}
use secure_ci_coding.Server.{Request}
use secure_ci_coding.Dispatch.{switch}
use secure_ci_coding.Dispatch.State.{Vault, Calls, Reply, plain, with_sessions}
use secure_ci_coding.Dispatch.Handlers.{handle_login}

-- What the other threads do to the state: behind the unlock in `session_lookup` and in front of its
-- `return g_sessions[i]`; in front of the search of `session_validate`; behind its unlock and in front
-- of the reads of `s->active` and `s->expires_at`; and in front of the switch.
pub record Others : Type 0 where
  pub before_return : Vault → Vault
  pub before_search : Vault → Vault
  pub before_reads : Vault → Vault
  pub before_switch : Vault → Vault

-- The loop of `session_lookup` up to the unlock: the slot that matches, with `n` rounds left.
unfoldable pub find_slot : ℕ → ℕ → ℕ → Sessions → Option ℕ × Sessions
find_slot zero i sid s = (none, s)
find_slot (suc n) i sid s =
    let s' = touch_slot (s.slots i) s in
    let rest = find_slot n (i + 1) sid s' in
    if slot_matches s (s.slots i) sid then (some i, s') else rest

-- The search of `session_validate`, which the vulnerable build does not make.
abbrev pub passes_search : Build → Ptr → Sessions → Bool
passes_search vulnerable p s = true
passes_search fixed p s = is_registered s.count 0 p s.slots

abbrev pub invalid : Vault → Reply × Vault
invalid s = (plain err_session (codes "Invalid or expired session"), s)

abbrev pub expired : Vault → Reply × Vault
expired s = (plain err_session (codes "Session expired, please re-login"), s)

-- Behind the reads of `session_validate`.
abbrev pub after_reads :
    Build → Calls → Others → Request → Ptr → Vault → Bool × Sessions → Reply × Vault
after_reads b c o r p s (false, t) = expired (with_sessions t s)
after_reads b c o r p s (true, t) = switch b c r p (o.before_switch (with_sessions t s))

abbrev pub after_search : Build → Calls → Others → Request → Ptr → Vault → Reply × Vault
after_search b c o r p s =
    let u = o.before_reads s in after_reads b c o r p u (check_times p c.now u.sessions)

-- `if (!session_validate(session))`
abbrev pub validated : Build → Calls → Others → Request → Ptr → Vault → Reply × Vault
validated b c o r p s =
    let u = o.before_search s in
    if passes_search b p u.sessions then after_search b c o r p u else expired u

-- `if (!session)`
abbrev pub returned : Build → Calls → Others → Request → Ptr → Vault → Reply × Vault
returned b c o r p s = if p == null then invalid s else validated b c o r p s

-- Behind the unlock in `session_lookup`, at slot `i`.
abbrev pub after_find :
    Build → Calls → Others → Request → Vault → Option ℕ × Sessions → Reply × Vault
after_find b c o r s (none, t) = invalid (with_sessions t s)
after_find b c o r s (some i, t) =
    let u = o.before_return (with_sessions t s) in returned b c o r (u.sessions.slots i) u

-- The request up to the label `respond`. A log-in holds no pointer to a session.
unfoldable pub handle_among :
    (Bytes → Bytes → Bytes) → Build → Calls → Others → Request → Vault → Reply × Vault
handle_among pbkdf2 b c o r s =
    if r.op == op_code login
    then handle_login pbkdf2 b c r s
    else after_find b c o r s (find_slot s.sessions.count 0 r.session_id s.sessions)
