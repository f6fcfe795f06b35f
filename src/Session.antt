-- ===== src/Session.antt =====
-- src/session.c and include/session.h: the table of sessions. Sessions are objects on a heap, and
-- the table is an array of pointers to them. A call is one step here, also the calls that
-- give up `g_session_mutex` before they end. Freed memory keeps its contents here; the first access
-- to it is recorded as a fault, and what C does from then on is unspecified.
pub mod Token
pub mod Invariant
pub mod Array
pub mod Lookup
pub mod Create
pub mod Opened
pub mod Destroy
pub mod Cleanup
pub mod Validate
pub mod View
use secure_ci_coding.Base.{
  ℕ, zero, suc, ◌+◌, ◌-◌, ◌%◌, ◌&&◌, ◌||◌, Bool, true, false, not, Option, none, some, List, [],
  ◌∷◌, Bytes, ltb, leb, ◌==◌, if◌then◌else◌, bit_xor, u32_mod,
}
use secure_ci_coding.Common.{
  Build, vulnerable, fixed, Role, ℤ, Fault, null_dereference, use_after_free, max_connections,
  session_timeout_sec, session_token_len,
}
use Token.{Random, Buffer, generate_token, window}

abbrev pub Ptr : Type 0
Ptr = ℕ

abbrev pub null : Ptr
null = 0

-- `session_t`
pub record Session : Type 0 where
  pub session_id : ℕ
  pub user_id : ℤ
  pub role : Role
  pub token : Bytes
  pub created_at : ℕ
  pub expires_at : ℕ
  pub active : Bool

-- The heap of sessions, `g_sessions` and `g_session_count`, and the faults so far.
pub record Sessions : Type 0 where
  pub heap : Ptr → Session
  pub live : Ptr → Bool
  pub slots : ℕ → Ptr
  pub count : ℕ
  pub faults : List Fault

abbrev pub update {ℓ} : {A : Type ℓ} → (ℕ → A) → ℕ → A → ℕ → A
update f i a k = if k == i then a else f k

-- `generate_session_id`: `/dev/urandom` cannot be opened (none), reads short (some none) or gives
-- four bytes.
unfoldable pub generate_session_id : Build → (urandom : Option (Option ℕ)) → (time pid rand : ℕ) → ℕ
generate_session_id vulnerable urandom time pid rand = rand % u32_mod
generate_session_id fixed none time pid rand = bit_xor (time % u32_mod) (pid % u32_mod)
generate_session_id fixed (some none) time pid rand = bit_xor (time % u32_mod) (pid % u32_mod)
generate_session_id fixed (some (some id)) time pid rand = id

-- An access through `p`: a fault unless the object is alive.
abbrev pub touch : Ptr → Sessions → Sessions
touch p s = record s {
  faults =
      if p == null
      then null_dereference ∷ s.faults
      else if s.live p
      then s.faults
      else use_after_free ∷ s.faults;
}

abbrev pub release : Ptr → Sessions → Sessions
release p s = record s { live = update s.live p false }

-- What `session_create` fills in.
abbrev pub new_session : ℕ → ℤ → Role → Bytes → ℕ → Session
new_session sid user_id role token now = record {
  session_id = sid;
  user_id = user_id;
  role = role;
  token = token;
  created_at = now;
  expires_at = now + session_timeout_sec;
  active = true;
}

-- The part of `session_create` behind the generators. `p` is what `calloc` returns. The value is
-- the new id, or 0.
unfoldable pub store_session :
    ℕ → ℤ → Role → Bytes → (p : Ptr) → (now : ℕ) → Sessions → ℕ × Sessions
store_session sid user_id role token p now s =
    if p == null
    then (0, s)
    else (let s' = record s {
      heap = update s.heap p (new_session sid user_id role token now);
      live = update s.live p true;
    } in
        if ltb s.count max_connections
        then (sid, record s' { slots = update s.slots s.count p; count = s.count + 1 })
        else (0, release p s'))

-- What the library calls of `session_create` give: the two reads of `/dev/urandom`, the calls of
-- `rand` in order, the time, the process, and the address that `calloc` returns.
pub record Environment : Type 0 where
  pub urandom_id : Option (Option ℕ)
  pub urandom_token : Option Bytes
  pub rand : ℕ → ℕ
  pub time : ℕ
  pub pid : ℕ
  pub fresh : Ptr

-- In the vulnerable build the id takes the first value of `rand` and the token the next ones.
abbrev pub token_random : Build → Environment → Random
token_random vulnerable e = record { urandom = e.urandom_token; rand = λ k. e.rand (k + 1) }
token_random fixed e = record { urandom = e.urandom_token; rand = e.rand }

-- The id (0 on failure), the caller's token buffer and the new state.
unfoldable pub session_create : Build → Environment → ℤ → Role → Sessions → ℕ × Buffer × Sessions
session_create b e user_id role s =
    let sid = generate_session_id b e.urandom_id e.time e.pid (e.rand 0) in
    let token = generate_token b (token_random b e) in
    let (result, s') =
      store_session sid user_id role (window session_token_len 0 token.at) e.fresh e.time s in
    (result, token, s')

-- The test of one slot in `session_lookup`.
abbrev pub slot_matches : Sessions → Ptr → ℕ → Bool
slot_matches s p sid = not (p == null) && ((s.heap p).session_id == sid && (s.heap p).active)

abbrev pub touch_slot : Ptr → Sessions → Sessions
touch_slot p s = record s { faults = if p == null then s.faults else (touch p s).faults }

-- The loop of `session_lookup`, with `n` rounds left, at slot `i`.
unfoldable pub lookup_loop : ℕ → ℕ → ℕ → Sessions → Option Ptr × Sessions
lookup_loop zero i sid s = (none, s)
lookup_loop (suc n) i sid s =
    let p = s.slots i in
    let s' = touch_slot p s in
    let rest = lookup_loop n (i + 1) sid s' in if slot_matches s p sid then (some p, s') else rest

unfoldable pub session_lookup : ℕ → Sessions → Option Ptr × Sessions
session_lookup sid s = lookup_loop s.count 0 sid s

-- `for (j = i; ...) g_sessions[j] = g_sessions[j + 1]`, with `n` rounds left.
unfoldable pub shift_down : ℕ → ℕ → (ℕ → Ptr) → ℕ → Ptr
shift_down zero j a = a
shift_down (suc n) j a = shift_down n (j + 1) (update a j (a (j + 1)))

-- Slot `i` is taken out and the last slot becomes NULL.
unfoldable pub remove_slot : ℕ → Sessions → Sessions
remove_slot i s = record s {
  slots = update (shift_down (s.count - 1 - i) i s.slots) (s.count - 1) null;
  count = s.count - 1;
}

-- In the fixed build the slot of the freed session is cleared before the compaction.
abbrev pub clear_slot : Build → ℕ → Sessions → Sessions
clear_slot vulnerable i s = s
clear_slot fixed i s = record s { slots = update s.slots i null }

-- The loop of `session_destroy_by_ptr`, with `n` rounds left, at slot `i`.
unfoldable pub destroy_loop : Build → ℕ → ℕ → Ptr → Sessions → Sessions
destroy_loop b zero i p s = s
destroy_loop b (suc n) i p s =
    let rest = destroy_loop b n (i + 1) p s in
    if s.slots i == p then remove_slot i (clear_slot b i (release p s)) else rest

abbrev pub deactivate : Ptr → Sessions → Sessions
deactivate p s = record s { heap = update s.heap p (record (s.heap p) { active = false }) }

-- The last access is the `LOG_DEBUG` behind the loop, which reads `s->session_id`.
unfoldable pub session_destroy_by_ptr : Build → Ptr → Sessions → Sessions
session_destroy_by_ptr b p s =
    if p == null then s else touch p (destroy_loop b s.count 0 p (deactivate p (touch p s)))

-- `session_destroy` behind the lookup.
abbrev pub destroy_found : Build → Option Ptr × Sessions → Sessions
destroy_found b (none, s) = s
destroy_found b (some p, s) = session_destroy_by_ptr b p s

unfoldable pub session_destroy : Build → ℕ → Sessions → Sessions
session_destroy b sid s = destroy_found b (session_lookup sid s)

-- The search of `session_validate` in the fixed build.
unfoldable pub is_registered : ℕ → ℕ → Ptr → (ℕ → Ptr) → Bool
is_registered zero i p slots = false
is_registered (suc n) i p slots = slots i == p || is_registered n (i + 1) p slots

abbrev pub check_times : Ptr → ℕ → Sessions → Bool × Sessions
check_times p now s = ((s.heap p).active && leb now (s.heap p).expires_at, touch p s)

unfoldable pub session_validate : Build → Ptr → ℕ → Sessions → Bool × Sessions
session_validate vulnerable p now s = if p == null then (false, s) else check_times p now s
session_validate fixed p now s =
    if p == null
    then (false, s)
    else if is_registered s.count 0 p s.slots
    then check_times p now s
    else (false, s)

abbrev pub is_stale : Session → ℕ → Bool
is_stale x now = leb x.expires_at now || not x.active

-- The loop of `session_cleanup_expired`: slots `n - 1` down to 0.
unfoldable pub cleanup_loop : ℕ → ℕ → Sessions → Sessions
cleanup_loop zero now s = s
cleanup_loop (suc i) now s =
    let p = s.slots i in
    let s' = touch_slot p s in
    cleanup_loop i now
      (if not (p == null) && is_stale (s.heap p) now then remove_slot i (release p s') else s')

unfoldable pub session_cleanup_expired : ℕ → Sessions → Sessions
session_cleanup_expired now s = cleanup_loop s.count now s
