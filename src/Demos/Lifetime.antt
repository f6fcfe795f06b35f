-- ===== src/Demos/Lifetime.antt =====
-- 03_use_after_free.c and 03_use_after_free_fixed.c: a small table of sessions. An access to a freed
-- object and a second free are recorded as faults, and what C does from then on is unspecified.
pub mod Safe
pub mod Runs
use secure_ci_coding.Base.{
  ℕ, zero, suc, ◌+◌, ◌-◌, ◌&&◌, Bool, true, false, List, [], ◌∷◌, ltb, ◌==◌, if◌then◌else◌,
}
use secure_ci_coding.Common.{ℤ, Fault, null_dereference, use_after_free, double_free}
use secure_ci_coding.Session.{Ptr, null, update, shift_down, is_registered}

-- `session_t`
pub record Session : Type 0 where
  pub session_id : ℕ
  pub user_id : ℤ
  pub expires_at : ℕ
  pub active : Bool

-- The heap, and `g_session_table` with `g_session_count`, which the vulnerable file does not have.
pub record Memory : Type 0 where
  pub heap : Ptr → Session
  pub live : Ptr → Bool
  pub slots : ℕ → Ptr
  pub count : ℕ
  pub faults : List Fault

abbrev pub table_size : ℕ
table_size = 16

abbrev pub touch : Ptr → Memory → Memory
touch p m = record m {
  faults =
      if p == null
      then null_dereference ∷ m.faults
      else if m.live p
      then m.faults
      else use_after_free ∷ m.faults;
}

abbrev pub free : Ptr → Memory → Memory
free p m = record m {
  live = if p == null then m.live else update m.live p false;
  faults = if p == null then m.faults else if m.live p then m.faults else double_free ∷ m.faults;
}

-- `calloc` and the assignments behind it, which do not ask whether `calloc` returned NULL. `p` is what
-- it returns; 0xDEADBEEF is 3735928559.
abbrev fill : Ptr → (now : ℕ) → ℤ → Memory → Memory
fill p now user_id m = touch p (record m {
  heap = update m.heap p (record {
    session_id = 3735928559;
    user_id = user_id;
    expires_at = now + 3600;
    active = true;
  });
  live = update m.live p true;
})

-- `session_create` of the fixed file: the caller's pointer is `p`.
unfoldable pub session_create : Ptr → (now : ℕ) → ℤ → Memory → Memory
session_create p now user_id m =
    let filled = fill p now user_id m in
    if ltb filled.count table_size
    then record filled { slots = update filled.slots filled.count p; count = filled.count + 1 }
    else filled

-- The object of slot `i` is taken out: `free`, NULL, the compaction, and NULL in the last slot.
unfoldable pub take_out : ℕ → Memory → Memory
take_out i m =
    let freed = free (m.slots i) m in
    record freed {
      slots = update (shift_down (m.count - 1 - i) i (update m.slots i null)) (m.count - 1) null;
      count = m.count - 1;
    }

-- The loop of `session_destroy`, with `n` rounds left, at slot `i`.
unfoldable pub destroy_loop : ℕ → ℕ → Ptr → Memory → Memory
destroy_loop zero i p m = m
destroy_loop (suc n) i p m =
    let rest = destroy_loop n (i + 1) p m in if m.slots i == p then take_out i m else rest

-- `session_destroy` of the fixed file, on the caller's pointer: its new value and the memory.
unfoldable pub session_destroy : Ptr → Memory → Ptr × Memory
session_destroy p m = if p == null then (p, m) else (null, destroy_loop m.count 0 p m)

-- `session_is_valid` of the fixed file.
unfoldable pub session_is_valid : Ptr → (now : ℕ) → Memory → Bool × Memory
session_is_valid p now m =
    if p == null
    then (false, m)
    else if is_registered m.count 0 p m.slots
    then ((m.heap p).active && ltb now (m.heap p).expires_at, touch p m)
    else (false, m)

-- `session_create`, `session_destroy` and `session_is_valid` of the vulnerable file.
unfoldable pub session_create_vuln : Ptr → (now : ℕ) → ℤ → Memory → Memory
session_create_vuln p now user_id m = fill p now user_id m

unfoldable pub session_destroy_vuln : Ptr → Memory → Memory
session_destroy_vuln p m = free p m

unfoldable pub session_is_valid_vuln : Ptr → (now : ℕ) → Memory → Bool × Memory
session_is_valid_vuln p now m =
    if p == null
    then (false, m)
    else ((m.heap p).active && ltb now (m.heap p).expires_at, touch p m)
