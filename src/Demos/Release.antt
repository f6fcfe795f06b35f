-- ===== src/Demos/Release.antt =====
-- 04_double_free.c and 04_double_free_fixed.c: the release of a connection and its buffer, on a heap of
-- addresses. A second `free` of an address is recorded as a fault; `free(NULL)` does nothing.
pub mod Runs
use secure_ci_coding.Base.{
  ℕ, ◌≡◌, ◌≢◌, ◌⊎◌, inl, inr, arith, Bool, true, false, Option, none, some, List, ◌∷◌, ◌==◌, ltb,
  ◌||◌, if◌then◌else◌,
}
use secure_ci_coding.Common.{Fault, use_after_free, double_free}
use secure_ci_coding.Session.{Ptr, null, update}
use secure_ci_coding.Network.{closed}

-- `connection_t`, less `buf_size`; `fd` is none for -1.
pub record Connection : Type 0 where
  pub fd : Option ℕ
  pub buffer : Ptr

pub record Memory : Type 0 where
  pub heap : Ptr → Connection
  pub live : Ptr → Bool
  pub is_open : ℕ → Bool
  pub faults : List Fault

abbrev pub touch : Ptr → Memory → Memory
touch p m = record m { faults = if m.live p then m.faults else use_after_free ∷ m.faults }

abbrev free : Ptr → Memory → Memory
free p m = record m {
  live = if p == null then m.live else update m.live p false;
  faults = if p == null then m.faults else if m.live p then m.faults else double_free ∷ m.faults;
}

-- `SAFE_FREE(conn->buffer)`
abbrev safe_free_buffer : Ptr → Memory → Memory
safe_free_buffer p m =
    let c = m.heap p in
    let freed = free c.buffer m in
    if c.buffer == null
    then m
    else record freed { heap = update freed.heap p (record c { buffer = null }) }

unfoldable pub conn_close_vuln : Ptr → (error_path : Bool) → Memory → Memory
conn_close_vuln p error_path m =
    if p == null
    then m
    else (let buffer = (m.heap p).buffer in
        let entered = touch p m in
        let early = if error_path then free buffer entered else free buffer entered in
        free p (free buffer early))

abbrev close_fd : Ptr → Memory → Memory
close_fd p m = record m {
  is_open = closed (m.heap p).fd m.is_open;
  heap = update m.heap p (record (m.heap p) {
    fd = elim (m.heap p).fd [ none ↦ none | some n ↦ if ltb 0 n then none else some n ];
  });
}

unfoldable pub conn_close_fixed : Ptr → (error_path : Bool) → Memory → Memory
conn_close_fixed p error_path m =
    if p == null
    then m
    else (let entered = touch p m in
        let early = if error_path then safe_free_buffer p entered else entered in
        free p (close_fd p (safe_free_buffer p early)))

-- The connection is in use, and its buffer is NULL or another object in use.
abbrev InUse : Memory → Ptr → Type 0
InUse m p =
    (p ≢ null)
    × (m.live p ≡ true)
    × (((m.heap p).buffer ≡ null) ⊎ ((m.live (m.heap p).buffer ≡ true) × ((m.heap p).buffer ≢ p)))

-- On both paths the fixed close of a connection in use commits no fault, frees the connection and its
-- buffer and nothing else, and closes the descriptor unless that is -1 or 0.
conn_close_fixed_once :
    (p : Ptr) (error_path : Bool) (m : Memory)
    → InUse m p
    → ((conn_close_fixed p error_path m).faults ≡ m.faults)
      × ((q : Ptr)
          → q ≢ null
          → (conn_close_fixed p error_path m).live q
            ≡ (if q == p || q == (m.heap p).buffer then false else m.live q))
      × ((n : ℕ) → (conn_close_fixed p error_path m).is_open n ≡ closed (m.heap p).fd m.is_open n)
unfolding conn_close_fixed
conn_close_fixed_once p true m (real, used, inl e) =
    (ground arith, λ q h. ground arith, λ n. ground arith)
conn_close_fixed_once p false m (real, used, inl e) =
    (ground arith, λ q h. ground arith, λ n. ground arith)
conn_close_fixed_once p true m (real, used, inr (b, other)) =
    (ground arith, λ q h. ground arith, λ n. ground arith)
conn_close_fixed_once p false m (real, used, inr (b, other)) =
    (ground arith, λ q h. ground arith, λ n. ground arith)

-- On both paths, and not only on the error path, the vulnerable close of a connection with a buffer in
-- use frees the buffer twice and leaves the descriptor open.
conn_close_vuln_twice :
    (p : Ptr) (error_path : Bool) (m : Memory)
    → p ≢ null
    → m.live p ≡ true
    → (m.heap p).buffer ≢ null
    → m.live (m.heap p).buffer ≡ true
    → (m.heap p).buffer ≢ p
    → ((conn_close_vuln p error_path m).faults ≡ double_free ∷ m.faults)
      × ((conn_close_vuln p error_path m).is_open ≡ m.is_open)
unfolding conn_close_vuln
conn_close_vuln_twice p true m real used filled live other = (ground arith, ground arith)
conn_close_vuln_twice p false m real used filled live other = (ground arith, ground arith)
