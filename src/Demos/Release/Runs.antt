-- ===== src/Demos/Release/Runs.antt =====
-- The two `main`s of 04_double_free.c and 04_double_free_fixed.c.
use secure_ci_coding.Base.{ℕ, ◌≡◌, ◌≢◌, arith, true, false, some, ◌∷◌}
use secure_ci_coding.Common.{double_free}
use secure_ci_coding.Session.{Ptr, null, update}
use secure_ci_coding.Demos.Release.{Memory, touch, conn_close_vuln, conn_close_fixed}

-- `calloc` at `p`, `malloc` at `b`, and the assignments, which do not ask whether `calloc` returned NULL.
abbrev connect : Ptr → Ptr → ℕ → Memory → Memory
connect p b fd m = touch p (record m {
  heap = update m.heap p (record { fd = some fd; buffer = b });
  live = update (update m.live p true) b true;
})

-- `main` of the vulnerable file; `strcpy` writes into the first buffer.
unfoldable main_vuln : (p b p' b' : Ptr) → Memory → Memory
main_vuln p b p' b' m =
    conn_close_vuln p true (conn_close_vuln p' false (connect p' b' 1 (touch b (connect p b 42 m))))

-- `main` of the fixed file.
unfoldable main_fixed : (p b p' b' : Ptr) → Memory → Memory
main_fixed p b p' b' m =
    conn_close_fixed p' true (connect p' b' 2 (conn_close_fixed p false (connect p b 1 m)))

-- Four objects that the allocator gives, none of them NULL.
record AreApart (p b p' b' : Ptr) : Type 0 where
  pub real : (p ≢ null) × (b ≢ null) × (p' ≢ null) × (b' ≢ null)
  pub first : (p ≢ b) × (p ≢ p') × (p ≢ b')
  pub second : (b ≢ p') × (b ≢ b') × (p' ≢ b')

-- The vulnerable program frees a buffer twice on the path that it announces as normal, and again on the other, and
-- in the end the two connections and their buffers are free.
main_vuln_lem :
    (p b p' b' : Ptr) (m : Memory)
    → AreApart p b p' b'
    → ((main_vuln p b p' b' m).faults ≡ double_free ∷ double_free ∷ m.faults)
      × ((main_vuln p b p' b' m).live p ≡ false)
      × ((main_vuln p b p' b' m).live b ≡ false)
      × ((main_vuln p b p' b' m).live p' ≡ false)
      × ((main_vuln p b p' b' m).live b' ≡ false)
unfolding main_vuln conn_close_vuln
main_vuln_lem p b p' b' m a = (
  ground (arith, a.real, a.first, a.second),
  ground (arith, a.real, a.first, a.second),
  ground (arith, a.real, a.first, a.second),
  ground (arith, a.real, a.first, a.second),
  ground (arith, a.real, a.first, a.second),
)

-- The fixed program commits no fault and frees its connections and buffers.
main_fixed_lem :
    (p b p' b' : Ptr) (m : Memory)
    → AreApart p b p' b'
    → ((main_fixed p b p' b' m).faults ≡ m.faults)
      × ((main_fixed p b p' b' m).live p' ≡ false)
      × ((main_fixed p b p' b' m).live b' ≡ false)
unfolding main_fixed conn_close_fixed
main_fixed_lem p b p' b' m a = (
  ground (arith, a.real, a.first, a.second),
  ground (arith, a.real, a.first, a.second),
  ground (arith, a.real, a.first, a.second),
)
