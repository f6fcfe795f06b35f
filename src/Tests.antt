-- ===== src/Tests.antt =====
-- The programs of tests/. Each is the list of what its `CHECK`s find, in order, for every behaviour of the
-- library and the system that it runs on; what it prints is left out.
pub mod Auth
pub mod Protocol
pub mod Files
pub mod Runner
pub mod Security
use secure_ci_coding.Base.{ℕ, ◌+◌, Bool, true, false, List, [], ◌∷◌, ltb, if◌then◌else◌}

-- `g_passed` and `g_failed`, which every `CHECK` counts up, in front of the one that is not counted up.
unfoldable pub g_failed : List Bool → ℕ
g_failed [] = 0
g_failed (found ∷ checks) = let rest = g_failed checks in if found then rest else rest + 1

unfoldable g_passed : List Bool → ℕ
g_passed [] = 0
g_passed (found ∷ checks) = let rest = g_passed checks in if found then rest + 1 else rest

-- `return g_failed > 0 ? 1 : 0`
abbrev pub exit_status : ℕ → ℕ
exit_status failed = if ltb 0 failed then 1 else 0
