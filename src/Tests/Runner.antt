-- ===== src/Tests/Runner.antt =====
-- tests/test_runner.c: it runs the programs of the other tests and counts the ones that fail.
use secure_ci_coding.Base.{
  ℕ, ◌+◌, ◌*◌, ◌≡◌, ◌↔◌, ap, ◌∙◌, arith, Bool, true, not, List, [], ◌∷◌, ◌++◌, Bytes, codes, ◌==◌,
  if◌then◌else◌, Bool-cases, inl, inr,
}
use secure_ci_coding.Common.{ℤ, pos, negsuc, Build, vulnerable, fixed}
use secure_ci_coding.Tests.{g_failed, exit_status}
use secure_ci_coding.Tests.Auth.{test_auth, test_auth_lem}

-- `tests`, up to the NULL.
abbrev suites : List Bytes
suites =
    codes "test_auth"
    ∷ codes "test_protocol"
    ∷ codes "test_file_handler"
    ∷ codes "test_security"
    ∷ []

-- `snprintf(cmd, sizeof(cmd), "./build/%s", tests[i])`; the names are short.
abbrev suite_command : Bytes → Bytes
suite_command name = codes "./build/" ++ name

-- `ret != 0`
abbrev has_failed : ℤ → Bool
has_failed (pos n) = not (n == 0)
has_failed (negsuc n) = true

-- The loop: `total` and `failed`. `run` is what `system` returns for a command.
unfoldable pub run_suites : (run : Bytes → ℤ) → List Bytes → (total failed : ℕ) → ℕ × ℕ
run_suites run [] total failed = (total, failed)
run_suites run (name ∷ names) total failed =
    run_suites run names (total + 1)
      (if has_failed (run (suite_command name)) then failed + 1 else failed)

-- `main`: its exit status.
unfoldable pub test_runner : (run : Bytes → ℤ) → ℕ
test_runner run = let (total, failed) = run_suites run suites 0 0 in exit_status failed

-- The number of suites in a list that do not return 0.
abbrev failures : (Bytes → ℤ) → List Bytes → ℕ
failures run [] = 0
failures run (name ∷ names) =
    (if has_failed (run (suite_command name)) then 1 else 0) + failures run names

run_suites_lem :
    (run : Bytes → ℤ) (names : List Bytes) (total failed : ℕ)
    → (run_suites run names total failed).1 ≡ failed + failures run names
unfolding run_suites
run_suites_lem run [] total failed = ground arith
run_suites_lem run (name ∷ names) total failed =
    run_suites_lem run names (total + 1)
      (if has_failed (run (suite_command name)) then failed + 1 else failed)
    ∙ elim (Bool-cases (has_failed (run (suite_command name)))) [
      | inl bad ↦ ground arith
      | inr good ↦ ground arith
    ]

-- The runner succeeds exactly when each of its suites returns 0.
test_runner_iff : (run : Bytes → ℤ) → (test_runner run ≡ 0) ↔ (failures run suites ≡ 0)
unfolding test_runner
test_runner_iff run =
    let e = run_suites_lem run suites 0 0 in ((λ h. ground arith), (λ h. ground arith))

-- What `system` returns for a program that exits with the status `n`.
abbrev wait_status : ℕ → ℤ
wait_status n = pos (n * 256)

-- With either build the runner returns 1, if `system` gives it the exit status of tests/test_auth.c.
pub test_runner-test_auth :
    (pbkdf2 : Bytes → Bytes → Bytes) (b : Build) (salts : ℕ → Bytes) (run : Bytes → ℤ)
    → run (codes "./build/test_auth")
      ≡ wait_status (exit_status (g_failed (test_auth pbkdf2 b salts)))
    → test_runner run ≡ 1
unfolding test_runner g_failed
test_runner-test_auth pbkdf2 b salts run h =
    let e = run_suites_lem run suites 0 0 in
    let bad : has_failed (run (codes "./build/test_auth")) ≡ true = ap has_failed h ∙ status b in
    ground arith
  where
    status :
        (b : Build)
        → has_failed (wait_status (exit_status (g_failed (test_auth pbkdf2 b salts)))) ≡ true
    status vulnerable =
        ap (λ l. has_failed (wait_status (exit_status (g_failed l)))) (test_auth_lem pbkdf2 salts).0
    status fixed =
        ap (λ l. has_failed (wait_status (exit_status (g_failed l)))) (test_auth_lem pbkdf2 salts).1
