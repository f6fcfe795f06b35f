-- ===== src/Examples/Suites.antt =====
-- The programs of tests/.
use secure_ci_coding.Base.{
  ℕ, ◌+◌, ◌≡◌, refl, true, false, some, none, [], ◌∷◌, Bytes, codes, same, if◌then◌else◌,
}
use secure_ci_coding.Common.{vulnerable, fixed, ℤ, pos}
use secure_ci_coding.Session.{Sessions, Environment}
use secure_ci_coding.FileHandler.Disk.{Disk}
use secure_ci_coding.Tests.{g_failed}
use secure_ci_coding.Tests.Auth.{test_auth, test_auth_lem}
use secure_ci_coding.Tests.Runner.{test_runner, test_runner-test_auth}
use secure_ci_coding.Tests.Security.{Answers, test_session_token_unpredictable}
use secure_ci_coding.Examples.Requests.{plain, sessions_of, willing}

abbrev no_salt : ℕ → Bytes
no_salt k = []

test_auth_lem_example :
    (test_auth plain vulnerable no_salt
      ≡ true ∷ true ∷ true ∷ false ∷ true ∷ true ∷ true ∷ true ∷ true ∷ true ∷ [])
    × (test_auth plain fixed no_salt
        ≡ false ∷ true ∷ true ∷ false ∷ true ∷ true ∷ true ∷ true ∷ true ∷ true ∷ [])
test_auth_lem_example = test_auth_lem plain no_salt

-- Only the first suite fails.
abbrev results : Bytes → ℤ
results command = if same command (codes "./build/test_auth") then pos 256 else pos 0

failing : g_failed (test_auth plain fixed no_salt) ≡ 2
unfolding g_failed
failing = rw (test_auth_lem plain no_salt).1 refl

test_runner-test_auth_example : test_runner results ≡ 1
unfolding same
test_runner-test_auth_example = test_runner-test_auth plain fixed no_salt results (rw failing refl)

-- The directory holds the three files and one more.
abbrev bare_disk : Disk
bare_disk = record {
  resolve = λ p. p;
  files = λ p. none;
  is_dir = λ p. same p (codes "/tmp/securefile_test");
}

abbrev creation : ℕ → Environment
creation k = record {
  urandom_id = some (some (k + 7));
  urandom_token = some (k ∷ []);
  rand = λ j. j;
  time = 1000;
  pid = 5;
  fresh = k + 40;
}

abbrev given : Answers
given = record { create = creation; now = 1200; salts = no_salt; system = willing; beyond = [] }

-- The table that the first test leaves.
abbrev left : Sessions
left = (test_session_token_unpredictable fixed (creation 0) (creation 1) (sessions_of 0)).1
