-- ===== src/Examples/Programs.antt =====
-- Concrete inputs for the programs under src/vulnerable and src/fixed.
use secure_ci_coding.Base.{
  ◌<◌, ◌≤◌, ◌≡◌, ◌≢◌, ◌↔◌, min, refl, arith, true, false, some, List, [], ◌∷◌, ◌++◌, Bytes, codes,
  contains, starts_with, has_dotdot,
}
use secure_ci_coding.Common.{vulnerable, fixed, pos}
use secure_ci_coding.Auth.{zeros}
use secure_ci_coding.FileHandler.{System, reads}
use secure_ci_coding.Config.{shell, exec}
use secure_ci_coding.Demos.Overflow.{filename_max, parse_argument}
use secure_ci_coding.Demos.Overflow.Bounds.{parse_argument_overflow}
use secure_ci_coding.Demos.Lifetime.{Memory}
use secure_ci_coding.Demos.Lifetime.Safe.{
  Inv, Call, creates, destroys, validates, run, Allocated, run_no_fault,
}
use secure_ci_coding.Demos.Command.{
  exited, has_any, validate_backup_path, backup_argv, config_backup_checked, AllPlain,
  config_backup_vuln, config_backup_safe,
}
use secure_ci_coding.Demos.Traversal.{file_retrieve_fixed}
use secure_ci_coding.Demos.Tokens.{}

parse_argument_overflow_example :
    ((parse_argument vulnerable (codes "hello")).filename.extent ≡ min 5 1024)
    × ((filename_max < (parse_argument vulnerable (codes "hello")).filename.extent)
        ↔ (filename_max < 5))
    × ((parse_argument fixed (codes "hello")).filename.extent ≤ filename_max)
    × (((parse_argument fixed (codes "hello")).accepted ≡ true) ↔ (5 < filename_max))
parse_argument_overflow_example = parse_argument_overflow (codes "hello")

abbrev nothing_yet : Memory
nothing_yet = record {
  heap = λ p. record { session_id = 0; user_id = pos 0; expires_at = 0; active = false };
  live = λ p. false;
  slots = λ i. 0;
  count = 0;
  faults = [];
}

nothing-Inv : Inv nothing_yet
nothing-Inv = record {
  bounded = omega arith;
  alive = λ i h. absurd (omega arith);
  distinct = λ i j h k e. absurd (omega arith);
}

-- A session is created, destroyed and validated through the old pointer.
abbrev stale_calls : List Call
stale_calls = creates 10 5 (pos 42) ∷ destroys 10 ∷ validates 10 6 ∷ []

stale-Allocated : Allocated stale_calls nothing_yet
unfolding Allocated
stale-Allocated = ((omega arith, refl), (tt, (tt, tt)))

run_no_fault_example :
    Inv (run stale_calls nothing_yet) × ((run stale_calls nothing_yet).faults ≡ [])
run_no_fault_example = run_no_fault stale_calls nothing_yet nothing-Inv stale-Allocated

backup_runs : (config_backup_checked (exited 0) (some (codes "/backup"))).1 ≢ []
unfolding config_backup_checked validate_backup_path has_any contains
backup_runs e = ground (arith, e)

config_backup_safe_example :
    ((config_backup_checked (exited 0) (some (codes "/backup"))).1
      ≡ exec (backup_argv (codes "/backup")) ∷ [])
    × (1 ≤ 7)
    × (7 ≤ 512)
    × AllPlain (codes "/backup")
    × ((config_backup_checked (exited 0) (some (codes "/backup"))).0 ≡ true)
    × (config_backup_vuln (codes "/backup")
        ≡ shell (codes "cp -r /etc/securefile " ++ codes "/backup") ∷ [])
    × AllPlain (codes "cp -r /etc/securefile " ++ codes "/backup")
config_backup_safe_example = config_backup_safe (exited 0) (codes "/backup") backup_runs

abbrev plain_system : System
plain_system = record {
  realpath = λ p. some p;
  opens = λ p. true;
  fsize = λ p. 5;
  contents = λ p. codes "hello";
  fwrite = λ p n. n;
  malloc = λ n. true;
  unlink = λ p. true;
}

opened_inside :
    (file_retrieve_fixed plain_system (codes "a")).1 ≡ reads (codes "/tmp/secure_data/a") ∷ []
unfolding file_retrieve_fixed has_dotdot contains starts_with
opened_inside = refl

abbrev derive : Bytes → Bytes → Bytes
derive password salt = zeros 32
