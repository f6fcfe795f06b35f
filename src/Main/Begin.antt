-- ===== src/Main/Begin.antt =====
-- What passes the checks of `main` before the server starts.
use secure_ci_coding.Base.{
  ◌<◌, ◌≡◌, ◌≢◌, refl, sym, ap, ◌∙◌, arith, Bool, true, Option, Option-cases, inl, inr, none, some,
  List, [], ◌∷◌, Bytes, length, take_all,
}
use secure_ci_coding.Common.{Build, ℤ, max_path_len, max_username_len}
use secure_ci_coding.FileHandler.{file_handler_init}
use secure_ci_coding.Main.{State, Start, start}
use secure_ci_coding.Main.Options.{
  Settings, default_options, parse_args, user_ok, check_paths, check_user, go, begin,
}

checked_paths :
    (p o : Settings)
    → check_paths p ≡ go o
    → (p ≡ o)
      × (length p.config_path < max_path_len)
      × (length p.data_dir < max_path_len)
      × (length p.log_path < max_path_len)
checked_paths p o e = (ground (arith, e), ground (arith, e), ground (arith, e), ground (arith, e))

kept_dir :
    (exists made : Bytes → Bool) (dir old : Bytes)
    → dir ≢ []
    → length dir < max_path_len
    → (file_handler_init exists made (some dir) old).1 ≡ dir
unfolding file_handler_init
kept_dir exists made [] old some_byte short = absurd (some_byte refl)
kept_dir exists made (c ∷ dir) old some_byte short = take_all 511 (c ∷ dir) (omega arith)

-- The name in the environment, empty where there is none.
abbrev pub env_name : Option Bytes → Bytes
env_name none = []
env_name (some name) = name

short_name : (env : Option Bytes) → user_ok env ≡ true → length (env_name env) < max_username_len
short_name none e = omega arith
short_name (some name) e = ground (arith, e)

-- When `main` goes on to start the server with some options, whose data directory is not the empty
-- string, they are what the arguments gave, all three paths have less than 512 bytes, the name of the
-- environment, if there is one, has less than 64, and the server works in the given data directory,
-- whole.
pub begin_bounds :
    (atoi : Bytes → ℤ) (args : List Bytes) (env : Option Bytes) (o : Settings)
    (pbkdf2 : Bytes → Bytes → Bytes) (b : Build) (calls : Start) (s : State)
    → begin atoi args env ≡ go o
    → o.data_dir ≢ []
    → (parse_args atoi args default_options ≡ some o)
      × (length o.config_path < max_path_len)
      × (length o.data_dir < max_path_len)
      × (length o.log_path < max_path_len)
      × (length (env_name env) < max_username_len)
      × ((start pbkdf2 b calls o s).1.data_dir ≡ o.data_dir)
unfolding begin start
begin_bounds atoi args env o pbkdf2 b calls s e some_byte =
    elim (Option-cases (parse_args atoi args default_options)) [
      | inl helped ↦ ground (arith, e, helped)
      | inr (p, parsed) ↦
          let passed : check_user env (some p) ≡ go o = ap (check_user env) (sym parsed) ∙ e in
          let (same, config, dir, log) = checked_paths p o (ground (arith, passed)) in
          (
            parsed ∙ ap some same,
            ground (arith, config, same),
            ground (arith, dir, same),
            ground (arith, log, same),
            short_name env (ground (arith, passed)),
            kept_dir calls.exists calls.made o.data_dir s.data_dir some_byte
                (ground (arith, dir, same)),
          )
    ]
