-- ===== src/Main/Options.antt =====
-- The arguments and the environment of `main` in src/main.c.
use secure_ci_coding.Base.{
  ◌||◌, Bool, true, false, Option, none, some, List, [], ◌∷◌, Bytes, leb, if◌then◌else◌, length,
  same, codes,
}
use secure_ci_coding.Common.{ℤ, pos, max_path_len, max_username_len}

pub record Settings : Type 0 where
  pub port : ℤ
  pub config_path : Bytes
  pub data_dir : Bytes
  pub log_path : Bytes

-- DEFAULT_PORT and the other values before the arguments are read.
abbrev pub default_options : Settings
default_options = record {
  port = pos 9000;
  config_path = codes "config.ini";
  data_dir = codes "/tmp/securefile_data";
  log_path = codes "securefile.log";
}

abbrev takes_value : Bytes → Bool
takes_value a =
    same a (codes "-p") || (same a (codes "-c") || (same a (codes "-d") || same a (codes "-l")))

-- The option `a` with the value `v`; the C library's `atoi` is the parameter.
abbrev set_option : (Bytes → ℤ) → Bytes → Bytes → Settings → Settings
set_option atoi a v o =
    if same a (codes "-p")
    then record o { port = atoi v }
    else if same a (codes "-c")
    then record o { config_path = v }
    else if same a (codes "-d")
    then record o { data_dir = v }
    else record o { log_path = v }

-- The loop over the arguments behind the name of the program; none for `-h`. An option that takes a
-- value and stands last is passed over, as is what is no option.
unfoldable pub parse_args : (Bytes → ℤ) → List Bytes → Settings → Option Settings
parse_args atoi [] o = some o
parse_args atoi (a ∷ []) o = if same a (codes "-h") then none else some o
parse_args atoi (a ∷ v ∷ rest) o =
    let next = parse_args atoi rest (set_option atoi a v o) in
    let skip = parse_args atoi (v ∷ rest) o in
    if takes_value a then next else if same a (codes "-h") then none else skip

-- What `main` does before it starts the server: exit with a status, or go on with options.
pub data Begin : Type 0 where
  help too_long_user too_long_path : Begin
  go : Settings → Begin

abbrev pub user_ok : Option Bytes → Bool
user_ok none = true
user_ok (some name) = elim (leb max_username_len (length name)) [ true ↦ false | false ↦ true ]

abbrev is_long : Bytes → Bool
is_long path = leb max_path_len (length path)

abbrev pub check_paths : Settings → Begin
check_paths o =
    if is_long o.config_path || (is_long o.data_dir || is_long o.log_path)
    then too_long_path
    else go o

abbrev pub check_user : Option Bytes → Option Settings → Begin
check_user env none = help
check_user env (some o) = if user_ok env then check_paths o else too_long_user

-- `env` is SECUREFILE_ADMIN_USER, if it is set.
unfoldable pub begin : (Bytes → ℤ) → List Bytes → (env : Option Bytes) → Begin
begin atoi args env = check_user env (parse_args atoi args default_options)
