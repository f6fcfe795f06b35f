-- ===== src/Demos/Command.antt =====
-- 07_command_injection.c and 07_command_injection_fixed.c: a backup by a command that takes a path.
use secure_ci_coding.Base.{
  ℕ, zero, suc, ◌≤◌, ◌≡◌, ◌≢◌, inl, inr, refl, ap, ◌∙◌, arith, Bool, true, false, Bool-cases, not,
  ◌&&◌, ◌||◌, Option, none, some, List, [], ◌∷◌, ◌++◌, Bytes, ltb, ◌==◌, if◌then◌else◌, length,
  length-append, take, take_all, codes, contains,
}
use secure_ci_coding.Config.{Command, shell, exec}

-- `";|&`$(){}[]<>!\\\"'"`
abbrev metacharacters : Bytes
metacharacters = codes ";|&`$(){}[]<>!\\\"'"

-- `strpbrk(s, set) != NULL`
unfoldable pub has_any : Bytes → Bytes → Bool
has_any set [] = false
has_any set (c ∷ s) = contains c set || has_any set s

-- Whether 0 is returned.
unfoldable pub validate_backup_path : Option Bytes → Bool
validate_backup_path none = false
validate_backup_path (some path) =
    not (length path == 0) && (not (has_any metacharacters path) && not (ltb 512 (length path)))

-- What becomes of the child: `fork` fails, or the child exits with a code (127 where `execvp` fails), or
-- it ends otherwise.
pub data Child : Type 0 where
  not_forked : Child
  exited : ℕ → Child
  ended : Child

abbrev pub backup_argv : Bytes → List Bytes
backup_argv dest_path = codes "cp" ∷ codes "-r" ∷ codes "/etc/securefile" ∷ dest_path ∷ []

abbrev run_child : Child → Bytes → Bool × List Command
run_child not_forked dest_path = (false, [])
run_child (exited code) dest_path = (code == 0, exec (backup_argv dest_path) ∷ [])
run_child ended dest_path = (false, exec (backup_argv dest_path) ∷ [])

-- `config_backup_fixed` of the fixed file: whether 0 is returned, and the commands run.
unfoldable pub config_backup_checked : Child → Option Bytes → Bool × List Command
config_backup_checked child none = (false, [])
config_backup_checked child (some path) =
    if validate_backup_path (some path) then run_child child path else (false, [])

-- `config_backup_fixed` of the vulnerable file returns nothing.
unfoldable config_backup_fixed : Child → Bytes → List Command
config_backup_fixed child dest_path = (run_child child dest_path).1

-- `config_backup_vuln`: the line for the shell, in an array of 1024 bytes.
unfoldable pub config_backup_vuln : Bytes → List Command
config_backup_vuln dest_path = shell (take 1023 (codes "cp -r /etc/securefile " ++ dest_path)) ∷ []

any-append :
    (set s t : Bytes) → has_any set s ≡ false → has_any set t ≡ false → has_any set (s ++ t) ≡ false
unfolding has_any
any-append set [] t h k = k
any-append set (c ∷ s) t h k = ground (arith, any-append set s t)

prefix_clean : has_any metacharacters (codes "cp -r /etc/securefile ") ≡ false
unfolding has_any contains
prefix_clean = refl

-- A byte that is none of ; | & ` $ ( ) { } [ ] < > ! \ " '
abbrev pub IsPlain : ℕ → Type 0
IsPlain c =
    (c ≢ b';')
    × (c ≢ b'|')
    × (c ≢ b'&')
    × (c ≢ b'`')
    × (c ≢ b'$')
    × (c ≢ b'(')
    × (c ≢ b')')
    × (c ≢ b'{')
    × (c ≢ b'}')
    × (c ≢ b'[')
    × (c ≢ b']')
    × (c ≢ b'<')
    × (c ≢ b'>')
    × (c ≢ b'!')
    × (c ≢ b'\\')
    × (c ≢ b'"')
    × (c ≢ b'\'')

abbrev pub AllPlain : Bytes → Type 0
AllPlain [] = Unit
AllPlain (c ∷ s) = IsPlain c × AllPlain s

plain : (c : ℕ) → contains c metacharacters ≡ false → IsPlain c
unfolding contains
plain c h = (
  ground arith,
  ground arith,
  ground arith,
  ground arith,
  ground arith,
  ground arith,
  ground arith,
  ground arith,
  ground arith,
  ground arith,
  ground arith,
  ground arith,
  ground arith,
  ground arith,
  ground arith,
  ground arith,
  ground arith,
)

all_plain : (s : Bytes) → has_any metacharacters s ≡ false → AllPlain s
unfolding has_any
all_plain [] h = tt
all_plain (c ∷ s) h = (plain c (ground arith), all_plain s (ground arith))

ran_valid :
    (child : Child) (path : Bytes)
    → (config_backup_checked child (some path)).1 ≢ []
    → config_backup_checked child (some path) ≡ run_child child path
      × (validate_backup_path (some path) ≡ true)
unfolding config_backup_checked
ran_valid child path ran = elim (Bool-cases (validate_backup_path (some path))) [
  | inl ok ↦ (rw ok refl, ok)
  | inr bad ↦ absurd (ran (rw bad refl))
]

abbrev exits_with_zero : Child → Bool
exits_with_zero (exited zero) = true
exits_with_zero (exited (suc n)) = false
exits_with_zero not_forked = false
exits_with_zero ended = false

ran_command :
    (child : Child) (path : Bytes)
    → (run_child child path).1 ≢ []
    → ((run_child child path).1 ≡ exec (backup_argv path) ∷ [])
      × ((run_child child path).0 ≡ exits_with_zero child)
ran_command not_forked path ran = absurd (ran refl)
ran_command (exited zero) path ran = (refl, refl)
ran_command (exited (suc n)) path ran = (refl, ground arith)
ran_command ended path ran = (refl, refl)

-- The fixed program runs a command only for a path of 1 to 512 bytes that has none of the characters
-- ; | & ` $ ( ) { } [ ] < > ! \ " ' and then runs `cp` with the path as one argument; it reports success
-- exactly where the child exits with 0. For such a path the shell line of the vulnerable program is not
-- cut and has none of these characters either. A newline, a space and a tab are not among them.
pub config_backup_safe :
    (child : Child) (path : Bytes)
    → (config_backup_checked child (some path)).1 ≢ []
    → ((config_backup_checked child (some path)).1 ≡ exec (backup_argv path) ∷ [])
      × (1 ≤ length path)
      × (length path ≤ 512)
      × AllPlain path
      × ((config_backup_checked child (some path)).0 ≡ exits_with_zero child)
      × (config_backup_vuln path ≡ shell (codes "cp -r /etc/securefile " ++ path) ∷ [])
      × AllPlain (codes "cp -r /etc/securefile " ++ path)
unfolding config_backup_vuln validate_backup_path
config_backup_safe child path ran =
    let (e, ok) = ran_valid child path ran in
    let clean : has_any metacharacters path ≡ false = ground (arith, ok) in
    let short : length path ≤ 512 = ground (arith, ok) in
    let (command, success) =
      ran_command child path (λ none_run. ran (ap (λ r. r.1) e ∙ none_run)) in
    (
      ap (λ r. r.1) e ∙ command,
      ground (arith, ok),
      short,
      all_plain path clean,
      ap (λ r. r.0) e ∙ success,
      ap (λ t. shell t ∷ [])
          (take_all 1023 (codes "cp -r /etc/securefile " ++ path)
            (omega (arith, length-append (codes "cp -r /etc/securefile ") path))),
      all_plain (codes "cp -r /etc/securefile " ++ path)
          (any-append metacharacters (codes "cp -r /etc/securefile ") path prefix_clean clean),
    )

-- `main` of the two files, on the arguments behind the program's name: the commands run, in order.
unfoldable main_vuln : Child → List Bytes → List Command
main_vuln child [] = []
main_vuln child (path ∷ args) = config_backup_vuln path ++ config_backup_fixed child path

unfoldable main_fixed : Child → List Bytes → List Command
main_fixed child [] = []
main_fixed child (path ∷ args) = (config_backup_checked child (some path)).1

-- Whatever its arguments are, the fixed program runs no shell, and at most one command: `cp` with its first argument, which
-- has 1 to 512 bytes and none of those characters.
main_runs :
    (child : Child) (args : List Bytes)
    → main_fixed child args ≢ []
    → (path : Bytes) × (rest : List Bytes) × (args ≡ path ∷ rest)
      × (main_fixed child args ≡ exec (backup_argv path) ∷ [])
      × (1 ≤ length path)
      × (length path ≤ 512)
      × AllPlain path
unfolding main_fixed
main_runs child [] ran = absurd (ran refl)
main_runs child (path ∷ rest) ran =
    let safe = config_backup_safe child path ran in
    (path, rest, refl, safe.0, safe.1, safe.2, safe.3)
