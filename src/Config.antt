-- ===== src/Config.antt =====
-- src/config.c and include/config.h: the configuration as a linked list of entries, newest first.
-- The lines are what the successive calls of `fgets` give; memory for an entry may be refused.
pub mod Lines
pub mod File
use secure_ci_coding.Base.{
  ℕ, zero, suc, ◌+◌, ◌-◌, ◌&&◌, ◌||◌, Bool, true, false, not, Option, none, some, List, [], ◌∷◌,
  ◌++◌, Bytes, ◌==◌, if◌then◌else◌, take, drop, same, cstr, codes, index_of,
}
use secure_ci_coding.Common.{Build, vulnerable, fixed, ℤ, max_config_line}

-- `config_entry_t`, its two arrays as the strings in them.
pub record Entry : Type 0 where
  pub key : Bytes
  pub value : Bytes

abbrev pub is_blank : ℕ → Bool
is_blank c = c == b' ' || c == b'\t'

abbrev pub is_space : ℕ → Bool
is_space c = is_blank c || (c == b'\n' || c == b'\r')

-- `while (*key == ' ' || *key == '\t') key++`
unfoldable pub skip_blanks : Bytes → Bytes
skip_blanks [] = []
skip_blanks (c ∷ s) = if is_blank c then skip_blanks s else c ∷ s

-- The string less the white space at its end.
abbrev cut_at : ℕ → Bytes → Bytes
cut_at c [] = if is_space c then [] else c ∷ []
cut_at c (d ∷ r) = c ∷ d ∷ r

unfoldable pub cut_spaces : Bytes → Bytes
cut_spaces [] = []
cut_spaces (c ∷ s) = cut_at c (cut_spaces s)

-- `while (kend > key && ...)` stops at the first byte, which is never cut.
abbrev pub trim_end : Bytes → Bytes
trim_end [] = []
trim_end (c ∷ s) = c ∷ cut_spaces s

abbrev pub is_skipped : Bytes → Bool
is_skipped [] = false
is_skipped (c ∷ s) = c == b'#' || (c == b'\n' || c == b'\r')

-- `strncpy` into a cleared array of 1024 bytes.
abbrev pub field : Bytes → Bytes
field s = take (max_config_line - 1) s

abbrev entry_of : Bytes → ℕ → Entry
entry_of line eq = record {
  key = field (trim_end (skip_blanks (take eq line)));
  value = field (trim_end (skip_blanks (drop (suc eq) line)));
}

abbrev pub add_entry : (memory : Bool) → Bytes → Option ℕ → List Entry → List Entry
add_entry memory line none entries = entries
add_entry memory line (some eq) entries = if memory then entry_of line eq ∷ entries else entries

-- One round of the loop of `config_load` on a line; `memory` tells whether `calloc` succeeds.
unfoldable pub load_line : (memory : Bool) → Bytes → List Entry → List Entry
load_line memory line entries =
    if is_skipped (cstr line)
    then entries
    else add_entry memory (cstr line) (index_of b'=' (cstr line)) entries

unfoldable pub load_lines : List (Bool × Bytes) → List Entry → List Entry
load_lines [] entries = entries
load_lines ((memory, line) ∷ lines) entries = load_lines lines (load_line memory line entries)

-- `config_load`: none for a file that cannot be opened (-1).
unfoldable pub config_load : Option (List (Bool × Bytes)) → List Entry → Option (List Entry)
config_load none entries = none
config_load (some lines) entries = some (load_lines lines entries)

unfoldable pub config_find : Bytes → List Entry → Option Entry
config_find key [] = none
config_find key (e ∷ entries) = if same e.key key then some e else config_find key entries

unfoldable pub config_get : Bytes → Option Bytes → List Entry → Option Bytes
config_get key default_val entries = elim (config_find key entries) [
  | none ↦ default_val
  | some e ↦ some e.value
]

-- The C library's `atoi` is the parameter.
unfoldable config_get_int : (Bytes → ℤ) → Bytes → ℤ → List Entry → ℤ
config_get_int atoi key default_val entries = elim (config_get key none entries) [
  | none ↦ default_val
  | some v ↦ atoi v
]

-- What `config_backup` has the system run: a line for the shell, or a program with its arguments.
pub data Command : Type 0 where
  shell : Bytes → Command
  exec : List Bytes → Command

unfoldable pub config_backup : Build → Bytes → Command
config_backup vulnerable dest_path = shell (take 1023 (codes "cp -r /etc/securefile " ++ dest_path))
config_backup fixed dest_path =
    exec (codes "cp" ∷ codes "-r" ∷ codes "/etc/securefile" ∷ dest_path ∷ [])

unfoldable pub config_free : List Entry → List Entry
config_free entries = []
