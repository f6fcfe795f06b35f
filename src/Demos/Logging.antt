-- ===== src/Demos/Logging.antt =====
-- 02_format_string.c and 02_format_string_fixed.c: a log line from a level and a message. The C
-- library's `vprintf`, from a format and the arguments to the text, is the parameter `vprintf`.
use secure_ci_coding.Base.{
  ℕ, ◌-◌, ◌%◌, ◌≡◌, refl, ap, List, [], ◌∷◌, ◌++◌, append_assoc, Bytes, ◌==◌, if◌then◌else◌, codes,
}
use secure_ci_coding.Common.{ℤ, pos, negsuc}

-- `level & 3` on a two's complement `int`.
abbrev level_index : ℤ → ℕ
level_index (pos n) = n % 4
level_index (negsuc n) = 3 - n % 4

-- `levels[level & 3]`
unfoldable level_name : ℤ → Bytes
level_name level =
    let i = level_index level in
    if i == 0
    then codes "DEBUG"
    else if i == 1
    then codes "INFO"
    else if i == 2
    then codes "WARN"
    else codes "ERROR"

abbrev heading : ℤ → Bytes
heading level = b'[' ∷ (level_name level ++ codes "] ")

module _ (vprintf : Bytes → List Bytes → Bytes) where
  -- `log_write_vuln`: the text on stdout.
  unfoldable log_write_vuln : ℤ → Bytes → List Bytes → Bytes
  log_write_vuln level format args = heading level ++ (vprintf format args ++ b'\n' ∷ [])

  -- `log_write_fixed` of the fixed file has the same body, and an attribute for the compiler.
  unfoldable log_write_fixed : ℤ → Bytes → List Bytes → Bytes
  log_write_fixed level format args = heading level ++ (vprintf format args ++ b'\n' ∷ [])

  -- `log_write_str` of the fixed file.
  unfoldable log_write_str : ℤ → Bytes → Bytes
  log_write_str level msg = log_write_fixed level (codes "%s") (msg ∷ [])

-- `log_write_fixed` of the vulnerable file: `printf("[%s] %s\n", ...)`.
unfoldable log_write_message : ℤ → Bytes → Bytes
log_write_message level msg = heading level ++ (msg ++ b'\n' ∷ [])

-- Where `vprintf` gives the argument for the format "%s", as C says, the string logger of the fixed file
-- and the comparison variant of the vulnerable file print the same line for every level and message,
-- and the message stands in it as it is, whatever format specifiers it contains.
log_write_str_verbatim :
    (vprintf : Bytes → List Bytes → Bytes)
    → ((m : Bytes) → vprintf (codes "%s") (m ∷ []) ≡ m)
    → (level : ℤ) (msg : Bytes)
    → (log_write_str vprintf level msg ≡ log_write_message level msg)
      × (log_write_message level msg
          ≡ (b'[' ∷ level_name level) ++ (codes "] " ++ (msg ++ b'\n' ∷ [])))
unfolding log_write_str log_write_fixed log_write_message
log_write_str_verbatim vprintf verbatim level msg =
    let line = ap (λ t. heading level ++ (t ++ b'\n' ∷ [])) (verbatim msg) in
    (line, ap (◌∷◌ b'[') (append_assoc (level_name level) (codes "] ") (msg ++ b'\n' ∷ [])))

-- `main` of the two files: the lines they log for an argument, and for none.
unfoldable main_vuln : (Bytes → List Bytes → Bytes) → List Bytes → List Bytes
main_vuln vprintf [] = []
main_vuln vprintf (arg ∷ args) =
    log_write_vuln vprintf (pos 1) arg [] ∷ log_write_message (pos 1) arg ∷ []

abbrev user_input : List Bytes → Bytes
user_input [] = codes "%x.%x.%x.%x.%n"
user_input (arg ∷ args) = arg

unfoldable main_fixed : (Bytes → List Bytes → Bytes) → List Bytes → List Bytes
main_fixed vprintf args =
    log_write_fixed vprintf (pos 1) (codes "File uploaded: %s") (user_input args ∷ [])
    ∷ log_write_str vprintf (pos 1) (user_input args)
    ∷ []

-- Where `vprintf` gives the argument for the format "%s", alone and behind other text without a specifier, the lines of the
-- fixed program hold its input as it is, the default one with its specifiers too.
main_verbatim :
    (vprintf : Bytes → List Bytes → Bytes) (args : List Bytes)
    → ((m : Bytes) → vprintf (codes "%s") (m ∷ []) ≡ m)
    → ((m : Bytes) → vprintf (codes "File uploaded: %s") (m ∷ []) ≡ codes "File uploaded: " ++ m)
    → main_fixed vprintf args
      ≡ log_write_message (pos 1) (codes "File uploaded: " ++ user_input args)
        ∷ log_write_message (pos 1) (user_input args)
        ∷ []
unfolding main_fixed log_write_str log_write_fixed log_write_message
main_verbatim vprintf args alone behind =
    rw (alone (user_input args), behind (user_input args)) refl
