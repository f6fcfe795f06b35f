-- ===== src/Logger.antt =====
-- src/logger.c: the log file and the lines written to it. The C library's `vfprintf`, from a format and
-- the arguments to the text, is the parameter `vfprintf`; the time is the text that `strftime` gives.
use secure_ci_coding.Base.{Bool, true, false, List, [], ◌∷◌, ◌++◌, Bytes, codes}
use secure_ci_coding.Common.{Build, vulnerable, fixed, LogLevel, debug, info, warn, error}

-- `g_log_fp`: NULL, stderr or the file that was opened.
pub data Target : Type 0 where
  unopened stderr file : Target

-- The target, and what was written to stderr and to the file.
pub record Log : Type 0 where
  pub target : Target
  pub on_stderr : Bytes
  pub in_file : Bytes

-- `opened` tells whether `fopen` succeeds; the result is whether 0 is returned.
unfoldable pub log_init : (opened : Bool) → Log → Bool × Log
log_init true log = (true, record log { target = file })
log_init false log = (false, record log { target = stderr })

abbrev level_str : LogLevel → Bytes
level_str debug = codes "DEBUG"
level_str info = codes "INFO"
level_str warn = codes "WARN"
level_str error = codes "ERROR"

-- The text of a message: the fixed build prints the format itself.
unfoldable message_text : (Bytes → List Bytes → Bytes) → Build → Bytes → List Bytes → Bytes
message_text vfprintf vulnerable format args = vfprintf format args
message_text vfprintf fixed format args = format

abbrev line_of :
    (Bytes → List Bytes → Bytes) → Build → (time : Bytes) → LogLevel → Bytes → List Bytes → Bytes
line_of vfprintf b time level format args =
    b'['
    ∷ (time
        ++ (codes "] ["
            ++ (level_str level
                ++ (codes "] " ++ (message_text vfprintf b format args ++ b'\n' ∷ [])))))

abbrev write : Bytes → Log → Log
write line log = elim log.target [
  | unopened ↦ record log { target = stderr; on_stderr = log.on_stderr ++ line }
  | stderr ↦ record log { on_stderr = log.on_stderr ++ line }
  | file ↦ record log { in_file = log.in_file ++ line }
]

unfoldable log_write :
    (Bytes → List Bytes → Bytes)
    → Build
    → (time : Bytes) → LogLevel
    → Bytes
    → List Bytes
    → Log
    → Log
log_write vfprintf b time level format args log =
    write (line_of vfprintf b time level format args) log

unfoldable pub log_close : Log → Log
log_close log = elim log.target [ file ↦ record log { target = unopened } | _ ↦ log ]
