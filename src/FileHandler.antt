-- ===== src/FileHandler.antt =====
-- src/file_handler.c and include/file_handler.h: storing, reading, deleting and listing files. The
-- operating system's answers come in as `System`; what a call does to the file system comes out as
-- its effect. Sizes are 64-bit.
pub mod Store
pub mod Retrieve
pub mod Listing
pub mod Disk
use secure_ci_coding.Base.{
  ℕ, zero, suc, ◌+◌, ◌-◌, ◌%◌, ◌^◌, ◌&&◌, ◌||◌, Bool, true, false, not, Option, none, some, List,
  [], ◌∷◌, ◌++◌, Bytes, ltb, leb, ◌==◌, if◌then◌else◌, take, drop, length, cstr, contains,
  starts_with, has_dotdot,
}
use secure_ci_coding.Common.{
  Build, vulnerable, fixed, Fault, buffer_overflow, max_filename_len, max_path_len,
  max_payload_size,
}

-- `file_handler_init`: the directory that is kept, and whether 0 is returned. `exists` tells whether
-- `stat` succeeds, and `made` whether `mkdir` does.
unfoldable pub file_handler_init :
    (exists made : Bytes → Bool) → Option Bytes → (data_dir : Bytes) → Bool × Bytes
file_handler_init exists made none data_dir = (exists data_dir || made data_dir, data_dir)
file_handler_init exists made (some []) data_dir = (exists data_dir || made data_dir, data_dir)
file_handler_init exists made (some (c ∷ dir)) data_dir =
    let kept = take (max_path_len - 1) (c ∷ dir) in (exists kept || made kept, kept)

-- What the system answers: `realpath`, whether `fopen` succeeds on a path, the size and the contents
-- of a file, how many bytes `fwrite` takes, whether `malloc` and `unlink` succeed.
pub record System : Type 0 where
  pub realpath : Bytes → Option Bytes
  pub opens : Bytes → Bool
  pub fsize : Bytes → ℕ
  pub contents : Bytes → Bytes
  pub fwrite : Bytes → ℕ → ℕ
  pub malloc : ℕ → Bool
  pub unlink : Bytes → Bool

pub data Effect : Type 0 where
  writes : Bytes → Bytes → Effect
  reads : Bytes → Effect
  removes : Bytes → Effect

-- The result (whether 0 is returned), the effects in order, and the faults.
pub record Outcome (A : Type 0) : Type 0 where
  pub result : Option A
  pub effects : List Effect
  pub faults : List Fault

abbrev refuse : {A : Type 0} → Outcome A
refuse = record { result = none; effects = []; faults = [] }

abbrev pub size_mod : ℕ
size_mod = 2 ^ 64

-- `snprintf(full_path, 512, "%s/%s", g_data_dir, filename)`
abbrev pub full_path : Bytes → Bytes → Bytes
full_path data_dir filename = take (max_path_len - 1) (data_dir ++ b'/' ∷ filename)

-- `size_t required = data_len + 1`
abbrev pub required : ℕ → ℕ
required data_len = (data_len + 1) % size_mod

-- The path up to its last '/', as `strrchr` finds it.
abbrev parent_at : ℕ → Option Bytes → Bytes → Option Bytes
parent_at c (some p) s = some (c ∷ p)
parent_at c none s = if c == b'/' then some [] else none

unfoldable pub parent : Bytes → Option Bytes
parent [] = none
parent (c ∷ s) = parent_at c (parent s) s

abbrev pub under : Bytes → Option Bytes → Bool
under data_dir none = true
under data_dir (some resolved) = starts_with resolved data_dir

-- The path check of `file_store` in the fixed build: the resolved file, or else its resolved
-- directory, must begin with the data directory; what resolves to nothing passes.
abbrev parent_ok : System → Bytes → Option Bytes → Bool
parent_ok sys data_dir none = true
parent_ok sys data_dir (some dir) = under data_dir (sys.realpath dir)

abbrev pub path_ok : System → Bytes → Bytes → Option Bytes → Bool
path_ok sys data_dir path (some resolved) = starts_with resolved data_dir
path_ok sys data_dir path none = parent_ok sys data_dir (parent path)

unfoldable pub store_checks : Build → System → Bytes → Bytes → Bool
store_checks vulnerable sys data_dir filename = true
store_checks fixed sys data_dir filename =
    ltb (length filename) max_filename_len
    && path_ok sys data_dir (full_path data_dir filename)
        (sys.realpath (full_path data_dir filename))

abbrev pub size_ok : Build → ℕ → Bool
size_ok vulnerable data_len = true
size_ok fixed data_len = not (data_len == 0 || ltb max_payload_size data_len)

-- The copy of `data_len` bytes and a NUL into the buffer of `required` bytes.
abbrev pub copy_faults : ℕ → List Fault
copy_faults data_len = if ltb (required data_len) (data_len + 1) then buffer_overflow ∷ [] else []

-- Opening, writing and closing the file.
unfoldable pub write_out : System → Bytes → Bytes → ℕ → List Fault → Outcome (Unit {0})
write_out sys path content data_len faults =
    if sys.opens path
    then record {
      result = if sys.fwrite path data_len == data_len then some tt else none;
      effects = writes path (take (sys.fwrite path data_len) content) ∷ [];
      faults = faults;
    }
    else record { result = none; effects = []; faults = faults }

-- `file_store` behind its test for NULL; `content` is the memory at `data`.
unfoldable pub file_store : Build → System → Bytes → Bytes → Bytes → ℕ → Outcome (Unit {0})
file_store b sys data_dir filename content data_len =
    if not (size_ok b data_len)
    then refuse
    else if not (sys.malloc (required data_len))
    then refuse
    else if store_checks b sys data_dir filename
    then write_out sys (full_path data_dir filename) (take data_len content) data_len
        (copy_faults data_len)
    else record { result = none; effects = []; faults = copy_faults data_len }

-- `file_store` on pointers, none for NULL.
unfoldable pub file_store_given :
    Build → System → Bytes → Option Bytes → Option Bytes → ℕ → Outcome (Unit {0})
file_store_given b sys data_dir none content data_len = refuse
file_store_given b sys data_dir (some filename) none data_len = refuse
file_store_given b sys data_dir (some filename) (some content) data_len =
    file_store b sys data_dir filename content data_len

-- Opening, measuring and reading a file. An error of `ftell` is a size of 0; a file that turns out
-- shorter than its size is refused.
abbrev pub read_in : System → Bytes → Outcome Bytes
read_in sys path =
    if sys.opens path
    then record {
      result =
          if sys.fsize path == 0 || ltb max_payload_size (sys.fsize path)
          then none
          else if leb (sys.fsize path) (length (sys.contents path))
          then some (take (sys.fsize path) (sys.contents path))
          else none;
      effects = reads path ∷ [];
      faults = [];
    }
    else refuse

-- The names that the fixed `file_retrieve` refuses.
abbrev pub name_ok : Bytes → Bool
name_ok filename =
    ltb (length filename) max_filename_len
    && not (has_dotdot filename || (contains b'/' filename || contains b'\\' filename))

abbrev pub read_resolved : System → Bytes → Option Bytes → Outcome Bytes
read_resolved sys data_dir none = refuse
read_resolved sys data_dir (some resolved) =
    if starts_with resolved data_dir then read_in sys resolved else refuse

unfoldable pub file_retrieve : Build → System → Bytes → Bytes → Outcome Bytes
file_retrieve vulnerable sys data_dir filename = read_in sys (full_path data_dir filename)
file_retrieve fixed sys data_dir filename =
    if name_ok filename
    then read_resolved sys data_dir (sys.realpath (full_path data_dir filename))
    else refuse

-- `file_delete` is the same in both builds.
unfoldable pub file_delete : System → Bytes → Bytes → Outcome (Unit {0})
file_delete sys data_dir filename =
    if sys.unlink (full_path data_dir filename)
    then record {
      result = some tt;
      effects = removes (full_path data_dir filename) ∷ [];
      faults = [];
    }
    else refuse

-- The tests of the loop of `file_list` on a directory entry.
abbrev pub is_listed : Bytes → Bytes → Bool
is_listed prefix [] = starts_with [] prefix
is_listed prefix (c ∷ name) = not (c == b'.') && starts_with (c ∷ name) prefix

-- The loop of `file_list` over the names that `readdir` gives, with the text written so far.
unfoldable pub list_loop : Bytes → List Bytes → Bytes → Bytes
list_loop prefix [] out = out
list_loop prefix (name ∷ names) out =
    let skipped = list_loop prefix names out in
    let listed = list_loop prefix names (out ++ (name ++ b'\n' ∷ [])) in
    if not (is_listed prefix name)
    then skipped
    else if ltb max_payload_size (length out + length name + 2)
    then out
    else listed

-- The text, to which a NUL is added; none when the directory cannot be opened.
unfoldable pub file_list : Bytes → Option (List Bytes) → Option Bytes
file_list prefix none = none
file_list prefix (some names) = some (list_loop prefix names [])
