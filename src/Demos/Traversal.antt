-- ===== src/Demos/Traversal.antt =====
-- 08_path_traversal.c and 08_path_traversal_fixed.c: reading a file of a directory by its name. The
-- system's answers come in as `System`; the text that is printed does not matter here. PATH_MAX is
-- 4096, so the fixed program's path is never cut.
use secure_ci_coding.Base.{
  ℕ, ◌≤◌, ◌≡◌, inl, inr, refl, ap, ◌∙◌, arith, Bool, true, false, Option-cases, not, ◌&&◌, ◌||◌,
  Option, none, some, List, [], ◌∷◌, ◌++◌, Bytes, ltb, ◌==◌, if◌then◌else◌, length, take, codes,
  contains, starts_with, has_dotdot,
}
use secure_ci_coding.FileHandler.{System, Effect, reads, path_ok, under}

-- Whether 0 is returned, and what is opened for reading.
abbrev Read : Type 0
Read = Bool × List Effect

abbrev refuse : Read
refuse = (false, [])

abbrev open_at : System → Bytes → Read
open_at sys path = if sys.opens path then (true, reads path ∷ []) else refuse

-- `base_dir` of the vulnerable function, and of the others.
abbrev files_dir : Bytes
files_dir = codes "/data/files"

abbrev base_dir : Bytes
base_dir = codes "/tmp/secure_data"

unfoldable file_retrieve_vuln : System → Bytes → Read
file_retrieve_vuln sys filename = open_at sys (take 511 (files_dir ++ b'/' ∷ filename))

-- No "..", no '/' and no backslash.
abbrev is_plain : Bytes → Bool
is_plain filename = not (has_dotdot filename || (contains b'/' filename || contains b'\\' filename))

abbrev open_resolved : System → Option Bytes → Read
open_resolved sys none = refuse
open_resolved sys (some resolved) =
    if starts_with resolved base_dir then open_at sys resolved else refuse

-- `file_retrieve_fixed` of the vulnerable file.
unfoldable file_retrieve_resolved : System → Bytes → Read
file_retrieve_resolved sys filename =
    if is_plain filename
    then open_resolved sys (sys.realpath (take 511 (base_dir ++ b'/' ∷ filename)))
    else refuse

abbrev first_is : ℕ → Bytes → Bool
first_is c [] = false
first_is c (d ∷ s) = d == c

-- `file_retrieve_fixed` of the fixed file. A path that does not resolve passes where its directory
-- resolves to a place under the base, or not at all.
unfoldable pub file_retrieve_fixed : System → Bytes → Read
file_retrieve_fixed sys filename =
    let path = base_dir ++ b'/' ∷ filename in
    if length filename == 0 || ltb 255 (length filename)
    then refuse
    else if is_plain filename && not (first_is b'~' filename || first_is b'.' filename)
    then (if path_ok sys base_dir path (sys.realpath path) then open_at sys path else refuse)
    else refuse

resolved_ok :
    (sys : System) (path : Bytes) (r : Option Bytes)
    → path_ok sys base_dir path r ≡ true
    → under base_dir r ≡ true
resolved_ok sys path none ok = refl
resolved_ok sys path (some resolved) ok = ok

-- What the fixed program opens is the file of that name in its directory, for a name of 1 to 255 bytes
-- without "..", '/' or backslash that begins neither with '~' nor with '.'; and where the path
-- resolves, the resolved path begins with that of the directory.
file_retrieve_inside :
    (sys : System) (filename path : Bytes)
    → (file_retrieve_fixed sys filename).1 ≡ reads path ∷ []
    → (path ≡ base_dir ++ b'/' ∷ filename)
      × (1 ≤ length filename)
      × (length filename ≤ 255)
      × (is_plain filename ≡ true)
      × (first_is b'~' filename ≡ false)
      × (first_is b'.' filename ≡ false)
      × (under base_dir (sys.realpath path) ≡ true)
unfolding file_retrieve_fixed
file_retrieve_inside sys filename path e =
    let full = base_dir ++ b'/' ∷ filename in
    let at : path ≡ full = ground (arith, e) in
    let ok : path_ok sys base_dir full (sys.realpath full) ≡ true = ground (arith, e) in
    (
      at,
      ground (arith, e),
      ground (arith, e),
      ground (arith, e),
      ground (arith, e),
      ground (arith, e),
      ap (λ p. under base_dir (sys.realpath p)) at ∙ resolved_ok sys full (sys.realpath full) ok,
    )

-- What the repaired function of the vulnerable file opens is what `realpath` gave, and begins with the
-- path of the directory; the vulnerable one, where the path fits its array and opens, opens the
-- directory's path with the name behind it, whatever the name.
file_retrieve_resolved_inside :
    (sys : System) (filename path : Bytes)
    → (file_retrieve_resolved sys filename).1 ≡ reads path ∷ []
    → (starts_with path base_dir ≡ true)
      × (is_plain filename ≡ true)
      × (sys.realpath (take 511 (base_dir ++ b'/' ∷ filename)) ≡ some path)
unfolding file_retrieve_resolved
file_retrieve_resolved_inside sys filename path e =
    elim (Option-cases (sys.realpath (take 511 (base_dir ++ b'/' ∷ filename)))) [
      | inl missing ↦ ground (arith, e, missing)
      | inr (r, found) ↦
          let same : r ≡ path = ground (arith, e, found) in
          (ground (arith, e, found), ground (arith, e, found), found ∙ ap some same)
    ]

-- `main` of the two files, on the arguments behind the program's name: what is opened, in order.
unfoldable main_vuln : System → List Bytes → List Effect
main_vuln sys [] = []
main_vuln sys (name ∷ args) = (file_retrieve_vuln sys name).1 ++ (file_retrieve_resolved sys name).1

unfoldable main_fixed : System → List Bytes → List Effect
main_fixed sys [] = []
main_fixed sys (name ∷ args) = (file_retrieve_fixed sys name).1
