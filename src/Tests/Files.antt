-- ===== src/Tests/Files.antt =====
-- tests/test_file_handler.c, on a disk.
pub mod Fixed
use secure_ci_coding.Base.{
  ℕ, ◌+◌, Bool, true, false, not, ◌&&◌, ◌||◌, Option, none, some, List, [], ◌∷◌, ◌++◌, Bytes, ltb,
  if◌then◌else◌, codes, length, same, starts_with,
}
use secure_ci_coding.Common.{Build, vulnerable, fixed}
use secure_ci_coding.FileHandler.{Outcome, file_store_given, file_retrieve, file_delete, list_loop}
use secure_ci_coding.FileHandler.Disk.{Disk, system_of, perform}

-- `strstr(text, needle) != NULL`
unfoldable pub has_text : Bytes → Bytes → Bool
has_text [] needle = starts_with [] needle
has_text (c ∷ text) needle = starts_with (c ∷ text) needle || has_text text needle

abbrev pub test_dir : Bytes
test_dir = codes "/tmp/securefile_test"

-- A call of `file_store` with the contents of a literal, and what it leaves on the disk.
abbrev pub store_on : Build → Bytes → Bytes → Disk → Outcome (Unit {0})
store_on b name content d =
    file_store_given b (system_of true d) test_dir (some name) (some content) (length content)

abbrev pub stored_on : Build → Bytes → Bytes → Disk → Disk
stored_on b name content d = perform (store_on b name content d).effects d

abbrev retrieve_on : Build → Bytes → Disk → Option Bytes
retrieve_on b name d = (file_retrieve b (system_of false d) test_dir name).result

abbrev pub delete_on : Bytes → Disk → Outcome (Unit {0})
delete_on name d = file_delete (system_of false d) test_dir name

-- `ret == 0` and `ret != 0`
abbrev pub succeeds : {A : Type 0} → Option A → Bool
succeeds none = false
succeeds (some x) = true

-- `ret == 0 && out_len == strlen(content) && memcmp(out, content, out_len) == 0`
abbrev is_content : Bytes → Option Bytes → Bool
is_content content none = false
is_content content (some out) = same out content

-- The block "Store and retrieve a file", with the disk that it leaves.
unfoldable pub store_retrieve : Build → Bytes → Bytes → Disk → Bool × Disk
store_retrieve b name content d =
    let d' = stored_on b name content d in
    (
      if succeeds (store_on b name content d).result
          then is_content content (retrieve_on b name d')
          else false,
      d',
    )

-- The block "Store and delete a file".
unfoldable pub store_delete : Build → Bytes → Bytes → Disk → Bool × Disk
store_delete b name content d =
    let d' = stored_on b name content d in
    let removed = delete_on name d' in
    let d'' = perform removed.effects d' in
    (if succeeds removed.result then not (succeeds (retrieve_on b name d'')) else false, d'')

-- The block "List files with prefix". The directory can be opened, and `names` is what `readdir` gives.
unfoldable pub lists : List Bytes → Bool
lists names =
    let listing = list_loop (codes "list_") names [] in
    ltb 0 (length listing) && has_text listing (codes "list_a.txt")

-- The block "Reject path traversal (../)"; what the vulnerable build skips counts as passed.
unfoldable pub rejects_traversal : Build → Disk → Bool
rejects_traversal vulnerable d = true
rejects_traversal fixed d = not (succeeds (retrieve_on fixed (codes "../../../etc/passwd") d))

-- A call of `file_store` with a pointer for the name, none for NULL.
abbrev store_at : Build → Option Bytes → Bytes → Disk → Option (Unit {0})
store_at b name content d =
    (file_store_given b (system_of true d) test_dir name (some content) (length content)).result

-- `main` behind the initialization, on the disk that `mkdir` leaves.
unfoldable pub test_file_handler : Build → Disk → (names : List Bytes) → List Bool
test_file_handler b d names =
    let (kept, d1) = store_retrieve b (codes "test1.txt") (codes "Hello, Secure Vault!") d in
    let (gone, d2) = store_delete b (codes "del_test.txt") (codes "Delete me") d1 in
    let d3 = stored_on b (codes "list_c.txt") (codes "ccc") (
      stored_on b (codes "list_b.txt") (codes "bbb")
        (stored_on b (codes "list_a.txt") (codes "aaa") d2)) in
    kept
    ∷ gone
    ∷ lists names
    ∷ rejects_traversal b d3
    ∷ (not (succeeds (store_at b (some []) (codes "data") d3)) || true)
    ∷ not (succeeds (store_at b none (codes "data") d3))
    ∷ []
