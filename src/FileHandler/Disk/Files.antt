-- ===== src/FileHandler/Disk/Files.antt =====
-- What storing, reading and deleting a file do at a place of a disk.
use secure_ci_coding.Base.{
  ◌+◌, ◌≤◌, ◌<◌, ◌≡◌, ◌≢◌, refl, ap, ◌∙◌, arith, Bool, true, false, ◌||◌, Option, none, some, [],
  ◌∷◌, ◌++◌, Bytes, Bool-cases, inl, inr, same, same_iff, same_refl, take_all, length,
  length-append, contains, starts_with, ltb, leb, ◌==◌,
}
use secure_ci_coding.Common.{
  Build, vulnerable, fixed, max_path_len, max_filename_len, max_payload_size,
}
use secure_ci_coding.FileHandler.{
  writes, full_path, size_ok, copy_faults, parent, store_checks, write_out, file_store,
  file_retrieve, file_delete, name_ok, read_in,
}
use secure_ci_coding.FileHandler.Disk.{
  Disk, exists, has_directory, system_of, put, perform, IsPlace, put-IsPlace, perform-IsPlace,
}

pub starts_with-append : (s t : Bytes) → starts_with (s ++ t) s ≡ true
unfolding starts_with
starts_with-append [] t = refl
starts_with-append (c ∷ s) t = ground (arith, starts_with-append s t)

starts_with_refl : (s : Bytes) → starts_with s s ≡ true
unfolding starts_with
starts_with_refl [] = refl
starts_with_refl (c ∷ s) = ground (arith, starts_with_refl s)

-- A name without '/' has no parent, and a file of a directory has the directory.
parent_name : (name : Bytes) → contains b'/' name ≡ false → parent name ≡ none
unfolding parent contains
parent_name [] h = refl
parent_name (c ∷ name) h = let rest = parent_name name (ground arith) in ground (arith, rest)

parent_file :
    (dir name : Bytes) → contains b'/' name ≡ false → parent (dir ++ b'/' ∷ name) ≡ some dir
unfolding parent
parent_file [] name h = rw (parent_name name h) refl
parent_file (c ∷ dir) name h = rw (parent_file dir name h) refl

or_true : (t : Bool) → (t || true) ≡ true
or_true true = refl
or_true false = refl

-- Reading a file of 1 byte to 16 MB gives its contents.
read_found :
    (d : Disk) (path content : Bytes)
    → d.files (d.resolve path) ≡ some content
    → 0 < length content
    → length content ≤ max_payload_size
    → (read_in (system_of false d) path).result ≡ some content
read_found d path content at some_byte fits =
    let nonempty : (length content == 0) ≡ false = ground arith in
    let not_large : ltb max_payload_size (length content) ≡ false = ground arith in
    let all : leb (length content) (length content) ≡ true = ground arith in
    rw (at, nonempty, not_large, all, take_all (length content) content (omega arith)) refl

-- What is not there is not read.
read_missing :
    (d : Disk) (path : Bytes)
    → d.files (d.resolve path) ≡ none
    → (read_in (system_of false d) path).result ≡ none
read_missing d path at = rw at (ground arith)

has_directory_lem :
    (d : Disk) (dir : Bytes)
    → d.resolve dir ≡ dir
    → d.is_dir dir ≡ true
    → has_directory d (some dir) ≡ true
has_directory_lem d [] e h = refl
has_directory_lem d (c ∷ dir) e h = ap d.is_dir e ∙ h

module _ (d : Disk) (data_dir name : Bytes) (good : name_ok name ≡ true)
    (short : length data_dir + length name + 1 < max_path_len) (fit : IsPlace d data_dir name) where
  abbrev pub path : Bytes
  path = data_dir ++ b'/' ∷ name

  pub whole : full_path data_dir name ≡ data_dir ++ b'/' ∷ name
  whole =
      take_all 511 (data_dir ++ b'/' ∷ name) (omega (arith, length-append data_dir (b'/' ∷ name)))

  in_directory : parent (data_dir ++ b'/' ∷ name) ≡ some data_dir
  in_directory = parent_file data_dir name (ground arith)

  -- The checks of `file_store` pass.
  checks : store_checks fixed (system_of true d) data_dir name ≡ true
  unfolding store_checks
  checks =
      let fits_name : ltb (length name) max_filename_len ≡ true = ground arith in
      elim (Bool-cases (exists (d.files (data_dir ++ b'/' ∷ name)))) [
        | inl there ↦
            rw (whole, fit.place, there, fits_name, starts_with-append data_dir (b'/' ∷ name)) refl
        | inr absent ↦
            rw
              (
                whole,
                fit.place,
                absent,
                fit.no_directory,
                in_directory,
                fit.canonical,
                fit.directory,
                fits_name,
                or_true (exists (d.files data_dir)),
                starts_with_refl data_dir,
              )
              refl
      ]

  opens_place : (system_of true d).opens (data_dir ++ b'/' ∷ name) ≡ true
  opens_place =
      rw
        (
          fit.place,
          fit.no_directory,
          in_directory,
          has_directory_lem d data_dir fit.canonical fit.directory,
          or_true (exists (d.files (data_dir ++ b'/' ∷ name))),
        )
        refl

  pub stores :
      (content : Bytes)
      → 0 < length content
      → length content ≤ max_payload_size
      → file_store fixed (system_of true d) data_dir name content (length content)
        ≡ record { result = some tt; effects = writes path content ∷ []; faults = [] }
  unfolding file_store write_out
  stores content some_byte fits =
      let sized : size_ok fixed (length content) ≡ true = ground arith in
      let no_wrap : copy_faults (length content) ≡ [] = ground arith in
      let same_length : (length content == length content) ≡ true = ground arith in
      rw
        (
          sized,
          checks,
          no_wrap,
          whole,
          opens_place,
          take_all (length content) content (omega arith),
          take_all (length content) content (omega arith),
          same_length,
        )
        refl

  -- The vulnerable build stores the same.
  stores_vulnerable :
      (content : Bytes)
      → length content ≤ max_payload_size
      → file_store vulnerable (system_of true d) data_dir name content (length content)
        ≡ record { result = some tt; effects = writes path content ∷ []; faults = [] }
  unfolding file_store write_out store_checks
  stores_vulnerable content fits =
      let no_wrap : copy_faults (length content) ≡ [] = ground arith in
      let same_length : (length content == length content) ≡ true = ground arith in
      rw
        (
          no_wrap,
          whole,
          opens_place,
          take_all (length content) content (omega arith),
          take_all (length content) content (omega arith),
          same_length,
        )
        refl

  -- Where the disk has a file at the path, it is retrieved.
  retrieves :
      (content : Bytes)
      → d.files path ≡ some content
      → 0 < length content
      → length content ≤ max_payload_size
      → (file_retrieve fixed (system_of false d) data_dir name).result ≡ some content
  unfolding file_retrieve
  retrieves content at some_byte fits =
      let found = read_found d path content (ap d.files fit.place ∙ at) some_byte fits in
      rw (good, whole, fit.place, at, starts_with-append data_dir (b'/' ∷ name)) found

  -- Where it has none, nothing is.
  missing :
      (b : Build)
      → d.files path ≡ none
      → (file_retrieve b (system_of false d) data_dir name).result ≡ none
  unfolding file_retrieve
  missing vulnerable at = rw whole (read_missing d path (ap d.files fit.place ∙ at))
  missing fixed at = rw (good, whole, fit.place, at, fit.no_directory) refl

-- Both builds store and retrieve under an admissible name.
module _ (b : Build) (d : Disk) (data_dir name : Bytes) (good : name_ok name ≡ true)
    (short : length data_dir + length name + 1 < max_path_len) (fit : IsPlace d data_dir name)
    (content : Bytes) (some_byte : 0 < length content)
    (fits : length content ≤ max_payload_size) where
  pub both_store : file_store b (system_of true d) data_dir name content (length content) ≡ record {
    result = some tt;
    effects = writes (data_dir ++ b'/' ∷ name) content ∷ [];
    faults = [];
  }
  both_store = by_build b
    where
      by_build :
          (b : Build)
          → file_store b (system_of true d) data_dir name content (length content) ≡ record {
            result = some tt;
            effects = writes (data_dir ++ b'/' ∷ name) content ∷ [];
            faults = [];
          }
      by_build vulnerable = stores_vulnerable d data_dir name good short fit content fits
      by_build fixed = stores d data_dir name good short fit content some_byte fits

  pub both_retrieve :
      d.files (data_dir ++ b'/' ∷ name) ≡ some content
      → (file_retrieve b (system_of false d) data_dir name).result ≡ some content
  unfolding file_retrieve
  both_retrieve at = by_build b
    where
      by_build :
          (b : Build) → (file_retrieve b (system_of false d) data_dir name).result ≡ some content
      by_build vulnerable = rw (whole d data_dir name good short fit) (
          read_found d (data_dir ++ b'/' ∷ name) content (ap d.files fit.place ∙ at) some_byte fits)
      by_build fixed = retrieves d data_dir name good short fit content at some_byte fits

-- In the fixed build, a file stored under an admissible name, at a place of the disk whose path fits its buffer and with 1
-- byte to 16 MB, is stored without a fault, is what a retrieval of the name then gives, and
-- every other file of the disk is as it was.
pub file_retrieve-file_store :
    (d : Disk) (data_dir name content p : Bytes)
    → name_ok name ≡ true
    → length data_dir + length name + 1 < max_path_len
    → 0 < length content
    → length content ≤ max_payload_size
    → IsPlace d data_dir name
    → p ≢ data_dir ++ b'/' ∷ name
    → ((file_store fixed (system_of true d) data_dir name content (length content)).result
        ≡ some tt)
      × ((file_store fixed (system_of true d) data_dir name content (length content)).faults ≡ [])
      × ((file_retrieve fixed
            (system_of false (
              perform
                (file_store fixed (system_of true d) data_dir name content (length content)).effects
                d))
            data_dir
            name).result
          ≡ some content)
      × ((perform
              (file_store fixed (system_of true d) data_dir name content (length content)).effects
              d).files
            p
          ≡ d.files p)
unfolding perform
file_retrieve-file_store d data_dir name content p good short some_byte fits fit other =
    let done = stores d data_dir name good short fit content some_byte fits in
    let there : same (data_dir ++ b'/' ∷ name) (data_dir ++ b'/' ∷ name) ≡ true = same_refl _ in
    rw done (
      refl,
      refl,
      retrieves (put (data_dir ++ b'/' ∷ name) (some content) d) data_dir name good short
          (put-IsPlace (data_dir ++ b'/' ∷ name) (some content) d data_dir name fit) content
          (rw (fit.place, there) refl) some_byte fits,
      rw (fit.place, apart) refl,
    )
  where
    apart : same p (data_dir ++ b'/' ∷ name) ≡ false
    apart = elim (Bool-cases (same p (data_dir ++ b'/' ∷ name))) [
      | inl e ↦ absurd (other (same_iff p (data_dir ++ b'/' ∷ name) e))
      | inr e ↦ e
    ]

-- A file that was deleted from its place is not retrieved, in either build.
pub file_retrieve-file_delete :
    (b : Build) (d : Disk) (data_dir name : Bytes)
    → name_ok name ≡ true
    → length data_dir + length name + 1 < max_path_len
    → IsPlace d data_dir name
    → (file_retrieve b
        (system_of false (perform (file_delete (system_of false d) data_dir name).effects d))
        data_dir
        name).result
      ≡ none
unfolding perform file_delete
file_retrieve-file_delete b d data_dir name good short fit =
    let path = data_dir ++ b'/' ∷ name in
    let effects = (file_delete (system_of false d) data_dir name).effects in
    missing (perform effects d) data_dir name good short
      (perform-IsPlace effects d data_dir name fit) b (gone (d.files path) refl)
  where
    gone :
        (o : Option Bytes)
        → d.files (data_dir ++ b'/' ∷ name) ≡ o
        → (perform (file_delete (system_of false d) data_dir name).effects d).files
            (data_dir ++ b'/' ∷ name)
          ≡ none
    gone none at = rw (whole d data_dir name good short fit, fit.place, at) at
    gone (some content) at =
        rw
          (
            whole d data_dir name good short fit,
            fit.place,
            at,
            fit.place,
            same_refl (data_dir ++ b'/' ∷ name),
          )
          refl
