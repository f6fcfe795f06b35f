-- ===== src/FileHandler/Disk.antt =====
-- The operations on a file system. The disk holds its files and directories by their canonical paths;
-- only directories may be links. There are no refused permissions, the disk has room, and memory is
-- there for what is asked.
pub mod Files
use secure_ci_coding.Base.{
  ◌+◌, ◌≤◌, ◌<◌, ◌≡◌, ◌≢◌, refl, ap, ◌∙◌, arith, Bool, true, false, not, ◌&&◌, ◌||◌, Option, none,
  some, List, [], ◌∷◌, ◌++◌, Bytes, Bool-cases, inl, inr, same, same_iff, same_refl, take_all,
  length, length-append, contains, starts_with, ltb, leb, ◌==◌, if◌then◌else◌,
}
use secure_ci_coding.Common.{
  Build, vulnerable, fixed, max_path_len, max_filename_len, max_payload_size,
}
use secure_ci_coding.FileHandler.{
  System, Effect, writes, reads, removes, full_path, size_ok, copy_faults, parent, store_checks,
  write_out, file_store, file_retrieve, file_delete, name_ok, read_in,
}

-- `resolve` is the canonical path of a path, whether or not there is a file.
pub record Disk : Type 0 where
  pub resolve : Bytes → Bytes
  pub files : Bytes → Option Bytes
  pub is_dir : Bytes → Bool

abbrev pub exists : Option Bytes → Bool
exists none = false
exists (some content) = true

abbrev content_of : Option Bytes → Bytes
content_of none = []
content_of (some content) = content

-- Whether the directory of a path is there: the current directory and the root are.
abbrev pub has_directory : Disk → Option Bytes → Bool
has_directory d none = true
has_directory d (some []) = true
has_directory d (some (c ∷ dir)) = d.is_dir (d.resolve (c ∷ dir))

-- Opening for writing takes a path that is no directory: a file, or a new one in a directory that is there.
-- Opening for reading takes a file, or a directory, whose size cannot be read.
abbrev opens_at : (writing : Bool) → Disk → Bytes → Bool
opens_at true d p =
    not (d.is_dir (d.resolve p)) && (exists (d.files (d.resolve p)) || has_directory d (parent p))
opens_at false d p = exists (d.files (d.resolve p)) || d.is_dir (d.resolve p)

-- The answers of the system on a disk; a file opened for writing is created or emptied.
abbrev pub system_of : (writing : Bool) → Disk → System
system_of writing d = record {
  realpath = λ p.
      if exists (d.files (d.resolve p)) || d.is_dir (d.resolve p) then some (d.resolve p) else none;
  opens = opens_at writing d;
  fsize = λ p. length (content_of (d.files (d.resolve p)));
  contents = λ p. content_of (d.files (d.resolve p));
  fwrite = λ p n. n;
  malloc = λ n. true;
  unlink = λ p. exists (d.files (d.resolve p));
}

abbrev pub put : Bytes → Option Bytes → Disk → Disk
put path content d = record d {
  files = λ p. if same p (d.resolve path) then content else d.files p;
}

unfoldable pub perform : List Effect → Disk → Disk
perform [] d = d
perform (writes path content ∷ effects) d = perform effects (put path (some content) d)
perform (reads path ∷ effects) d = perform effects d
perform (removes path ∷ effects) d = perform effects (put path none d)

-- A place for a file in a directory: the directory is there under its canonical path, the name is not
-- empty, the path of the file is canonical, and it is not itself a directory.
pub record IsPlace (d : Disk) (dir name : Bytes) : Type 0 where
  pub named : 0 < length name
  pub canonical : d.resolve dir ≡ dir
  pub directory : d.is_dir dir ≡ true
  pub place : d.resolve (dir ++ b'/' ∷ name) ≡ dir ++ b'/' ∷ name
  pub no_directory : d.is_dir (dir ++ b'/' ∷ name) ≡ false

pub put-IsPlace :
    (path : Bytes) (content : Option Bytes) (d : Disk) (dir name : Bytes)
    → IsPlace d dir name
    → IsPlace (put path content d) dir name
put-IsPlace path content d dir name h = record {
  named = h.named;
  canonical = h.canonical;
  directory = h.directory;
  place = h.place;
  no_directory = h.no_directory;
}

-- It stays one, whatever is done to the files.
pub perform-IsPlace :
    (es : List Effect) (d : Disk) (dir name : Bytes)
    → IsPlace d dir name
    → IsPlace (perform es d) dir name
unfolding perform
perform-IsPlace [] d dir name h = h
perform-IsPlace (writes path content ∷ es) d dir name h =
    perform-IsPlace es (put path (some content) d) dir name
      (put-IsPlace path (some content) d dir name h)
perform-IsPlace (reads path ∷ es) d dir name h = perform-IsPlace es d dir name h
perform-IsPlace (removes path ∷ es) d dir name h =
    perform-IsPlace es (put path none d) dir name (put-IsPlace path none d dir name h)
