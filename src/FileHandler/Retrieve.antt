-- ===== src/FileHandler/Retrieve.antt =====
-- Which files `file_retrieve` reads and `file_delete` removes.
use secure_ci_coding.Base.{
  ◌+◌, ◌<◌, ◌≡◌, arith, true, false, some, [], ◌∷◌, ◌++◌, Bytes, take_all, length, length-append,
  starts_with, contains, has_dotdot,
}
use secure_ci_coding.Common.{fixed, max_filename_len, max_path_len}
use secure_ci_coding.FileHandler.{System, reads, removes, full_path, file_retrieve, file_delete}

-- A file that the fixed build opens for reading is what `realpath` makes of the data directory and the
-- name; its path begins with the data directory, and the name is shorter than 256 bytes and
-- has no "..", no '/' and no backslash.
pub file_retrieve_confined :
    (sys : System) (data_dir filename path : Bytes)
    → (file_retrieve fixed sys data_dir filename).effects ≡ reads path ∷ []
    → (sys.realpath (full_path data_dir filename) ≡ some path)
      × (starts_with path data_dir ≡ true)
      × (length filename < max_filename_len)
      × (has_dotdot filename ≡ false)
      × (contains b'/' filename ≡ false)
      × (contains b'\\' filename ≡ false)
unfolding file_retrieve
file_retrieve_confined sys data_dir filename path e =
    (ground arith, ground arith, ground arith, ground arith, ground arith, ground arith)

-- Deleting a file checks no name: where the whole path fits the buffer and `unlink` succeeds, the file
-- of the data directory, a '/' and the name is removed, also for a name with ".." in it, for which
-- the fixed `file_retrieve` opens nothing.
file_delete_unconfined :
    (sys : System) (data_dir filename : Bytes)
    → has_dotdot filename ≡ true
    → length data_dir + length filename + 1 < max_path_len
    → sys.unlink (data_dir ++ b'/' ∷ filename) ≡ true
    → ((file_delete sys data_dir filename).effects ≡ removes (data_dir ++ b'/' ∷ filename) ∷ [])
      × ((file_retrieve fixed sys data_dir filename).effects ≡ [])
unfolding file_delete file_retrieve
file_delete_unconfined sys data_dir filename dots fits gone =
    let whole : full_path data_dir filename ≡ data_dir ++ b'/' ∷ filename =
      take_all 511 (data_dir ++ b'/' ∷ filename)
        (omega (arith, length-append data_dir (b'/' ∷ filename))) in
    (rw (whole, gone), rw dots (ground arith))
