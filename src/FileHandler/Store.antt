-- ===== src/FileHandler/Store.antt =====
-- The arithmetic of `file_store`.
use secure_ci_coding.Base.{
  ℕ, ◌+◌, ◌<◌, ◌≡◌, arith, ◌&&◌, List, [], ◌∷◌, Bytes, ltb, ◌==◌, if◌then◌else◌, take,
}
use secure_ci_coding.Common.{vulnerable, fixed, Fault, buffer_overflow}
use secure_ci_coding.FileHandler.{
  System, full_path, required, size_mod, store_checks, copy_faults, write_out, file_store,
}

write_out-faults :
    (sys : System) (path content : Bytes) (data_len : ℕ) (faults : List Fault)
    → (write_out sys path content data_len faults).faults ≡ faults
unfolding write_out
write_out-faults sys path content data_len faults = ground arith

-- Storing a file never overflows the copy in the fixed build. In the vulnerable build, where the data
-- length is a size_t, the copy overflows exactly when the length is the largest size_t and the
-- allocator grants the 0 bytes that it then asks for.
file_store_overflow :
    (sys : System) (data_dir filename content : Bytes) (data_len : ℕ)
    → data_len < size_mod
    → ((file_store fixed sys data_dir filename content data_len).faults ≡ [])
      × ((file_store vulnerable sys data_dir filename content data_len).faults
          ≡ (if data_len + 1 == size_mod && sys.malloc 0 then buffer_overflow ∷ [] else []))
unfolding file_store store_checks
file_store_overflow sys data_dir filename content data_len word = (safe, unsafe)
  where
    small : ltb (required data_len) (data_len + 1) ≡ (data_len + 1 == size_mod)
    small = ground arith

    safe : (file_store fixed sys data_dir filename content data_len).faults ≡ []
    safe = ground (
      arith,
      small,
      write_out-faults sys (full_path data_dir filename) (take data_len content) data_len
          (copy_faults data_len),
    )

    unsafe :
        (file_store vulnerable sys data_dir filename content data_len).faults
        ≡ (if data_len + 1 == size_mod && sys.malloc 0 then buffer_overflow ∷ [] else [])
    unsafe = ground (
      arith,
      small,
      write_out-faults sys (full_path data_dir filename) (take data_len content) data_len
          (copy_faults data_len),
    )
