-- ===== src/Demos/Storing.antt =====
-- 05_integer_overflow.c and 05_integer_overflow_fixed.c: a copy of `data_len` bytes and a NUL into memory
-- of `data_len + 1` bytes, where the sum is a 64-bit `size_t`. `malloc` tells whether it gives memory.
use secure_ci_coding.Base.{
  ℕ, ◌-◌, ◌*◌, ◌≤◌, ◌<◌, ◌≡◌, ◌↔◌, arith, Bool, true, false, not, ltb, leb, ◌==◌, if◌then◌else◌,
  List, [], ◌∷◌, refl, length, codes,
}
use secure_ci_coding.Common.{Fault, buffer_overflow}
use secure_ci_coding.FileHandler.{size_mod, required, copy_faults}

-- Whether 0 is returned, and the faults.
abbrev Stored : Type 0
Stored = Bool × List Fault

abbrev rejected : Stored
rejected = (false, [])

-- `MAX_PAYLOAD`
abbrev max_payload : ℕ
max_payload = 16 * 1024 * 1024

-- `SIZE_MAX`
abbrev size_max : ℕ
size_max = size_mod - 1

-- From `malloc` on, as all three functions have it.
abbrev copy_and_free : (malloc : ℕ → Bool) → ℕ → Stored
copy_and_free malloc data_len =
    if not (malloc (required data_len)) then rejected else (true, copy_faults data_len)

unfoldable file_store_vuln : (malloc : ℕ → Bool) → (data_len : ℕ) → Stored
file_store_vuln malloc data_len = copy_and_free malloc data_len

-- `file_store_fixed` of the fixed file.
unfoldable file_store_fixed : (malloc : ℕ → Bool) → (data_len : ℕ) → Stored
file_store_fixed malloc data_len =
    if data_len == 0
    then rejected
    else if ltb max_payload data_len
    then rejected
    else if ltb (size_max - 1) data_len
    then rejected
    else copy_and_free malloc data_len

-- `file_store_fixed` of the vulnerable file.
unfoldable file_store_guarded : (malloc : ℕ → Bool) → (data_len : ℕ) → Stored
file_store_guarded malloc data_len =
    if leb (size_max - 1) data_len then rejected else copy_and_free malloc data_len

-- For every size and every allocator, both repaired functions stay within the memory they take; the
-- vulnerable one writes outside it exactly when the size is the largest one and `malloc(0)` gives
-- memory; and from 1 byte to 16 MB the three return the same.
file_store_overflows :
    (malloc : ℕ → Bool) (data_len : ℕ)
    → data_len < size_mod
    → ((file_store_fixed malloc data_len).1 ≡ [])
      × ((file_store_guarded malloc data_len).1 ≡ [])
      × (((file_store_vuln malloc data_len).1 ≡ buffer_overflow ∷ [])
          ↔ ((data_len ≡ size_max) × (malloc 0 ≡ true)))
      × (1 ≤ data_len
          → data_len ≤ max_payload
          → (file_store_fixed malloc data_len ≡ file_store_vuln malloc data_len)
            × (file_store_guarded malloc data_len ≡ file_store_vuln malloc data_len))
unfolding file_store_fixed file_store_guarded file_store_vuln
file_store_overflows malloc data_len h = (
  ground arith,
  ground arith,
  (λ e. (ground arith, ground arith), λ (e, m). ground arith),
  λ low high. (ground arith, ground arith),
)

-- `main` of the vulnerable file: its three calls, in order.
unfoldable main_vuln : (malloc : ℕ → Bool) → List Stored
main_vuln malloc =
    file_store_vuln malloc (length (codes "Hello World"))
    ∷ file_store_vuln malloc size_max
    ∷ file_store_guarded malloc size_max
    ∷ []

-- `main` of the fixed file; the last call is made if `calloc` gives memory.
unfoldable main_fixed : (malloc : ℕ → Bool) → (calloc : Bool) → List Stored
main_fixed malloc calloc =
    file_store_fixed malloc (length (codes "Hello World"))
    ∷ file_store_fixed malloc size_max
    ∷ (if calloc then file_store_fixed malloc (1024 * 1024) ∷ [] else [])

-- With memory the vulnerable program writes outside its buffer in its second call only, where the other function
-- of the file refuses the same size, and the fixed program stores the two sizes that are in order and
-- refuses the largest one.
main_stores :
    (malloc : ℕ → Bool)
    → ((n : ℕ) → malloc n ≡ true)
    → (main_vuln malloc ≡ (true, []) ∷ (true, buffer_overflow ∷ []) ∷ (false, []) ∷ [])
      × (main_fixed malloc true ≡ (true, []) ∷ (false, []) ∷ (true, []) ∷ [])
unfolding main_vuln main_fixed file_store_vuln file_store_guarded file_store_fixed
main_stores malloc memory = (rw (memory 12, memory 0) refl, rw (memory 12, memory 1048577) refl)
