-- ===== src/Dispatch/Confined.antt =====
-- Which files a request of the fixed build reads and writes.
use secure_ci_coding.Base.{
  ℕ, ◌-◌, ◌<◌, ◌≡◌, ◌⊎◌, inl, inr, refl, ap, arith, true, false, not, Bool-cases, if◌then◌else◌,
  ltb, leb, Bytes, Option, none, some, List, [], ◌∷◌, ◌++◌, append-nil, take, length, length-take,
  starts_with, has_dotdot, contains, if_both,
}
use secure_ci_coding.Common.{Build, Fault, fixed, max_filename_len, max_payload_size}
use secure_ci_coding.FileHandler.{
  System, reads, writes, Outcome, full_path, file_retrieve, file_store, read_in, read_resolved,
  name_ok, write_out, store_checks, size_ok, required,
}
use secure_ci_coding.FileHandler.Retrieve.{file_retrieve_confined}
use secure_ci_coding.Server.{Request}
use secure_ci_coding.Dispatch.State.{Vault, Calls, Reply}
use secure_ci_coding.Dispatch.Handlers.{
  handle_download, handle_upload, upload_at, upload_fixed, download_name, is_traversal, find_nul,
}

read_in_effects :
    (sys : System) (path : Bytes)
    → ((read_in sys path).effects ≡ []) ⊎ ((read_in sys path).effects ≡ reads path ∷ [])
read_in_effects sys path = elim (Bool-cases (sys.opens path)) [
  | inl opened ↦ inr (ground arith)
  | inr failed ↦ inl (ground arith)
]

-- The fixed build opens at most one file for a retrieval.
retrieve_effects :
    (sys : System) (data_dir filename : Bytes)
    → ((file_retrieve fixed sys data_dir filename).effects ≡ [])
      ⊎ ((path : Bytes) × ((file_retrieve fixed sys data_dir filename).effects ≡ reads path ∷ []))
unfolding file_retrieve
retrieve_effects sys data_dir filename = elim (Bool-cases (name_ok filename)) [
  | inr bad ↦ inl (
      ap
        (λ t.
          (if t
            then read_resolved sys data_dir (sys.realpath (full_path data_dir filename))
            else record { result = none; effects = []; faults = [] }).effects)
        bad)
  | inl good ↦ elim (by_path (sys.realpath (full_path data_dir filename))) [
    | inl e ↦ inl (rw good e)
    | inr (path, e) ↦ inr (path, rw good e)
  ]
]
  where
    by_path :
        (o : Option Bytes)
        → ((read_resolved sys data_dir o).effects ≡ [])
          ⊎ ((path : Bytes) × ((read_resolved sys data_dir o).effects ≡ reads path ∷ []))
    by_path none = inl refl
    by_path (some path) = elim (Bool-cases (starts_with path data_dir)) [
      | inr out ↦ inl (rw out)
      | inl inside ↦ elim (read_in_effects sys path) [
        | inl e ↦ inl (rw inside e)
        | inr e ↦ inr (path, rw inside e)
      ]
    ]

-- A download request to the fixed build reads no file, or one file whose path begins with the data
-- directory; the name in the request has no ".." and no '/' then.
pub handle_download_confined :
    (c : Calls) (r : Request) (s : Vault)
    → ((handle_download fixed c r s).1.effects ≡ s.effects)
      ⊎ ((path : Bytes) × ((handle_download fixed c r s).1.effects ≡ s.effects ++ reads path ∷ [])
          × (starts_with path s.data_dir ≡ true)
          × (has_dotdot (download_name r) ≡ false)
          × (contains b'/' (download_name r) ≡ false))
unfolding handle_download
handle_download_confined c r s = elim (Bool-cases (is_traversal (download_name r))) [
  | inl bad ↦ inl (rw bad)
  | inr good ↦ elim (Bool-cases c.content_memory) [
    | inr failed ↦ inl (rw (good, failed))
    | inl granted ↦ elim (retrieve_effects c.system s.data_dir (download_name r)) [
      | inl e ↦ inl (rw (good, granted, e) (append-nil s.effects))
      | inr (path, e) ↦
          let (at, inside, short, dots, slash, back) =
            file_retrieve_confined c.system s.data_dir (download_name r) path e in
          inr (path, rw (good, granted, e), inside, dots, slash)
    ]
  ]
]

write_out_effects :
    (sys : System) (path content : Bytes) (data_len : ℕ) (faults : List Fault)
    → ((write_out sys path content data_len faults).effects ≡ [])
      ⊎ ((kept : Bytes) × ((write_out sys path content data_len faults).effects
            ≡ writes path kept ∷ []))
unfolding write_out
write_out_effects sys path content data_len faults = elim (Bool-cases (sys.opens path)) [
  | inl opened ↦ inr (take (sys.fwrite path data_len) content, rw opened)
  | inr failed ↦ inl (rw failed)
]

-- Storing a file opens at most the file of its name, in either build.
store_effects :
    (b : Build) (sys : System) (data_dir filename content : Bytes) (data_len : ℕ)
    → ((file_store b sys data_dir filename content data_len).effects ≡ [])
      ⊎ ((kept : Bytes) × ((file_store b sys data_dir filename content data_len).effects
            ≡ writes (full_path data_dir filename) kept ∷ []))
unfolding file_store
store_effects b sys data_dir filename content data_len =
    if_both OneWrite (not (size_ok b data_len)) (inl refl) (
      if_both OneWrite (not (sys.malloc (required data_len))) (inl refl) (
        if_both OneWrite (store_checks b sys data_dir filename)
          (write_out_effects sys (full_path data_dir filename) (take data_len content) data_len _)
          (inl refl)))
  where
    OneWrite : Outcome (Unit {0}) → Type 0
    OneWrite o =
        (o.effects ≡ [])
        ⊎ ((kept : Bytes) × (o.effects ≡ writes (full_path data_dir filename) kept ∷ []))

copied_short :
    (n : ℕ) (name : Bytes)
    → length (take (if leb max_filename_len n then max_filename_len - 1 else n) name)
      < max_filename_len
copied_short n name =
    ground (arith, length-take (if leb max_filename_len n then max_filename_len - 1 else n) name)

-- An upload request to the fixed build writes no file, or one: the file of the data directory, a '/'
-- and a name without ".." and '/' that is shorter than 256 bytes.
pub handle_upload_confined :
    (c : Calls) (r : Request) (s : Vault)
    → ((handle_upload fixed c r s).1.effects ≡ s.effects)
      ⊎ ((name kept : Bytes) × ((handle_upload fixed c r s).1.effects
            ≡ s.effects ++ writes (full_path s.data_dir name) kept ∷ [])
          × (has_dotdot name ≡ false)
          × (contains b'/' name ≡ false)
          × (length name < max_filename_len))
unfolding handle_upload
handle_upload_confined c r s = at (find_nul r)
  where
    Confined : Reply × Vault → Type 0
    Confined h =
        (h.1.effects ≡ s.effects)
        ⊎ ((name kept : Bytes) × (h.1.effects
              ≡ s.effects ++ writes (full_path s.data_dir name) kept ∷ [])
            × (has_dotdot name ≡ false)
            × (contains b'/' name ≡ false)
            × (length name < max_filename_len))

    named :
        (name content : Bytes) (len : ℕ)
        → length name < max_filename_len
        → Confined (upload_fixed name content len c s)
    named name content len short = elim (Bool-cases (is_traversal name)) [
      | inl bad ↦ inl (rw bad)
      | inr good ↦ elim (Bool-cases (ltb max_payload_size len)) [
        | inl large ↦ inl (rw (good, large))
        | inr fits ↦ elim (store_effects fixed c.system s.data_dir name content len) [
          | inl e ↦ inl (rw (good, fits, e) (append-nil s.effects))
          | inr (kept, e) ↦ inr (name, kept, rw (good, fits, e), ground arith, ground arith, short)
        ]
      ]
    ]

    at : (o : Option ℕ) → Confined (upload_at fixed c r o s)
    at none = inl refl
    at (some n) = named _ _ _ (copied_short n r.content)
