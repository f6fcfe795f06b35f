-- ===== src/Dispatch/FileRequests.antt =====
-- The requests for an upload and a download, and what the handlers make of them on a disk.
use secure_ci_coding.Base.{
  ℕ, suc, ◌+◌, ◌-◌, ◌<◌, ◌≤◌, ◌≡◌, refl, sym, ap, ◌∙◌, arith, true, false, none, some, List, [],
  ◌∷◌, ◌++◌, Bytes, All, length, length-append, append_assoc, append-nil, take, take-append,
  take_all, drop, cstr, index_of, leb, ltb, if◌then◌else◌, codes,
}
use secure_ci_coding.Common.{
  Build, vulnerable, fixed, op_code, upload, download, ok, max_path_len, max_filename_len,
  max_payload_size,
}
use secure_ci_coding.Auth.Hash.{NonZero, cstr-append}
use secure_ci_coding.FileHandler.{Effect, writes, file_store, file_retrieve, name_ok}
use secure_ci_coding.FileHandler.Disk.{Disk, system_of, perform, put, IsPlace}
use secure_ci_coding.FileHandler.Disk.Files.{both_store, both_retrieve}
use secure_ci_coding.Server.{Request}
use secure_ci_coding.Dispatch.State.{Vault, Calls, plain, keep}
use secure_ci_coding.Dispatch.Handlers.{
  find_nul, is_traversal, stored, upload_fixed, upload_at, handle_upload, download_name,
  handle_download,
}

-- A string without NULs in front of its NUL.
index_of-nul :
    (name rest : Bytes) → All NonZero name → index_of 0 (name ++ 0 ∷ rest) ≡ some (length name)
unfolding index_of
index_of-nul [] rest a = refl
index_of-nul (c ∷ name) rest a = ground (arith, index_of-nul name rest a.1)

take_front : (s t : Bytes) → take (length s) (s ++ t) ≡ s
take_front s t = take-append (length s) s t refl

drop_name : (name rest : Bytes) → drop (length name + 1) (name ++ 0 ∷ rest) ≡ rest
drop_name [] rest = refl
drop_name (c ∷ name) rest =
    let step : length (c ∷ name) + 1 ≡ suc (length name + 1) = omega arith in
    ap (λ k. drop k (c ∷ name ++ 0 ∷ rest)) step ∙ drop_name name rest

-- `file_store` reads no more of the memory than it is told.
file_store_take :
    (b : Build) (d : Disk) (data_dir name content behind : Bytes)
    → file_store b (system_of true d) data_dir name (content ++ behind) (length content)
      ≡ file_store b (system_of true d) data_dir name content (length content)
unfolding file_store
file_store_take b d data_dir name content behind =
    rw (take_front content behind, take_all (length content) content (omega arith)) refl

-- What the disk is behind more effects.
pub perform-append :
    (es fs : List Effect) (d : Disk) → perform (es ++ fs) d ≡ perform fs (perform es d)
unfolding perform
perform-append [] fs d = refl
perform-append (Effect.writes p c ∷ es) fs d = perform-append es fs (put p (some c) d)
perform-append (Effect.reads p ∷ es) fs d = perform-append es fs d
perform-append (Effect.removes p ∷ es) fs d = perform-append es fs (put p none d)

-- An admissible name is short and passes the dispatcher's own check.
name_ok-plain :
    (name : Bytes)
    → name_ok name ≡ true
    → (length name < max_filename_len) × (is_traversal name ≡ false)
name_ok-plain name good = (ground arith, ground arith)

-- The requests: the name, its NUL and the contents; and the name, with a NUL behind it in the memory.
abbrev pub upload_request : ℕ → (name content behind : Bytes) → Request
upload_request sid name content behind = record {
  op = op_code upload;
  session_id = sid;
  data_len = length (name ++ 0 ∷ content);
  content = (name ++ 0 ∷ content) ++ behind;
}

abbrev pub download_request : ℕ → (name behind : Bytes) → Request
download_request sid name behind = record {
  op = op_code download;
  session_id = sid;
  data_len = length name;
  content = name ++ 0 ∷ behind;
}

module _ (sid : ℕ) (name content : Bytes) (good : name_ok name ≡ true) (a : All NonZero name)
    (some_byte : 0 < length content) (fits : length content ≤ max_payload_size) where
  nul_at : (behind : Bytes) → find_nul (upload_request sid name content behind) ≡ some (length name)
  nul_at behind =
      ap (index_of 0) (take_front (name ++ 0 ∷ content) behind) ∙ index_of-nul name content a

  size_of :
      (behind : Bytes)
      → (upload_request sid name content behind).data_len - length name - 1 ≡ length content
  size_of behind = omega (arith, length-append name (0 ∷ content))

  rest_of :
      (behind : Bytes)
      → drop (length name + 1) (upload_request sid name content behind).content ≡ content ++ behind
  rest_of behind =
      ap (drop (length name + 1)) (append_assoc name (0 ∷ content) behind)
      ∙ drop_name name (content ++ behind)

  -- The fixed build takes the name out by its length, the vulnerable one as a C string.
  upload_parts_fixed :
      (behind : Bytes) (c : Calls) (s : Vault)
      → handle_upload fixed c (upload_request sid name content behind) s
        ≡ stored (file_store fixed c.system s.data_dir name (content ++ behind) (length content)) s
  unfolding handle_upload
  upload_parts_fixed behind c s =
      let r = upload_request sid name content behind in
      let (short, plain_name) = name_ok-plain name good in
      let whole : r.content ≡ name ++ 0 ∷ (content ++ behind) =
        append_assoc name (0 ∷ content) behind in
      let cut : (if leb max_filename_len (length name) then max_filename_len - 1 else length name)
          ≡ length name =
        ground arith in
      let name_at : take (length name) r.content ≡ name =
        ap (take (length name)) whole ∙ take_front name _ in
      let in_size : ltb max_payload_size (length content) ≡ false = ground arith in
      ap (λ o. upload_at fixed c r o s) (nul_at behind)
      ∙ ap
          (λ k.
            upload_fixed (take k r.content) (drop (length name + 1) r.content)
              (r.data_len - length name - 1) c s)
          cut
      ∙ ap
          (λ n.
            upload_fixed n (drop (length name + 1) r.content) (r.data_len - length name - 1) c s)
          name_at
      ∙ ap (λ m. upload_fixed name m (r.data_len - length name - 1) c s) (rest_of behind)
      ∙ ap (λ k. upload_fixed name (content ++ behind) k c s) (size_of behind)
      ∙ rw (plain_name, in_size) refl

  upload_parts_vulnerable :
      (behind : Bytes) (c : Calls) (s : Vault)
      → handle_upload vulnerable c (upload_request sid name content behind) s
        ≡ stored
            (file_store vulnerable c.system s.data_dir name (content ++ behind) (length content))
            s
  unfolding handle_upload cstr
  upload_parts_vulnerable behind c s =
      let r = upload_request sid name content behind in
      let named : cstr r.content ≡ name =
        ap cstr (append_assoc name (0 ∷ content) behind)
        ∙ cstr-append name (0 ∷ (content ++ behind)) a
        ∙ append-nil name in
      ap (λ o. upload_at vulnerable c r o s) (nul_at behind)
      ∙ ap
          (λ n.
            stored
              (file_store vulnerable c.system s.data_dir n (drop (length name + 1) r.content)
                (r.data_len - length name - 1))
              s)
          named
      ∙ ap
          (λ m.
            stored (file_store vulnerable c.system s.data_dir name m (r.data_len - length name - 1))
              s)
          (rest_of behind)
      ∙ ap (λ k. stored (file_store vulnerable c.system s.data_dir name (content ++ behind) k) s)
          (size_of behind)

  upload_parts :
      (b : Build) (behind : Bytes) (c : Calls) (s : Vault)
      → handle_upload b c (upload_request sid name content behind) s
        ≡ stored (file_store b c.system s.data_dir name (content ++ behind) (length content)) s
  upload_parts vulnerable behind c s = upload_parts_vulnerable behind c s
  upload_parts fixed behind c s = upload_parts_fixed behind c s

  -- The upload's reply and what it leaves.
  pub uploaded :
      (b : Build) (behind : Bytes) (c : Calls) (d : Disk) (s : Vault)
      → c.system ≡ system_of true d
      → length s.data_dir + length name + 1 < max_path_len
      → IsPlace d s.data_dir name
      → handle_upload b c (upload_request sid name content behind) s ≡ (
        plain ok (codes "UPLOAD_OK"),
        keep
            (record {
              result = some tt;
              effects = writes (s.data_dir ++ b'/' ∷ name) content ∷ [];
              faults = [];
            })
            s,
      )
  uploaded b behind c d s system short fit =
      upload_parts b behind c s
      ∙ ap (λ sys. stored (file_store b sys s.data_dir name (content ++ behind) (length content)) s)
          system
      ∙ ap (λ o. stored o s)
          (file_store_take b d s.data_dir name content behind
            ∙ both_store b d s.data_dir name good short fit content some_byte fits)

  -- The download's reply, where the disk has the file.
  pub downloaded_lem :
      (b : Build) (behind : Bytes) (c : Calls) (d : Disk) (s : Vault)
      → c.system ≡ system_of false d
      → c.content_memory ≡ true
      → length s.data_dir + length name + 1 < max_path_len
      → IsPlace d s.data_dir name
      → d.files (s.data_dir ++ b'/' ∷ name) ≡ some content
      → ((handle_download b c (download_request sid name behind) s).0
          ≡ record { code = ok; message = codes "DOWNLOAD_OK"; body = content })
  unfolding handle_download cstr
  downloaded_lem vulnerable behind c d s system memory short fit at =
      let named : cstr (name ++ 0 ∷ behind) ≡ name =
        cstr-append name (0 ∷ behind) a ∙ append-nil name in
      let found =
        ap (λ sys. (file_retrieve vulnerable sys s.data_dir name).result) system
        ∙ both_retrieve vulnerable d s.data_dir name good short fit content some_byte fits at in
      rw (named, memory, found) refl
  downloaded_lem fixed behind c d s system memory short fit at =
      let r = download_request sid name behind in
      let (fits_name, plain_name) = name_ok-plain name good in
      let cut : (if leb max_filename_len (length name) then max_filename_len - 1 else length name)
          ≡ length name =
        ground arith in
      let named : download_name r ≡ name =
        ap (λ k. cstr (take k (name ++ 0 ∷ behind))) cut
        ∙ ap cstr (take_front name (0 ∷ behind))
        ∙ ap cstr (sym (append-nil name))
        ∙ cstr-append name [] a
        ∙ append-nil name in
      let found =
        ap (λ sys. (file_retrieve fixed sys s.data_dir name).result) system
        ∙ both_retrieve fixed d s.data_dir name good short fit content some_byte fits at in
      rw (named, plain_name, memory, found) refl
