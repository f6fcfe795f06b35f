-- ===== src/Dispatch/Transfer.antt =====
-- An upload and the download that follows it, on a disk.
use secure_ci_coding.Base.{
  ℕ, ◌+◌, ◌<◌, ◌≤◌, ◌≡◌, refl, ap, ◌∙◌, arith, true, false, some, [], ◌∷◌, ◌++◌, Bytes, All, length,
  codes, same_refl,
}
use secure_ci_coding.Common.{Build, ok, max_path_len, max_payload_size}
use secure_ci_coding.Auth.Hash.{NonZero}
use secure_ci_coding.Session.{Sessions, session_lookup}
use secure_ci_coding.Session.Invariant.{Inv}
use secure_ci_coding.Session.Lookup.{ActiveUnder}
use secure_ci_coding.FileHandler.{writes, name_ok}
use secure_ci_coding.FileHandler.Disk.{Disk, system_of, perform, IsPlace, perform-IsPlace}
use secure_ci_coding.Dispatch.{handle, switch}
use secure_ci_coding.Dispatch.State.{Vault, Calls, Reply, plain, keep}
use secure_ci_coding.Dispatch.Handlers.{}
use secure_ci_coding.Dispatch.Gate.{handle_found}
use secure_ci_coding.Dispatch.FileRequests.{
  perform-append, upload_request, download_request, uploaded, downloaded_lem,
}

-- A session that a lookup of its id finds and that is valid at a time.
pub record IsOpen (s : Sessions) (sid now k : ℕ) : Type 0 where
  pub used : k < s.count
  pub active : ActiveUnder s sid k
  pub found : session_lookup sid s ≡ (some (s.slots k), s)
  pub early : now ≤ (s.heap (s.slots k)).expires_at

-- In both builds, on a disk that shows what was done to the files so far, an upload through an open session is
-- confirmed, and a download of the name through the same or another open session then answers with the contents. The
-- data directory is on the disk under its canonical path, and the name's place in it is no link and no directory;
-- the name is not empty, admissible and without a NUL, the path fits its buffer, and there are 1 byte to 16 MB and
-- memory for them; behind the name of the download the memory has a NUL.
pub download-upload :
    (pbkdf2 : Bytes → Bytes → Bytes) (b : Build) (c c' : Calls) (d : Disk) (s : Vault)
    (sid sid' k k' : ℕ) (name content behind behind' : Bytes)
    → Inv s.sessions
    → IsOpen s.sessions sid c.now k
    → IsOpen s.sessions sid' c'.now k'
    → c.system ≡ system_of true (perform s.effects d)
    → c'.system
      ≡ system_of false
          (perform (handle pbkdf2 b c (upload_request sid name content behind) s).1.effects d)
    → c'.content_memory ≡ true
    → IsPlace d s.data_dir name
    → name_ok name ≡ true
    → All NonZero name
    → length s.data_dir + length name + 1 < max_path_len
    → 0 < length content
    → length content ≤ max_payload_size
    → ((handle pbkdf2 b c (upload_request sid name content behind) s).0
        ≡ plain ok (codes "UPLOAD_OK"))
      × ((handle pbkdf2 b c'
            (download_request sid' name behind')
            (handle pbkdf2 b c (upload_request sid name content behind) s).1).0
          ≡ record { code = ok; message = codes "DOWNLOAD_OK"; body = content })
unfolding switch perform
download-upload pbkdf2 b c c' d s sid sid' k k' name content behind behind' v o o' system system'
      memory fit good a short some_byte fits =
    let path = s.data_dir ++ b'/' ∷ name in
    let d' = perform s.effects d in
    let left =
      keep (record { result = some tt; effects = writes path content ∷ []; faults = [] }) s in
    let first : handle pbkdf2 b c (upload_request sid name content behind) s
        ≡ (plain ok (codes "UPLOAD_OK"), left) =
      handle_found pbkdf2 b c (upload_request sid name content behind) s k v (omega arith) o.used
        o.active o.found o.early
      ∙ uploaded sid name content good a some_byte fits b behind c d' s system short
          (perform-IsPlace s.effects d s.data_dir name fit) in
    let disk : c'.system ≡ system_of false (perform left.effects d) =
      system' ∙ ap (λ (h : Reply × Vault). system_of false (perform h.1.effects d)) first in
    let there : (perform left.effects d).files path ≡ some content =
      ap (λ (x : Disk). x.files path) (perform-append s.effects (writes path content ∷ []) d)
      ∙ on_disk in
    (
      ap (λ (h : Reply × Vault). h.0) first,
      ap (λ (h : Reply × Vault). (handle pbkdf2 b c' (download_request sid' name behind') h.1).0)
            first
          ∙ ap (λ (h : Reply × Vault). h.0)
              (handle_found pbkdf2 b c' (download_request sid' name behind') left k' v (omega arith)
                o'.used o'.active o'.found o'.early)
          ∙ downloaded_lem sid' name content good a some_byte fits b behind' c'
              (perform left.effects d) left disk memory short
              (perform-IsPlace left.effects d s.data_dir name fit) there,
    )
  where
    on_disk :
        (perform (writes (s.data_dir ++ b'/' ∷ name) content ∷ []) (perform s.effects d)).files
          (s.data_dir ++ b'/' ∷ name)
        ≡ some content
    on_disk =
        rw
          (
            (perform-IsPlace s.effects d s.data_dir name fit).place,
            same_refl (s.data_dir ++ b'/' ∷ name),
          )
          refl
