-- ===== src/Dispatch/Frame.antt =====
-- What no request changes: the user table and the data directory. And what the fixed build does while
-- no session is registered: nothing.
use secure_ci_coding.Base.{
  ℕ, ◌≡◌, ◌⊎◌, inl, inr, refl, arith, Bool, true, false, if_both, ◌==◌, ◌||◌, ltb, Bytes, Option,
  none, some,
}
use secure_ci_coding.Common.{
  Build, vulnerable, fixed, op_code, login, logout, upload, download, delete, list, backup,
  err_auth, err_session,
}
use secure_ci_coding.Session.{Ptr, Sessions, session_lookup, session_validate, lookup_loop}
use secure_ci_coding.Auth.{auth_verify}
use secure_ci_coding.Auth.Users.{IsTable}
use secure_ci_coding.Auth.Verify.{auth_verify_fixed_refuses}
use secure_ci_coding.Server.{Request}
use secure_ci_coding.Dispatch.{handle, switch, after_lookup, after_validate, proto_dispatch}
use secure_ci_coding.Dispatch.State.{Vault, Calls, Reply, with_sessions}
use secure_ci_coding.Dispatch.Handlers.{
  handle_login, login_at, login_name, login_password, find_nul, handle_logout, handle_upload,
  upload_at, handle_download, handle_delete, handle_list, handle_backup,
}

-- The same users and data directory as in `s`.
abbrev Frames : Vault → Reply × Vault → Type 0
Frames s h = (h.1.users ≡ s.users) × (h.1.data_dir ≡ s.data_dir)

login-Frames :
    (pbkdf2 : Bytes → Bytes → Bytes) (b : Build) (c : Calls) (r : Request) (s : Vault)
    → Frames s (handle_login pbkdf2 b c r s)
unfolding handle_login
login-Frames pbkdf2 b c r s =
    if_both (Frames s) (ltb r.data_len 2 || ltb 194 r.data_len) (refl, refl) (at (find_nul r))
  where
    at : (o : Option ℕ) → Frames s (login_at pbkdf2 b c r o s)
    at none = (refl, refl)
    at (some n) =
        if_both (Frames s)
          (auth_verify pbkdf2 b c.salt (some (login_name b n r)) (some (login_password b n r))
            s.users)
          (refl, refl) (refl, refl)

upload-Frames : (b : Build) (c : Calls) (r : Request) (s : Vault) → Frames s (handle_upload b c r s)
unfolding handle_upload
upload-Frames b c r s = at b (find_nul r)
  where
    at : (b : Build) (o : Option ℕ) → Frames s (upload_at b c r o s)
    at b none = (refl, refl)
    at vulnerable (some n) = (refl, refl)
    at fixed (some n) = (ground arith, ground arith)

download-Frames :
    (b : Build) (c : Calls) (r : Request) (s : Vault) → Frames s (handle_download b c r s)
unfolding handle_download
download-Frames vulnerable c r s = (ground arith, ground arith)
download-Frames fixed c r s = (ground arith, ground arith)

switch-Frames :
    (b : Build) (c : Calls) (r : Request) (p : Ptr) (s : Vault) → Frames s (switch b c r p s)
unfolding switch handle_logout handle_delete handle_list handle_backup
switch-Frames b c r p s =
    if_both (Frames s) (r.op == op_code logout) (refl, refl)
      (if_both (Frames s) (r.op == op_code upload) (upload-Frames b c r s) (
        if_both (Frames s) (r.op == op_code download) (download-Frames b c r s) (
          if_both (Frames s) (r.op == op_code delete) (ground arith, ground arith)
            (if_both (Frames s) (r.op == op_code list) (ground arith, ground arith)
              (if_both (Frames s) (r.op == op_code backup) (ground arith, ground arith)
                (refl, refl))))))

handle-Frames :
    (pbkdf2 : Bytes → Bytes → Bytes) (b : Build) (c : Calls) (r : Request) (s : Vault)
    → Frames s (handle pbkdf2 b c r s)
unfolding handle
handle-Frames pbkdf2 b c r s =
    if_both (Frames s) (r.op == op_code login) (login-Frames pbkdf2 b c r s)
      (found (session_lookup r.session_id s.sessions))
  where
    valid : (p : Ptr) (t : Vault) (v : Bool × Sessions) → Frames t (after_validate b c r p t v)
    valid p t (false, u) = (refl, refl)
    valid p t (true, u) = switch-Frames b c r p (with_sessions u t)

    found : (o : Option Ptr × Sessions) → Frames s (after_lookup b c r s o)
    found (none, t) = (refl, refl)
    found (some p, t) = valid p (with_sessions t s) (session_validate b p c.now t)

-- No request changes the user table or the data directory.
pub proto_dispatch_frame :
    (pbkdf2 : Bytes → Bytes → Bytes) (b : Build) (c : Calls) (r : Request) (s : Vault)
    → ((proto_dispatch pbkdf2 b c r s).2.users ≡ s.users)
      × ((proto_dispatch pbkdf2 b c r s).2.data_dir ≡ s.data_dir)
unfolding proto_dispatch
proto_dispatch_frame pbkdf2 b c r s = handle-Frames pbkdf2 b c r s

-- In the fixed build, on a well-formed user table and with no session registered, every request is
-- refused and changes nothing.
abbrev Refused : Vault → Reply × Vault → Type 0
Refused s h = ((h.0.code ≡ err_auth) ⊎ (h.0.code ≡ err_session)) × (h.1 ≡ s)

login-Refused :
    (pbkdf2 : Bytes → Bytes → Bytes) (c : Calls) (r : Request) (s : Vault)
    → IsTable s.users
    → Refused s (handle_login pbkdf2 fixed c r s)
unfolding handle_login
login-Refused pbkdf2 c r s t =
    if_both (Refused s) (ltb r.data_len 2 || ltb 194 r.data_len) (inl refl, refl) (at (find_nul r))
  where
    at : (o : Option ℕ) → Refused s (login_at pbkdf2 fixed c r o s)
    at none = (inl refl, refl)
    at (some n) =
        rw
          (auth_verify_fixed_refuses pbkdf2 c.salt (some (login_name fixed n r))
            (some (login_password fixed n r)) s.users t)
          (inl refl, refl)

pub handle_inert :
    (pbkdf2 : Bytes → Bytes → Bytes) (c : Calls) (r : Request) (s : Vault)
    → IsTable s.users
    → s.sessions.count ≡ 0
    → Refused s (handle pbkdf2 fixed c r s)
unfolding handle session_lookup lookup_loop
handle_inert pbkdf2 c r s t empty =
    if_both (Refused s) (r.op == op_code login) (login-Refused pbkdf2 c r s t)
      (rw empty (inr refl, refl))
