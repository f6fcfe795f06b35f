-- ===== src/Dispatch/Table.antt =====
-- The session table under requests.
use secure_ci_coding.Base.{
  ℕ, ◌≡◌, inl, inr, refl, sym, subst, arith, Bool-cases, if_both, ◌==◌, ltb, ◌||◌, Bytes, Option,
  none, some,
}
use secure_ci_coding.Common.{
  Build, vulnerable, fixed, op_code, login, logout, upload, download, delete, list, backup,
}
use secure_ci_coding.Session.{Ptr, Sessions, touch}
use secure_ci_coding.Session.Invariant.{Inv, Inv-contents, IsFree}
use secure_ci_coding.Session.Create.{session_create-Inv}
use secure_ci_coding.Session.Destroy.{session_destroy-Inv}
use secure_ci_coding.Auth.{auth_verify}
use secure_ci_coding.Server.{Request}
use secure_ci_coding.Dispatch.{handle, switch, proto_dispatch}
use secure_ci_coding.Dispatch.Gate.{handle_gate}
use secure_ci_coding.Dispatch.State.{Vault, Calls, Reply}
use secure_ci_coding.Dispatch.Handlers.{
  handle_login, login_at, find_nul, handle_logout, handle_upload, handle_download, handle_delete,
  handle_list, handle_backup, upload_at, login_name, login_password,
}

abbrev InOrder : Reply × Vault → Type 0
InOrder h = Inv h.1.sessions

login-InOrder :
    (pbkdf2 : Bytes → Bytes → Bytes) (b : Build) (c : Calls) (r : Request) (s : Vault)
    → Inv s.sessions
    → IsFree s.sessions c.environment.fresh
    → InOrder (handle_login pbkdf2 b c r s)
unfolding handle_login
login-InOrder pbkdf2 b c r s v dead =
    if_both InOrder (ltb r.data_len 2 || ltb 194 r.data_len) v (at (find_nul r))
  where
    at : (o : Option ℕ) → InOrder (login_at pbkdf2 b c r o s)
    at none = v
    at (some n) =
        if_both InOrder
          (auth_verify pbkdf2 b c.salt (some (login_name b n r)) (some (login_password b n r))
            s.users)
          (session_create-Inv b c.environment _ _ s.sessions v dead) v

upload_sessions :
    (b : Build) (c : Calls) (r : Request) (s : Vault)
    → (handle_upload b c r s).1.sessions ≡ s.sessions
unfolding handle_upload
upload_sessions b c r s = at b (find_nul r)
  where
    at : (b : Build) (o : Option ℕ) → (upload_at b c r o s).1.sessions ≡ s.sessions
    at b none = refl
    at vulnerable (some n) = refl
    at fixed (some n) = ground arith

download_sessions :
    (b : Build) (c : Calls) (r : Request) (s : Vault)
    → (handle_download b c r s).1.sessions ≡ s.sessions
unfolding handle_download
download_sessions vulnerable c r s = ground arith
download_sessions fixed c r s = ground arith

list_sessions : (c : Calls) (r : Request) (s : Vault) → (handle_list c r s).1.sessions ≡ s.sessions
unfolding handle_list
list_sessions c r s = ground arith

touch-Inv : (p : Ptr) (s : Sessions) → Inv s → Inv (touch p s)
touch-Inv p s v = Inv-contents {s = s} _ _ v

delete_sessions :
    (c : Calls) (r : Request) (p : Ptr) (s : Vault)
    → (handle_delete c r p s).1.sessions ≡ touch p s.sessions
unfolding handle_delete
delete_sessions c r p s = ground arith

backup_sessions :
    (b : Build) (r : Request) (p : Ptr) (s : Vault)
    → (handle_backup b r p s).1.sessions ≡ touch p s.sessions
unfolding handle_backup
backup_sessions b r p s = ground arith

logout-InOrder :
    (b : Build) (r : Request) (s : Vault) → Inv s.sessions → InOrder (handle_logout b r s)
unfolding handle_logout
logout-InOrder b r s v = session_destroy-Inv b r.session_id s.sessions v

pub handle_first :
    (pbkdf2 : Bytes → Bytes → Bytes) (b : Build) (c : Calls) (r : Request) (s : Vault)
    → r.op ≡ op_code login
    → handle pbkdf2 b c r s ≡ handle_login pbkdf2 b c r s
unfolding handle
handle_first pbkdf2 b c r s first = ground arith

switch-InOrder :
    (b : Build) (c : Calls) (r : Request) (p : Ptr) (s : Vault)
    → Inv s.sessions
    → InOrder (switch b c r p s)
unfolding switch
switch-InOrder b c r p s v = if_both InOrder (r.op == op_code logout) (logout-InOrder b r s v) (
    if_both InOrder (r.op == op_code upload) (unchanged (upload_sessions b c r s)) (
      if_both InOrder (r.op == op_code download) (unchanged (download_sessions b c r s)) (
        if_both InOrder (r.op == op_code delete) (touched (delete_sessions c r p s)) (
          if_both InOrder (r.op == op_code list) (unchanged (list_sessions c r s))
            (if_both InOrder (r.op == op_code backup) (touched (backup_sessions b r p s)) v)))))
  where
    unchanged : {t : Sessions} → t ≡ s.sessions → Inv t
    unchanged e = subst Inv (sym e) v

    touched : {t : Sessions} → t ≡ touch p s.sessions → Inv t
    touched e = subst Inv (sym e) (touch-Inv p s.sessions v)

-- Every request keeps the session table in order, in both builds and on all paths, refusals and
-- failures of the system included; the allocator returns NULL or an address that is not in use.
pub proto_dispatch-Inv :
    (pbkdf2 : Bytes → Bytes → Bytes) (b : Build) (c : Calls) (r : Request) (s : Vault)
    → Inv s.sessions
    → IsFree s.sessions c.environment.fresh
    → Inv (proto_dispatch pbkdf2 b c r s).2.sessions
unfolding proto_dispatch
proto_dispatch-Inv pbkdf2 b c r s v dead = elim (Bool-cases (r.op == op_code login)) [
  | inl first ↦
      subst InOrder (sym (handle_first pbkdf2 b c r s (ground arith)))
        (login-InOrder pbkdf2 b c r s v dead)
  | inr other ↦ elim (handle_gate pbkdf2 b c r s v (ground arith)) [
    | inl (_, same) ↦ subst (λ (t : Vault). Inv t.sessions) (sym same) v
    | inr (k, h, m, early, e) ↦
        subst InOrder (sym e) (switch-InOrder b c r (s.sessions.slots k) s v)
  ]
]
