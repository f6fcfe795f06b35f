-- ===== src/Dispatch/Handlers.antt =====
-- The cases of the switch of `proto_dispatch` in src/protocol.c. `content` of a request is the memory
-- from the payload on: where the source passes `data` on as a C string, the string may reach
-- beyond the payload.
use secure_ci_coding.Base.{
  ℕ, zero, suc, ◌+◌, ◌-◌, ◌/◌, ◌%◌, ◌||◌, Bool, true, false, Option, none, some, [], ◌∷◌, ◌++◌,
  Bytes, ltb, leb, if◌then◌else◌, take, drop, cstr, codes, index_of, contains, has_dotdot,
}
use secure_ci_coding.Common.{
  Build, vulnerable, fixed, Role, admin, guest, ℤ, pos, negsuc, ok, err_format, err_length,
  err_auth, err_perm, err_io, max_username_len, max_password_len, max_filename_len,
  max_payload_size, session_token_len, proto_result_max,
}
use secure_ci_coding.Session.{Ptr, Sessions, touch, session_create, session_destroy}
use secure_ci_coding.Session.Token.{Buffer, window}
use secure_ci_coding.Auth.{User, auth_verify, auth_lookup_user}
use secure_ci_coding.Config.{config_backup}
use secure_ci_coding.FileHandler.{Outcome, file_store, file_retrieve, file_delete, file_list}
use secure_ci_coding.Server.{Request}
use secure_ci_coding.Dispatch.State.{Vault, Calls, Reply, plain, keep, with_sessions}

-- `memchr(data, '\0', data_len)`
abbrev pub find_nul : Request → Option ℕ
find_nul r = index_of 0 (take r.data_len r.content)

-- `%u`, for at most `n` digits; a uint32_t has ten.
abbrev pub decimal : ℕ → ℕ → Bytes
decimal zero x = []
decimal (suc n) x =
    let rest = decimal n (x / 10) in
    if ltb x 10 then (b'0' + x) ∷ [] else rest ++ (b'0' + x % 10) ∷ []

-- The two strings that a log-in passes to `auth_verify`, with the name's NUL at offset `n`.
unfoldable pub login_name : Build → ℕ → Request → Bytes
login_name vulnerable n r = cstr r.content
login_name fixed n r = take (if leb max_username_len n then max_username_len - 1 else n) r.content

abbrev login_password_len : ℕ → ℕ
login_password_len len = if leb max_password_len len then max_password_len - 1 else len

unfoldable pub login_password : Build → ℕ → Request → Bytes
login_password vulnerable n r = cstr (drop (n + 1) r.content)
login_password fixed n r =
    cstr (take (login_password_len (r.data_len - (n + 1))) (drop (n + 1) r.content))

-- `user ? user->user_id : -1` and `user ? user->role : ROLE_GUEST`
abbrev pub user_id_of : Option User → ℤ
user_id_of none = negsuc 0
user_id_of (some u) = pos u.user_id

abbrev pub role_of : Option User → Role
role_of none = guest
role_of (some u) = u.role

-- `snprintf(result_msg, sizeof(result_msg), "LOGIN_OK %u %s", new_sid, token)`
abbrev pub login_message : ℕ → Buffer → Bytes
login_message sid token =
    take (proto_result_max - 1)
      (codes "LOGIN_OK " ++ (decimal 10 sid ++ b' ' ∷ cstr (window session_token_len 0 token.at)))

abbrev logged_in : ℕ × Buffer × Sessions → Vault → Reply × Vault
logged_in made s = (plain ok (login_message made.0 made.1), with_sessions made.2 s)

-- The session of a log-in that was accepted: `auth_lookup_user(user_start)` looks the name up uncut.
abbrev pub open_session : Build → Calls → Option User → Vault → Reply × Vault
open_session b c u s =
    logged_in (session_create b c.environment (user_id_of u) (role_of u) s.sessions) s

abbrev pub login_at :
    (Bytes → Bytes → Bytes) → Build → Calls → Request → Option ℕ → Vault → Reply × Vault
login_at pbkdf2 b c r none s = (plain err_auth (codes "Malformed login data"), s)
login_at pbkdf2 b c r (some n) s =
    if auth_verify pbkdf2 b c.salt (some (login_name b n r)) (some (login_password b n r)) s.users
    then open_session b c (auth_lookup_user (cstr r.content) s.users) s
    else (plain err_auth (codes "Authentication failed"), s)

unfoldable pub handle_login :
    (Bytes → Bytes → Bytes) → Build → Calls → Request → Vault → Reply × Vault
handle_login pbkdf2 b c r s =
    if ltb r.data_len 2 || ltb (max_username_len + max_password_len + 2) r.data_len
    then (plain err_auth (codes "Invalid login payload size"), s)
    else login_at pbkdf2 b c r (find_nul r) s

unfoldable pub handle_logout : Build → Request → Vault → Reply × Vault
handle_logout b r s =
    (plain ok (codes "LOGOUT_OK"), with_sessions (session_destroy b r.session_id s.sessions) s)

-- The characters that the fixed build looks for in a file name.
abbrev pub is_traversal : Bytes → Bool
is_traversal name = has_dotdot name || contains b'/' name

abbrev pub stored : Outcome (Unit {0}) → Vault → Reply × Vault
stored o s = (
  elim o.result [
    | none ↦ plain err_io (codes "File storage failed")
    | some _ ↦ plain ok (codes "UPLOAD_OK")
  ],
  keep o s,
)

abbrev pub upload_fixed : (name content : Bytes) (len : ℕ) → Calls → Vault → Reply × Vault
upload_fixed name content len c s =
    if is_traversal name
    then (plain err_perm (codes "Invalid filename characters"), s)
    else if ltb max_payload_size len
    then (plain err_length (codes "File too large"), s)
    else stored (file_store fixed c.system s.data_dir name content len) s

abbrev pub upload_at : Build → Calls → Request → Option ℕ → Vault → Reply × Vault
upload_at b c r none s = (plain err_format (codes "Missing filename in upload"), s)
upload_at vulnerable c r (some n) s =
    stored
      (file_store vulnerable c.system s.data_dir (cstr r.content) (drop (n + 1) r.content)
        (r.data_len - n - 1))
      s
upload_at fixed c r (some n) s =
    upload_fixed (take (if leb max_filename_len n then max_filename_len - 1 else n) r.content)
      (drop (n + 1) r.content) (r.data_len - n - 1) c s

unfoldable pub handle_upload : Build → Calls → Request → Vault → Reply × Vault
handle_upload b c r s = upload_at b c r (find_nul r) s

abbrev downloaded : Outcome Bytes → Vault → Reply × Vault
downloaded o s = (
  elim o.result [
    | none ↦ plain err_io (codes "File not found or read error")
    | some content ↦ record { code = ok; message = codes "DOWNLOAD_OK"; body = content }
  ],
  keep o s,
)

-- The name that the fixed build copies.
abbrev pub download_name : Request → Bytes
download_name r =
    cstr (
      take (if leb max_filename_len r.data_len then max_filename_len - 1 else r.data_len) r.content)

abbrev no_memory : Vault → Reply × Vault
no_memory s = (plain err_io (codes "Memory allocation failed"), s)

unfoldable pub handle_download : Build → Calls → Request → Vault → Reply × Vault
handle_download vulnerable c r s =
    if c.content_memory
    then downloaded (file_retrieve vulnerable c.system s.data_dir (cstr r.content)) s
    else no_memory s
handle_download fixed c r s =
    if is_traversal (download_name r)
    then (plain err_perm (codes "Invalid filename characters"), s)
    else if c.content_memory
    then downloaded (file_retrieve fixed c.system s.data_dir (download_name r)) s
    else no_memory s

abbrev pub is_admin : Role → Bool
is_admin admin = true
is_admin _ = false

abbrev deleted : Outcome (Unit {0}) → Vault → Reply × Vault
deleted o s = (
  elim o.result [
    | none ↦ plain err_io (codes "Delete failed")
    | some _ ↦ plain ok (codes "DELETE_OK")
  ],
  keep o s,
)

-- `session->role` is read through `p`.
unfoldable pub handle_delete : Calls → Request → Ptr → Vault → Reply × Vault
handle_delete c r p s =
    let s' = with_sessions (touch p s.sessions) s in
    if is_admin (s.sessions.heap p).role
    then deleted (file_delete c.system s.data_dir (cstr r.content)) s'
    else (plain err_perm (codes "Admin permission required for delete"), s')

-- The listing is empty where the directory cannot be opened; the answer is the same.
abbrev listing_of : Option Bytes → Bytes
listing_of none = []
listing_of (some text) = text

unfoldable pub handle_list : Calls → Request → Vault → Reply × Vault
handle_list c r s =
    if c.content_memory
    then (
      record {
        code = ok;
        message = codes "LIST_OK";
        body = listing_of (file_list (if ltb 0 r.data_len then cstr r.content else []) c.names);
      },
      s,
    )
    else no_memory s

unfoldable pub handle_backup : Build → Request → Ptr → Vault → Reply × Vault
handle_backup b r p s =
    let s' = with_sessions (touch p s.sessions) s in
    if is_admin (s.sessions.heap p).role
    then (
      plain ok (codes "BACKUP_OK"),
      record s' { commands = s.commands ++ config_backup b (cstr r.content) ∷ [] },
    )
    else (plain err_perm (codes "Admin permission required for backup"), s')
