-- ===== src/Dispatch.antt =====
-- `proto_dispatch` of src/protocol.c, and the call of it in `handle_client` of src/main.c. A call is
-- one step here, as it is while no other thread changes the session table under it; Threads cuts it at
-- the places where another thread can.
pub mod State
pub mod Handlers
pub mod Gate
pub mod Table
pub mod LoginReply
pub mod Login
pub mod Confined
pub mod Frame
pub mod Threads
pub mod Responses
pub mod FileRequests
pub mod Transfer
use secure_ci_coding.Base.{
  ℕ, ◌+◌, Bool, true, false, Option, none, some, List, [], ◌∷◌, ◌++◌, Bytes, ◌==◌, if◌then◌else◌,
  codes,
}
use secure_ci_coding.Common.{
  Build, op_code, login, logout, upload, download, delete, list, backup, ResultCode, err_session,
  err_opcode, err_io,
}
use secure_ci_coding.Protocol.{serialize_response}
use secure_ci_coding.Session.{Ptr, Sessions, session_lookup, session_validate}
use secure_ci_coding.Server.{Request}
use State.{Vault, Calls, Reply, plain, with_sessions}
use Handlers.{
  handle_login, handle_logout, handle_upload, handle_download, handle_delete, handle_list,
  handle_backup,
}

-- `switch (op_code)` less the log-in, with the session at `p`.
unfoldable pub switch : Build → Calls → Request → Ptr → Vault → Reply × Vault
switch b c r p s =
    if r.op == op_code logout
    then handle_logout b r s
    else if r.op == op_code upload
    then handle_upload b c r s
    else if r.op == op_code download
    then handle_download b c r s
    else if r.op == op_code delete
    then handle_delete c r p s
    else if r.op == op_code list
    then handle_list c r s
    else if r.op == op_code backup
    then handle_backup b r p s
    else (plain err_opcode (codes "Unhandled operation"), s)

abbrev pub after_validate : Build → Calls → Request → Ptr → Vault → Bool × Sessions → Reply × Vault
after_validate b c r p s (false, t) =
    (plain err_session (codes "Session expired, please re-login"), with_sessions t s)
after_validate b c r p s (true, t) = switch b c r p (with_sessions t s)

abbrev pub after_lookup : Build → Calls → Request → Vault → Option Ptr × Sessions → Reply × Vault
after_lookup b c r s (none, t) =
    (plain err_session (codes "Invalid or expired session"), with_sessions t s)
after_lookup b c r s (some p, t) =
    after_validate b c r p (with_sessions t s) (session_validate b p c.now t)

-- Up to the label `respond`.
unfoldable pub handle : (Bytes → Bytes → Bytes) → Build → Calls → Request → Vault → Reply × Vault
handle pbkdf2 b c r s =
    if r.op == op_code login
    then handle_login pbkdf2 b c r s
    else after_lookup b c r s (session_lookup r.session_id s.sessions)

-- The returned code and the response, if there is memory for it.
unfoldable pub respond : Bool → Request → Reply → ResultCode × Option Bytes
respond false r reply = (err_io, none)
respond true r reply =
    (reply.code, some (serialize_response r.op r.session_id reply.message ++ reply.body))

unfoldable pub proto_dispatch :
    (Bytes → Bytes → Bytes) → Build → Calls → Request → Vault → ResultCode × Option Bytes × Vault
proto_dispatch pbkdf2 b c r s =
    let h = handle pbkdf2 b c r s in
    let answer = respond c.response_memory r h.0 in (answer.0, answer.1, h.1)

-- The server as `handle_client` runs it: the state, the number of calls made, and the responses passed
-- to `network_write`, whose result the source ignores.
pub record Running : Type 0 where
  pub vault : Vault
  pub turn : ℕ
  pub responses : List Bytes

abbrev add_response : Option Bytes → List Bytes → List Bytes
add_response none responses = responses
add_response (some response) responses = responses ++ response ∷ []

-- `calls` gives the answers of the system at each call.
unfoldable pub serve : (Bytes → Bytes → Bytes) → Build → (ℕ → Calls) → Request → Running → Running
serve pbkdf2 b calls r s =
    let (_, response, vault) = proto_dispatch pbkdf2 b (calls s.turn) r s.vault in
    record { vault = vault; turn = s.turn + 1; responses = add_response response s.responses }
