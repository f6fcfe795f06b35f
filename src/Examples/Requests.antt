-- ===== src/Examples/Requests.antt =====
-- Requests to the dispatcher of src/protocol.c.
use secure_ci_coding.Base.{
  ℕ, ◌+◌, ◌≤◌, ◌<◌, ◌≡◌, ◌⊎◌, inl, inr, ◌↔◌, refl, arith, true, false, ◌&&◌, some, [], ◌∷◌, ◌++◌,
  Bytes, codes, ltb, if◌then◌else◌, cstr, same, contains, index_of, length, starts_with, has_dotdot,
}
use secure_ci_coding.Common.{
  vulnerable, fixed, admin, op_code, login, list, delete, ok, err_session, pos, max_filename_len,
}
use secure_ci_coding.Session.{Ptr, Session, Sessions, generate_session_id}
use secure_ci_coding.Session.Invariant.{Inv, Has}
use secure_ci_coding.Session.Lookup.{ActiveUnder}
use secure_ci_coding.Auth.{auth_verify, auth_hash_password, hex_from, verify_loop, input_valid}
use secure_ci_coding.Auth.Users.{new_user}
use secure_ci_coding.FileHandler.{System, reads, writes, full_path}
use secure_ci_coding.Server.{Request}
use secure_ci_coding.Dispatch.{handle, switch, proto_dispatch}
use secure_ci_coding.Dispatch.State.{Vault, Calls}
use secure_ci_coding.Dispatch.Handlers.{
  handle_download, handle_upload, download_name, login_name, login_password,
}
use secure_ci_coding.Dispatch.Gate.{handle_gate, handle_privileged}
use secure_ci_coding.Dispatch.Table.{proto_dispatch-Inv}
use secure_ci_coding.Dispatch.Confined.{handle_download_confined, handle_upload_confined}
use secure_ci_coding.Dispatch.LoginReply.{TellsId}
use secure_ci_coding.Dispatch.Login.{IsGranted, handle_login_full, handle-handle_login}

abbrev pub plain : Bytes → Bytes → Bytes
plain password salt = password

-- Sessions at the addresses from 1 on, with these ids.
abbrev pub session_at : Ptr → Session
session_at p = record {
  session_id = p;
  user_id = pos 1;
  role = admin;
  token = [];
  created_at = 0;
  expires_at = 1500;
  active = true;
}

abbrev pub sessions_of : ℕ → Sessions
sessions_of n = record {
  heap = session_at;
  live = λ p. ltb 0 p && ltb p (n + 1);
  slots = λ i. if ltb i n then i + 1 else 0;
  count = n;
  faults = [];
}

pub two-Inv : Inv (sessions_of 2)
two-Inv = record {
  bounded = omega arith;
  alive = λ i h. (ground arith, ground arith);
  cleared = λ i h. ground arith;
  distinct = λ i j h k e. ground arith;
}

full-Inv : Inv (sessions_of 32)
full-Inv = record {
  bounded = omega arith;
  alive = λ i h. (ground arith, ground arith);
  cleared = λ i h. ground arith;
  distinct = λ i j h k e. ground arith;
}

abbrev pub willing : System
willing = record {
  realpath = λ p. some p;
  opens = λ p. true;
  fsize = λ p. 5;
  contents = λ p. codes "hello";
  fwrite = λ p n. n;
  malloc = λ n. true;
  unlink = λ p. true;
}

abbrev pub calls : Calls
calls = record {
  system = willing;
  environment = record {
    urandom_id = some (some 77);
    urandom_token = some (171 ∷ 205 ∷ []);
    rand = λ k. k + 500;
    time = 1000;
    pid = 5;
    fresh = 40;
  };
  salt = [];
  now = 1000;
  names = some (codes "a" ∷ []);
  content_memory = true;
  response_memory = true;
}

-- One user, an administrator with the password "Secret".
abbrev pub vault_of : ℕ → Vault
vault_of n = record {
  sessions = sessions_of n;
  users = new_user plain vulnerable [] (codes "root") (codes "Secret") admin [] ∷ [];
  data_dir = codes "/data";
  effects = [];
  commands = [];
  faults = [];
}

abbrev login_request : Request
login_request = record {
  op = op_code login;
  session_id = 0;
  data_len = 11;
  content = codes "root" ++ 0 ∷ (codes "Secret" ++ 0 ∷ []);
}

abbrev delete_request : Request
delete_request = record {
  op = op_code delete;
  session_id = 2;
  data_len = 1;
  content = b'a' ∷ 0 ∷ [];
}

abbrev list_request : Request
list_request = record { op = op_code list; session_id = 500; data_len = 0; content = 0 ∷ [] }

abbrev download_request : Request
download_request = record { op = 4; session_id = 2; data_len = 1; content = b'a' ∷ 0 ∷ [] }

abbrev upload_request : Request
upload_request = record { op = 3; session_id = 2; data_len = 3; content = b'a' ∷ 0 ∷ b'x' ∷ [] }

handle_download_confined_example :
    ((handle_download fixed calls download_request (vault_of 2)).1.effects ≡ [])
    ⊎ ((path : Bytes) × ((handle_download fixed calls download_request (vault_of 2)).1.effects
          ≡ [] ++ reads path ∷ [])
        × (starts_with path (codes "/data") ≡ true)
        × (has_dotdot (download_name download_request) ≡ false)
        × (contains b'/' (download_name download_request) ≡ false))
handle_download_confined_example = handle_download_confined calls download_request (vault_of 2)

handle_upload_confined_example :
    ((handle_upload fixed calls upload_request (vault_of 2)).1.effects ≡ [])
    ⊎ ((name kept : Bytes) × ((handle_upload fixed calls upload_request (vault_of 2)).1.effects
          ≡ [] ++ writes (full_path (codes "/data") name) kept ∷ [])
        × (has_dotdot name ≡ false)
        × (contains b'/' name ≡ false)
        × (length name < max_filename_len))
handle_upload_confined_example = handle_upload_confined calls upload_request (vault_of 2)

IsGranted-two : IsGranted plain vulnerable calls login_request (vault_of 2) 4
unfolding login_name login_password auth_verify auth_hash_password hex_from verify_loop input_valid
    cstr same index_of
IsGranted-two = record { sized = (omega arith, omega arith); nul = refl; verified = refl }

IsGranted-full : IsGranted plain vulnerable calls login_request (vault_of 32) 4
unfolding login_name login_password auth_verify auth_hash_password hex_from verify_loop input_valid
    cstr same index_of
IsGranted-full = record { sized = (omega arith, omega arith); nul = refl; verified = refl }

handle_gate_example :
    (((handle plain fixed calls delete_request (vault_of 2)).0.code ≡ err_session)
      × ((handle plain fixed calls delete_request (vault_of 2)).1 ≡ vault_of 2))
    ⊎ ((k : ℕ) × (k < 2)
        × ActiveUnder (sessions_of 2) 2 k
        × (1000 ≤ 1500)
        × (handle plain fixed calls delete_request (vault_of 2)
            ≡ switch fixed calls delete_request ((sessions_of 2).slots k) (vault_of 2)))
handle_gate_example =
    handle_gate plain fixed calls delete_request (vault_of 2) two-Inv (omega arith)

handle_privileged_example :
    (((handle plain fixed calls delete_request (vault_of 2)).1.effects ≡ [])
      × ((handle plain fixed calls delete_request (vault_of 2)).1.commands ≡ []))
    ⊎ ((k : ℕ) × (k < 2) × ActiveUnder (sessions_of 2) 2 k × (1000 ≤ 1500) × (admin ≡ admin))
handle_privileged_example =
    handle_privileged plain fixed calls delete_request (vault_of 2) two-Inv (inl refl)

proto_dispatch-Inv_example :
    Inv (proto_dispatch plain vulnerable calls login_request (vault_of 2)).2.sessions
proto_dispatch-Inv_example =
    proto_dispatch-Inv plain vulnerable calls login_request (vault_of 2) two-Inv (inr refl)

handle_login_full_example :
    ((handle plain vulnerable calls login_request (vault_of 32)).0.code ≡ ok)
    × TellsId (handle plain vulnerable calls login_request (vault_of 32)).0.message 0
    × ((q : Ptr)
        → Has (handle plain vulnerable calls login_request (vault_of 32)).1.sessions q
          ↔ Has (sessions_of 32) q)
handle_login_full_example =
    handle_login_full plain vulnerable calls login_request (vault_of 32) 4 full-Inv refl
      (omega arith) refl IsGranted-full

unused_id : (j : ℕ) → j < 2 → ¬ ActiveUnder (sessions_of 2) 500 j
unused_id j h m = ground (arith, m.0)

id_given : 500 ≡ generate_session_id vulnerable (some (some 77)) 1000 5 500
unfolding generate_session_id
id_given = refl

handle-handle_login_example :
    ((handle plain vulnerable calls login_request (vault_of 2)).0.code ≡ ok)
    × TellsId (handle plain vulnerable calls login_request (vault_of 2)).0.message 500
    × (handle plain vulnerable calls list_request
          (handle plain vulnerable calls login_request (vault_of 2)).1
        ≡ switch vulnerable calls list_request 40
            (handle plain vulnerable calls login_request (vault_of 2)).1)
handle-handle_login_example =
    handle-handle_login plain vulnerable calls calls login_request list_request (vault_of 2) 4
      two-Inv refl (omega arith) (omega arith) refl IsGranted-two (omega arith) (omega arith)
      id_given unused_id (omega arith)
