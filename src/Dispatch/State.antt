-- ===== src/Dispatch/State.antt =====
-- What `proto_dispatch` of src/protocol.c works on: the state of the modules it calls, the answers of
-- the library and the system during one call, and the reply it builds.
use secure_ci_coding.Base.{ℕ, Bool, Option, List, [], ◌++◌, Bytes}
use secure_ci_coding.Common.{Fault, ResultCode}
use secure_ci_coding.Session.{Sessions, Environment}
use secure_ci_coding.Auth.{User}
use secure_ci_coding.Config.{Command}
use secure_ci_coding.FileHandler.{System, Effect, Outcome}

-- The session table, the user table, `g_data_dir`, and what was done to the files, run as commands and
-- done wrong by the file handler so far.
pub record Vault : Type 0 where
  pub sessions : Sessions
  pub users : List User
  pub data_dir : Bytes
  pub effects : List Effect
  pub commands : List Command
  pub faults : List Fault

-- `salt` is for the hash of a log-in; `now` is the time that `session_validate` reads; `names` is what
-- the data directory holds, if it can be opened; the last two tell whether the allocations of
-- the contents and of the response succeed.
pub record Calls : Type 0 where
  pub system : System
  pub environment : Environment
  pub salt : Bytes
  pub now : ℕ
  pub names : Option (List Bytes)
  pub content_memory : Bool
  pub response_memory : Bool

-- `result_code`, `result_msg` as a string, and `resp_data`.
pub record Reply : Type 0 where
  pub code : ResultCode
  pub message : Bytes
  pub body : Bytes

abbrev pub plain : ResultCode → Bytes → Reply
plain code message = record { code = code; message = message; body = [] }

-- What a call of the file handler leaves.
abbrev pub keep : {A : Type 0} → Outcome A → Vault → Vault
keep o s = record s { effects = s.effects ++ o.effects; faults = o.faults ++ s.faults }

abbrev pub with_sessions : Sessions → Vault → Vault
with_sessions t s = record s { sessions = t }
