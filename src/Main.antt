-- ===== src/Main.antt =====
-- src/main.c: `handle_client` as a whole, the arguments, the start and the shutdown of the server.
pub mod Options
pub mod Begin
pub mod Steps
pub mod Closing
pub mod Shutdown
pub mod Clients
use secure_ci_coding.Base.{
  ℕ, zero, suc, ◌+◌, Bool, true, false, Option, none, some, List, [], ◌∷◌, Bytes, ◌==◌,
  if◌then◌else◌,
}
use secure_ci_coding.Common.{Build, ResultCode, max_connections}
use secure_ci_coding.Session.{Ptr, null, Sessions, session_cleanup_expired, update}
use secure_ci_coding.Auth.{User, auth_init}
use secure_ci_coding.Config.{Entry, config_load, config_free}
use secure_ci_coding.FileHandler.{file_handler_init}
use secure_ci_coding.Logger.{Log, log_init, log_close}
use secure_ci_coding.Network.{Network, network_init, conn_close, close}
use secure_ci_coding.Server.{Request, Client, client_loop, find_connection}
use Options.{Settings}

-- `conn_close(conn)` behind the loop.
abbrev hang_up : {S : Type 0} → Build → Bool → Ptr → Network → Option S → Option (Network × S)
hang_up b shut p net none = none
hang_up b shut p net (some s) = some (conn_close b shut p net, s)

abbrev client_with :
    {S : Type 0}
    → (Request → S → S)
    → Build
    → (shut : Bool) → (n : ℕ) → (fd : ℕ) → (raw : Bytes) → (chunks : List Bytes) → S
    → Ptr × Network
    → Option (Network × S)
client_with dispatch b shut n fd raw chunks s (p, net) =
    if p == null
    then some (close fd net, s)
    else hang_up b shut p net
        (client_loop dispatch n chunks (record { raw = raw; buf_pos = 0; server = s }))

-- `handle_client`, with the bytes that its buffer holds when it starts, and the results of `recv`.
unfoldable pub handle_client :
    {S : Type 0}
    → (Request → S → S)
    → Build
    → (shut : Bool) → (n : ℕ) → (fd : ℕ) → (raw : Bytes) → (chunks : List Bytes) → Network
    → S
    → Option (Network × S)
handle_client dispatch b shut n fd raw chunks net s =
    client_with dispatch b shut n fd raw chunks s (find_connection fd net)

-- The state of all modules.
pub record State : Type 0 where
  pub log : Log
  pub entries : List Entry
  pub users : List User
  pub data_dir : Bytes
  pub network : Network
  pub sessions : Sessions

-- What the calls of the system give while the server starts.
pub record Start : Type 0 where
  pub log_opened : Bool
  pub config : Option (List (Bool × Bytes))
  pub salts : ℕ → Bytes
  pub exists : Bytes → Bool
  pub made : Bytes → Bool
  pub sock : Option ℕ
  pub bound : Bool
  pub listens : Bool

abbrev or_entries : List Entry → Option (List Entry) → List Entry
or_entries entries none = entries
or_entries entries (some loaded) = loaded

abbrev is_listening : Option ℕ → Bool
is_listening none = false
is_listening (some fd) = true

-- The start in `main` behind the arguments: only the result of `network_init` stops it. The value is
-- whether the server goes on to accept.
unfoldable pub start : (Bytes → Bytes → Bytes) → Build → Start → Settings → State → Bool × State
start pbkdf2 b calls o s =
    let log = (log_init calls.log_opened s.log).1 in
    let entries = or_entries s.entries (config_load calls.config s.entries) in
    let users = auth_init pbkdf2 b calls.salts s.users in
    let data_dir = (file_handler_init calls.exists calls.made (some o.data_dir) s.data_dir).1 in
    let listening = network_init calls.sock calls.bound calls.listens s.network in
    let s' : State = record {
      log = log;
      entries = entries;
      users = users;
      data_dir = data_dir;
      network = listening.1;
      sessions = s.sessions;
    } in
    (is_listening listening.0, s')

-- One round of the loop that closes the connections.
abbrev pub close_slot : Build → Bool → ℕ → Network → Network
close_slot b shut i s =
    if s.slots i == null
    then s
    else (let t = conn_close b shut (s.slots i) s in record t { slots = update t.slots i null })

-- `for (i = 0; i < MAX_CONNECTIONS; i++)`, with `n` rounds left.
unfoldable pub close_loop : ℕ → ℕ → Build → (shut : ℕ → Bool) → Network → Network
close_loop zero i b shut s = s
close_loop (suc n) i b shut s = close_loop n (i + 1) b shut (close_slot b (shut i) i s)

-- The shutdown in `main`.
unfoldable pub shutdown : Build → (shut : ℕ → Bool) → (now : ℕ) → State → State
shutdown b shut now s = record s {
  network = close_loop max_connections 0 b shut s.network;
  sessions = session_cleanup_expired now s.sessions;
  entries = config_free s.entries;
  log = log_close s.log;
}
