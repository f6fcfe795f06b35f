-- ===== src/Examples/Machine.antt =====
-- The server of src/main.c as a whole.
use secure_ci_coding.Base.{
  ◌<◌, ◌≡◌, ◌⊎◌, inr, refl, arith, true, false, ◌||◌, some, none, [], ◌∷◌, ◌++◌, ◌==◌,
  if◌then◌else◌, codes, length, same,
}
use secure_ci_coding.Common.{
  vulnerable, fixed, guest, pos, op_code, login, max_path_len, max_username_len,
}
use secure_ci_coding.Session.{null, Sessions}
use secure_ci_coding.Auth.Users.{empty-IsTable}
use secure_ci_coding.Logger.{file}
use secure_ci_coding.Network.{Network, Incoming, network_accept, conn_close}
use secure_ci_coding.Network.Close.{Holds}
use secure_ci_coding.Server.{Request}
use secure_ci_coding.Dispatch.{proto_dispatch}
use secure_ci_coding.Dispatch.State.{Calls}
use secure_ci_coding.Main.{State, Start, start, shutdown}
use secure_ci_coding.Main.Options.{Settings, default_options, parse_args, begin, go}
use secure_ci_coding.Main.Begin.{env_name, begin_bounds}
use secure_ci_coding.Main.Steps.{
  World, accepts, serves, closes, Reach, here, next, Sound, Reach-Sound, world_of,
  start_fixed_inert,
}
use secure_ci_coding.Main.Closing.{Separate, IsGivenBack}
use secure_ci_coding.Main.Shutdown.{shutdown_closes}

abbrev no_sessions : Sessions
no_sessions = record {
  heap = λ p. record {
    session_id = 0;
    user_id = pos 0;
    role = guest;
    token = [];
    created_at = 0;
    expires_at = 0;
    active = false;
  };
  live = λ p. false;
  slots = λ i. 0;
  count = 0;
  faults = [];
}

-- One connection at 10 with its buffer at 20.
abbrev pub connected : Network
connected = record {
  heap = λ p. record { fd = some 4; buffer = 20; buf_size = 4096; buf_used = 0; session = 30 };
  live = λ p. p == 10 || p == 20;
  is_open = λ fd. fd == 4;
  slots = λ i. if i == 0 then 10 else 0;
  count = 1;
  faults = [];
}

connected-Separate : Separate 0 connected
connected-Separate = record {
  held = λ j h real. ground (arith, holds);
  slots_apart = λ j k h h' other real e. ground arith;
  buffers_apart = λ j k h h' other real real' e. ground arith;
  mixed_apart = λ j k h h' real real' e. ground arith;
}
  where
    holds : Holds connected 10
    holds = record {
      real = omega arith;
      buffer_real = omega arith;
      alive = refl;
      buffer_alive = refl;
      apart = omega arith;
    }

abbrev before : State
before = record {
  log = record { target = file; on_stderr = []; in_file = [] };
  entries = [];
  users = [];
  data_dir = codes "/data";
  network = connected;
  sessions = no_sessions;
}

shutdown_closes_example :
    ((shutdown fixed (λ i. true) 1000 before).network.faults ≡ [])
    × ((shutdown fixed (λ i. true) 1000 before).network.slots 0 ≡ null)
    × ((10 ≡ null) ⊎ IsGivenBack connected (shutdown fixed (λ i. true) 1000 before).network 10)
shutdown_closes_example = shutdown_closes (λ i. true) 1000 before 0 connected-Separate (omega arith)

-- Calls of the system that all succeed.
abbrev starting : Start
starting = record {
  log_opened = true;
  config = none;
  salts = λ i. [];
  exists = λ p. true;
  made = λ p. true;
  sock = some 3;
  bound = true;
  listens = true;
}

abbrev options : Settings
options = record default_options { data_dir = codes "/srv" }

options_given :
    begin (λ s. pos 0) (codes "-d" ∷ codes "/srv" ∷ []) (some (codes "root")) ≡ go options
unfolding begin parse_args same
options_given = refl

begin_bounds_example :
    (parse_args (λ s. pos 0) (codes "-d" ∷ codes "/srv" ∷ []) default_options ≡ some options)
    × (length options.config_path < max_path_len)
    × (length options.data_dir < max_path_len)
    × (length options.log_path < max_path_len)
    × (length (env_name (some (codes "root"))) < max_username_len)
    × ((start (λ p s. p) fixed starting options before).1.data_dir ≡ codes "/srv")
begin_bounds_example =
    begin_bounds (λ s. pos 0) (codes "-d" ∷ codes "/srv" ∷ []) (some (codes "root")) options
      (λ p s. p) fixed starting before options_given (λ e. ground (arith, e))

abbrev pub answers : Calls
answers = record {
  system = record {
    realpath = λ p. some p;
    opens = λ p. true;
    fsize = λ p. 5;
    contents = λ p. codes "hello";
    fwrite = λ p n. n;
    malloc = λ n. true;
    unlink = λ p. true;
  };
  environment = record {
    urandom_id = some (some 77);
    urandom_token = some (171 ∷ 205 ∷ []);
    rand = λ k. k;
    time = 1000;
    pid = 5;
    fresh = 40;
  };
  salt = [];
  now = 1000;
  names = none;
  content_memory = true;
  response_memory = true;
}

abbrev login_request : Request
login_request = record {
  op = op_code login;
  session_id = 0;
  data_len = 27;
  content = codes "admin" ++ 0 ∷ (codes "Admin@SecureFile2024!" ++ 0 ∷ []);
}

abbrev pub world : World
world = record {
  network = connected;
  vault = record {
    sessions = no_sessions;
    users = [];
    data_dir = codes "/data";
    effects = [];
    commands = [];
    faults = [];
  };
}

world-Sound : Sound world
world-Sound = record {
  sessions = record {
    bounded = omega arith;
    alive = λ i h. absurd (omega arith);
    cleared = λ i h. refl;
    distinct = λ i j h k e. absurd (omega arith);
  };
  users = empty-IsTable;
  bounded = omega arith;
  cleared = λ i h. ground arith;
}

abbrev visitor : Incoming
visitor = record { client_fd = 7; conn = 50; buffer = 51 }

abbrev visited : World
visited = record world { network = (network_accept (some visitor) connected).1 }

abbrev asked : World
asked = record visited {
  vault = (proto_dispatch (λ p s. p) vulnerable answers login_request visited.vault).2;
}

abbrev left : World
left = record asked { network = conn_close vulnerable true 50 asked.network }

steps : Reach (λ p s. p) vulnerable world left
steps =
    next
      (next (next here (accepts (some visitor) world))
        (serves answers login_request visited (inr refl)))
      (closes true 50 asked)

Reach-Sound_example : Sound left
Reach-Sound_example = Reach-Sound world-Sound steps

abbrev started : World
started = world_of (start (λ p s. p) fixed starting options before).1

abbrev tried : World
tried = record started {
  vault = (proto_dispatch (λ p s. p) fixed answers login_request started.vault).2;
}

free_address : (start (λ p s. p) fixed starting options before).1.sessions.live 40 ≡ false
unfolding start
free_address = refl

start_fixed_inert_example :
    (tried.vault.sessions.count ≡ 0) × (tried.vault.effects ≡ []) × (tried.vault.commands ≡ [])
start_fixed_inert_example =
    start_fixed_inert (λ p s. p) starting options before refl refl
      (next here (serves answers login_request started (inr free_address)))
