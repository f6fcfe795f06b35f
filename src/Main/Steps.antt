-- ===== src/Main/Steps.antt =====
-- The server as a state machine: what the accepting loop and the threads of the clients do to the
-- connections and to the state behind the dispatcher, in any order. Each request and each call that
-- takes a mutex is one step.
use secure_ci_coding.Base.{
  ℕ, ◌≤◌, ◌≡◌, refl, sym, ap, subst, ◌∙◌, arith, Bool, Option, none, some, [], Bytes,
}
use secure_ci_coding.Common.{Build, vulnerable, fixed, max_connections}
use secure_ci_coding.Session.{Ptr, null, Sessions}
use secure_ci_coding.Session.Invariant.{Inv, IsFree}
use secure_ci_coding.Auth.Users.{IsTable, auth_init-IsTable, empty-IsTable}
use secure_ci_coding.Auth.{auth_init}
use secure_ci_coding.Network.{Network, Incoming, network_accept, conn_close}
use secure_ci_coding.Main.{State, Start, start}
use secure_ci_coding.Main.Options.{Settings}
use secure_ci_coding.Server.{Request}
use secure_ci_coding.Dispatch.{proto_dispatch}
use secure_ci_coding.Dispatch.State.{Vault, Calls}
use secure_ci_coding.Dispatch.Table.{proto_dispatch-Inv}
use secure_ci_coding.Dispatch.Frame.{proto_dispatch_frame, handle_inert}

pub record World : Type 0 where
  pub network : Network
  pub vault : Vault

-- `serves` is a request of any client; the allocator returns NULL or an address that is not in use.
pub data Step (pbkdf2 : Bytes → Bytes → Bytes) (b : Build) : World → World → Type 0 where
  accepts :
      (i : Option Incoming) (w : World)
      → Step pbkdf2 b w (record w { network = (network_accept i w.network).1 })
  serves :
      (c : Calls) (r : Request) (w : World)
      → IsFree w.vault.sessions c.environment.fresh
      → Step pbkdf2 b w (record w { vault = (proto_dispatch pbkdf2 b c r w.vault).2 })
  closes :
      (shut : Bool) (p : Ptr) (w : World)
      → Step pbkdf2 b w (record w { network = conn_close b shut p w.network })

pub data Reach (pbkdf2 : Bytes → Bytes → Bytes) (b : Build) (w : World) : World → Type 0 where
  here : Reach pbkdf2 b w w
  next : {u v : World} → Reach pbkdf2 b w u → Step pbkdf2 b u v → Reach pbkdf2 b w v

-- What holds between two steps.
pub record Sound (w : World) : Type 0 where
  pub sessions : Inv w.vault.sessions
  pub users : IsTable w.vault.users
  pub bounded : w.network.count ≤ max_connections
  pub cleared : (i : ℕ) → w.network.count ≤ i → w.network.slots i ≡ null

accept_bounded :
    (i : Option Incoming) (s : Network)
    → s.count ≤ max_connections
    → (network_accept i s).1.count ≤ max_connections
unfolding network_accept
accept_bounded none s h = h
accept_bounded (some i) s h = ground arith

accept_cleared :
    (i : Option Incoming) (s : Network) (k : ℕ)
    → ((k : ℕ) → s.count ≤ k → s.slots k ≡ null)
    → (network_accept i s).1.count ≤ k
    → (network_accept i s).1.slots k ≡ null
unfolding network_accept
accept_cleared none s k clear h = clear k h
accept_cleared (some i) s k clear h = ground (arith, clear k)

-- A close leaves the table as it is.
close_table :
    (b : Build) (shut : Bool) (p : Ptr) (s : Network)
    → ((conn_close b shut p s).count ≡ s.count)
      × ((k : ℕ) → (conn_close b shut p s).slots k ≡ s.slots k)
unfolding conn_close
close_table vulnerable shut p s = (ground arith, λ k. ground arith)
close_table fixed shut p s = (ground arith, λ k. ground arith)

Step-Sound :
    {pbkdf2 : Bytes → Bytes → Bytes} {b : Build} {w u : World}
    → Step pbkdf2 b w u
    → Sound w
    → Sound u
Step-Sound (accepts i w) s = record {
  sessions = s.sessions;
  users = s.users;
  bounded = accept_bounded i w.network s.bounded;
  cleared = λ k. accept_cleared i w.network k s.cleared;
}
Step-Sound {pbkdf2} {b} (serves c r w free) s = record {
  sessions = proto_dispatch-Inv pbkdf2 b c r w.vault s.sessions free;
  users = subst IsTable (sym (proto_dispatch_frame pbkdf2 b c r w.vault).0) s.users;
  bounded = s.bounded;
  cleared = s.cleared;
}
Step-Sound {pbkdf2} {b} (closes shut p w) s =
    let (same_count, same_slots) = close_table b shut p w.network in
    record {
      sessions = s.sessions;
      users = s.users;
      bounded = omega (arith, same_count, s.bounded);
      cleared = λ k h. same_slots k ∙ s.cleared k (omega (arith, same_count));
    }

-- In every state that the server reaches from a sound state, by accepting, serving and closing in any
-- order, in either build, the session table is in order, the user table is well formed, and the
-- table of connections is within its bound and NULL behind its count.
pub Reach-Sound :
    {pbkdf2 : Bytes → Bytes → Bytes} {b : Build} {w u : World}
    → Sound w
    → Reach pbkdf2 b w u
    → Sound u
Reach-Sound s here = s
Reach-Sound s (next r st) = Step-Sound st (Reach-Sound s r)

pub proto_inert :
    (pbkdf2 : Bytes → Bytes → Bytes) (c : Calls) (r : Request) (s : Vault)
    → IsTable s.users
    → s.sessions.count ≡ 0
    → (proto_dispatch pbkdf2 fixed c r s).2 ≡ s
unfolding proto_dispatch
proto_inert pbkdf2 c r s t empty = (handle_inert pbkdf2 c r s t empty).1

-- The fixed server, from a state without sessions and with a well-formed user table, never does
-- anything: in every state that it reaches, the sessions, the users, the files and the commands run
-- are those of the start.
Reach-fixed_inert :
    {pbkdf2 : Bytes → Bytes → Bytes} {w u : World}
    → IsTable w.vault.users
    → w.vault.sessions.count ≡ 0
    → Reach pbkdf2 fixed w u
    → u.vault ≡ w.vault
Reach-fixed_inert t empty here = refl
Reach-fixed_inert t empty (next r (accepts i w)) = Reach-fixed_inert t empty r
Reach-fixed_inert t empty (next r (closes shut p w)) = Reach-fixed_inert t empty r
Reach-fixed_inert {pbkdf2} t empty (next r (serves c q w free)) =
    let same = Reach-fixed_inert t empty r in
    proto_inert pbkdf2 c q w.vault (subst (λ (x : Vault). IsTable x.users) (sym same) t)
      (ap (λ (x : Vault). x.sessions.count) same ∙ empty)
    ∙ same

-- The state behind the dispatcher when the server has started.
abbrev pub world_of : State → World
world_of s = record {
  network = s.network;
  vault = record {
    sessions = s.sessions;
    users = s.users;
    data_dir = s.data_dir;
    effects = [];
    commands = [];
    faults = [];
  };
}

start_state :
    (pbkdf2 : Bytes → Bytes → Bytes) (b : Build) (calls : Start) (o : Settings) (s : State)
    → ((start pbkdf2 b calls o s).1.users ≡ auth_init pbkdf2 b calls.salts s.users)
      × ((start pbkdf2 b calls o s).1.sessions ≡ s.sessions)
unfolding start
start_state pbkdf2 b calls o s = (refl, refl)

-- The fixed server, started without users and sessions, does nothing for any client: in every state
-- that it reaches, by accepting, serving and closing in any order, no session is open, no file
-- was read, written or removed, and no command was run.
pub start_fixed_inert :
    (pbkdf2 : Bytes → Bytes → Bytes) (calls : Start) (o : Settings) (s : State) {u : World}
    → s.users ≡ []
    → s.sessions.count ≡ 0
    → Reach pbkdf2 fixed (world_of (start pbkdf2 fixed calls o s).1) u
    → (u.vault.sessions.count ≡ 0) × (u.vault.effects ≡ []) × (u.vault.commands ≡ [])
start_fixed_inert pbkdf2 calls o s none_yet empty r =
    let (users, sessions) = start_state pbkdf2 fixed calls o s in
    let count : (start pbkdf2 fixed calls o s).1.sessions.count ≡ 0 =
      ap (λ (x : Sessions). x.count) sessions ∙ empty in
    let table : IsTable (start pbkdf2 fixed calls o s).1.users = subst IsTable (sym users) (
      auth_init-IsTable pbkdf2 fixed calls.salts s.users
        (subst IsTable (sym none_yet) empty-IsTable)) in
    let same = Reach-fixed_inert table count r in
    (
      ap (λ (x : Vault). x.sessions.count) same ∙ count,
      ap (λ (x : Vault). x.effects) same,
      ap (λ (x : Vault). x.commands) same,
    )
