-- ===== src/Main/Clients.antt =====
-- `handle_client` of src/main.c from the accepted connection to its close, with the dispatcher.
use secure_ci_coding.Base.{
  ℕ, ◌≤◌, ◌≡◌, refl, ap, ◌∙◌, inl, inr, arith, Bool, Bool-cases, some, List, Bytes, All, ◌==◌,
  if◌then◌else◌,
}
use secure_ci_coding.Common.{Build, fixed}
use secure_ci_coding.Session.{Ptr, null}
use secure_ci_coding.Auth.Users.{IsTable}
use secure_ci_coding.Network.{Network, conn_close, close}
use secure_ci_coding.Server.{Request, Client, find_connection}
use secure_ci_coding.Server.Ends.{IsPlain, IsChunk, client_loop_ends}
use secure_ci_coding.Server.Guarded.{Guarded, client_loop-Good}
use secure_ci_coding.Dispatch.{proto_dispatch, serve, Running}
use secure_ci_coding.Dispatch.State.{Calls, Vault}
use secure_ci_coding.Main.{hang_up, client_with, handle_client}
use secure_ci_coding.Main.Steps.{proto_inert}

-- The network when the client is gone, from what the search for its connection gave.
abbrev pub hung_up : Build → (shut : Bool) → (fd : ℕ) → Ptr × Network → Network
hung_up b shut fd (p, net) = if p == null then close fd net else conn_close b shut p net

module _ {S : Type 0} (g : Guarded S) (b : Build) (shut : Bool) (n fd : ℕ) (raw : Bytes)
    (chunks : List Bytes) (s : S) where
  open g use {dispatch, Good}

  -- A property that every request keeps holds when the client is gone.
  with_connection :
      (found : Ptr × Network)
      → 4110 ≤ n
      → IsPlain raw
      → All IsChunk chunks
      → Good s
      → (t : S) × (client_with dispatch b shut n fd raw chunks s found
          ≡ some (hung_up b shut fd found, t))
        × Good t
  with_connection (p, net) enough plain good start = elim (Bool-cases (p == null)) [
    | inl missing ↦ (s, rw missing refl, start)
    | inr there ↦
        let first : Client S = record { raw = raw; buf_pos = 0; server = s } in
        let (t, e) = client_loop_ends dispatch n enough chunks first plain (omega arith) good in
        let kept = client_loop-Good g n chunks first start in
        (t, rw there (ap (hang_up b shut p net) e), rw e at kept)
  ]

-- The fixed dispatcher keeps a state without sessions and with a well-formed user table as it is.
inert :
    (pbkdf2 : Bytes → Bytes → Bytes) (calls : ℕ → Calls) (v : Vault)
    → IsTable v.users
    → v.sessions.count ≡ 0
    → (r : Request) (s : Running) → s.vault ≡ v
    → (serve pbkdf2 fixed calls r s).vault ≡ v
unfolding serve
inert pbkdf2 calls v t empty r s same =
    ap (λ u. (proto_dispatch pbkdf2 fixed (calls s.turn) r u).2) same
    ∙ proto_inert pbkdf2 (calls s.turn) r v t empty

-- In the fixed build, on a well-formed user table and with no session open, no stream of a client changes
-- the sessions, the users, the files or the commands run: when `handle_client` has closed the
-- connection, which it does, the state behind the dispatcher is the one before. The stream comes in
-- pieces of at most 4096 bytes, no byte of it is 255, nor of the buffer as it is found at the start,
-- and there are rounds for a full buffer.
pub handle_client_inert :
    (pbkdf2 : Bytes → Bytes → Bytes) (calls : ℕ → Calls) (shut : Bool) (n fd : ℕ) (raw : Bytes)
    (chunks : List Bytes) (net : Network) (s : Running)
    → IsTable s.vault.users
    → s.vault.sessions.count ≡ 0
    → 4110 ≤ n
    → IsPlain raw
    → All IsChunk chunks
    → (t : Running) × (handle_client (serve pbkdf2 fixed calls) fixed shut n fd raw chunks net s
        ≡ some (hung_up fixed shut fd (find_connection fd net), t))
      × (t.vault ≡ s.vault)
unfolding handle_client
handle_client_inert pbkdf2 calls shut n fd raw chunks net s table empty enough plain good =
    let g : Guarded Running = record {
      dispatch = serve pbkdf2 fixed calls;
      Good = λ t. t.vault ≡ s.vault;
      keeps = inert pbkdf2 calls s.vault table empty;
    } in
    with_connection g fixed shut n fd raw chunks s (find_connection fd net) enough plain good refl
