-- ===== src/Dispatch/Login.antt =====
-- What a log-in that was accepted gives the client.
use secure_ci_coding.Base.{
  ℕ, ◌+◌, ◌≤◌, ◌<◌, ◌≡◌, ◌≢◌, ◌↔◌, inr, sym, ap, subst, ◌∙◌, arith, false, ltb, ◌||◌, Bytes, Option,
  some, cstr, true, if◌then◌else◌, codes, u32_mod,
}
use secure_ci_coding.Common.{
  Build, op_code, login, ok, err_auth, max_connections, session_timeout_sec,
}
use secure_ci_coding.Session.{
  Ptr, null, Sessions, session_create, session_lookup, generate_session_id,
}
use secure_ci_coding.Session.Token.{Buffer}
use secure_ci_coding.Session.Invariant.{Inv, Has}
use secure_ci_coding.Session.Lookup.{ActiveUnder}
use secure_ci_coding.Session.Create.{
  session_create-Inv, session_create_full, session_create_registers,
}
use secure_ci_coding.Session.Opened.{session_lookup-session_create}
use secure_ci_coding.Auth.{User, auth_verify, auth_lookup_user}
use secure_ci_coding.Server.{Request}
use secure_ci_coding.Dispatch.{handle, switch}
use secure_ci_coding.Dispatch.Gate.{handle_found}
use secure_ci_coding.Dispatch.Table.{handle_first}
use secure_ci_coding.Dispatch.State.{Vault, Calls, Reply, plain}
use secure_ci_coding.Dispatch.LoginReply.{TellsId, login_message-TellsId}
use secure_ci_coding.Dispatch.Handlers.{
  handle_login, login_name, login_password, login_at, find_nul, open_session, login_message,
  user_id_of, role_of,
}

-- A log-in whose payload has a size in bounds and a NUL at offset `n`, and whose password is right. In
-- the fixed build `auth_verify` refuses every password of a table in order (Auth/Verify).
pub record IsGranted (pbkdf2 : Bytes → Bytes → Bytes) (b : Build) (c : Calls) (r : Request)
    (s : Vault) (n : ℕ) : Type 0 where
  pub sized : (2 ≤ r.data_len) × (r.data_len ≤ 194)
  pub nul : find_nul r ≡ some n
  pub verified :
      auth_verify pbkdf2 b c.salt (some (login_name b n r)) (some (login_password b n r)) s.users
      ≡ true

-- It opens a session.
handle_granted :
    (pbkdf2 : Bytes → Bytes → Bytes) (b : Build) (c : Calls) (r : Request) (s : Vault) (n : ℕ)
    → r.op ≡ op_code login
    → IsGranted pbkdf2 b c r s n
    → handle pbkdf2 b c r s ≡ open_session b c (auth_lookup_user (cstr r.content) s.users) s
unfolding handle_login
handle_granted pbkdf2 b c r s n first g =
    let in_size : (ltb r.data_len 2 || ltb 194 r.data_len) ≡ false =
      (let size = g.sized in ground arith) in
    handle_first pbkdf2 b c r s first
    ∙ ap
        (λ t.
          if t
          then (plain err_auth (codes "Invalid login payload size"), s)
          else login_at pbkdf2 b c r (find_nul r) s)
        in_size
    ∙ ap (λ o. login_at pbkdf2 b c r o s) g.nul
    ∙ ap
        (λ t.
          if t
          then open_session b c (auth_lookup_user (cstr r.content) s.users) s
          else (plain err_auth (codes "Authentication failed"), s))
        g.verified

-- When the session table is full, and in order, a log-in whose payload is well formed and whose password is right
-- is answered with ok and a message that tells the client the session id 0; no session is registered
-- or lost.
pub handle_login_full :
    (pbkdf2 : Bytes → Bytes → Bytes) (b : Build) (c : Calls) (r : Request) (s : Vault) (n : ℕ)
    → Inv s.sessions
    → s.sessions.live c.environment.fresh ≡ false
    → max_connections ≤ s.sessions.count
    → r.op ≡ op_code login
    → IsGranted pbkdf2 b c r s n
    → ((handle pbkdf2 b c r s).0.code ≡ ok)
      × TellsId (handle pbkdf2 b c r s).0.message 0
      × ((q : Ptr) → Has (handle pbkdf2 b c r s).1.sessions q ↔ Has s.sessions q)
handle_login_full pbkdf2 b c r s n v dead full first granted =
    let u = auth_lookup_user (cstr r.content) s.users in
    let made = session_create b c.environment (user_id_of u) (role_of u) s.sessions in
    let opened = handle_granted pbkdf2 b c r s n first granted in
    let (zero_id, same, _) =
      session_create_full b c.environment (user_id_of u) (role_of u) s.sessions v dead full in
    (
      ap (λ (h : Reply × Vault). h.0.code) opened,
      subst (λ m. TellsId m 0)
          (sym (
            ap (λ (h : Reply × Vault). h.0.message) opened
            ∙ ap (λ sid. login_message sid made.1) zero_id))
          (login_message-TellsId 0 made.1 (omega arith)),
      λ q.
          subst (λ (h : Reply × Vault). Has h.1.sessions q ↔ Has s.sessions q) (sym opened)
            (same q),
    )

-- A log-in whose payload is well formed and whose password is right, with memory and a free slot in a
-- session table in order, is answered with ok and a message that tells the client the new session id;
-- and the next request with that id reaches its case of the switch with the new session, up to 1800
-- seconds later, unless the id was in use already. The id is a uint32_t. This holds in both builds.
pub handle-handle_login :
    (pbkdf2 : Bytes → Bytes → Bytes) (b : Build) (c c' : Calls) (r r' : Request) (s : Vault) (n : ℕ)
    → Inv s.sessions
    → s.sessions.live c.environment.fresh ≡ false
    → c.environment.fresh ≢ null
    → s.sessions.count < max_connections
    → r.op ≡ op_code login
    → IsGranted pbkdf2 b c r s n
    → r'.op ≢ op_code login
    → r'.session_id < u32_mod
    → r'.session_id
      ≡ generate_session_id b c.environment.urandom_id c.environment.time c.environment.pid
          (c.environment.rand 0)
    → ((j : ℕ) → j < s.sessions.count → ¬ ActiveUnder s.sessions r'.session_id j)
    → c'.now ≤ c.environment.time + session_timeout_sec
    → ((handle pbkdf2 b c r s).0.code ≡ ok)
      × TellsId (handle pbkdf2 b c r s).0.message r'.session_id
      × (handle pbkdf2 b c' r' (handle pbkdf2 b c r s).1
          ≡ switch b c' r' c.environment.fresh (handle pbkdf2 b c r s).1)
handle-handle_login pbkdf2 b c c' r r' s n v dead real room first granted other small id unused
      early =
    (
      ap (λ (h : Reply × Vault). h.0.code) opened,
      subst (λ m. TellsId m r'.session_id)
          (sym (
            ap (λ (h : Reply × Vault). h.0.message) opened
            ∙ ap (λ sid. login_message sid made.1) told))
          (login_message-TellsId r'.session_id made.1 small),
      subst
          (λ (h : Reply × Vault).
            handle pbkdf2 b c' r' h.1 ≡ switch b c' r' c.environment.fresh h.1)
          (sym opened) next,
    )
  where
    u : Option User
    u = auth_lookup_user (cstr r.content) s.users

    opened : handle pbkdf2 b c r s ≡ open_session b c u s
    opened = handle_granted pbkdf2 b c r s n first granted

    made : ℕ × Buffer × Sessions
    made = session_create b c.environment (user_id_of u) (role_of u) s.sessions

    told : made.0 ≡ r'.session_id
    told =
        (session_create_registers b c.environment (user_id_of u) (role_of u) s.sessions v dead real
          room).0
        ∙ sym id

    next :
        handle pbkdf2 b c' r' (open_session b c u s).1
        ≡ switch b c' r' c.environment.fresh (open_session b c u s).1
    next =
        let (k, h, at, m, expiry, found) =
          session_lookup-session_create b c.environment (user_id_of u) (role_of u) s.sessions v dead
            real room (λ j hj. subst (λ sid. ¬ ActiveUnder s.sessions sid j) id (unused j hj)) in
        let t = (open_session b c u s).1 in
        handle_found pbkdf2 b c' r' t k
          (session_create-Inv b c.environment (user_id_of u) (role_of u) s.sessions v (inr dead))
          other h (subst (λ sid. ActiveUnder t.sessions sid k) (sym id) m)
          (ap (λ sid. session_lookup sid t.sessions) id ∙ found)
          (omega (arith, ap (λ p. (t.sessions.heap p).expires_at) at))
        ∙ ap (λ p. switch b c' r' p t) at
