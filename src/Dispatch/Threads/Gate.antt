-- ===== src/Dispatch/Threads/Gate.antt =====
-- What a request has passed when it reaches its case of the switch, whatever the other threads do.
use secure_ci_coding.Base.{
  ℕ, zero, suc, ◌+◌, ◌≤◌, ◌<◌, ◌≡◌, ◌≢◌, ◌⊎◌, refl, ap, subst, ◌∙◌, inl, inr, arith, true, false,
  Bool-cases, Option, none, some, Bytes, leb, ◌==◌, ◌&&◌, if◌then◌else◌,
}
use secure_ci_coding.Common.{fixed, op_code, login, err_session}
use secure_ci_coding.Session.{Ptr, null, Sessions, touch, touch_slot, slot_matches, check_times}
use secure_ci_coding.Session.Invariant.{Has}
use secure_ci_coding.Session.Lookup.{ActiveUnder, slot_matches→ActiveUnder}
use secure_ci_coding.Session.Validate.{is_registered→Has}
use secure_ci_coding.Server.{Request}
use secure_ci_coding.Dispatch.{switch}
use secure_ci_coding.Dispatch.State.{Vault, Calls, Reply, with_sessions}
use secure_ci_coding.Dispatch.Threads.{
  Others, find_slot, passes_search, invalid, expired, after_reads, after_search, after_find,
  returned, validated, handle_among,
}

-- The states in which the pointer is read from the slot, searched for, and looked at.
abbrev at_return : Others → Request → Vault → Vault
at_return o r s =
    o.before_return (with_sessions (find_slot s.sessions.count 0 r.session_id s.sessions).1 s)

abbrev at_search : Others → Request → Vault → Vault
at_search o r s = o.before_search (at_return o r s)

abbrev pub at_reads : Others → Request → Vault → Vault
at_reads o r s = o.before_reads (at_search o r s)

-- The pointer that the request goes on with, where slot `k` was found.
abbrev pub pointer : Others → Request → Vault → ℕ → Ptr
pointer o r s k = (at_return o r s).sessions.slots k

-- Slot `k` was active under the id when it was found; the pointer that the slot holds later is in the table when it is
-- searched for, and active and not expired when its fields are read.
pub record Passed (c : Calls) (o : Others) (r : Request) (s : Vault) (k : ℕ) : Type 0 where
  pub used : k < s.sessions.count
  pub found : ActiveUnder s.sessions r.session_id k
  pub registered : Has (at_search o r s).sessions (pointer o r s k)
  pub active : ((at_reads o r s).sessions.heap (pointer o r s k)).active ≡ true
  pub early : c.now ≤ ((at_reads o r s).sessions.heap (pointer o r s k)).expires_at

find_slot-ActiveUnder :
    (n i sid : ℕ) (s : Sessions) (k : ℕ)
    → (find_slot n i sid s).0 ≡ some k
    → (k < i + n) × ActiveUnder s sid k
unfolding find_slot
find_slot-ActiveUnder zero i sid s k e = absurd (ground arith)
find_slot-ActiveUnder (suc n) i sid s k e = elim (Bool-cases (slot_matches s (s.slots i) sid)) [
  | inl hit ↦
      let at : some i ≡ some k = rw hit at e in
      let here : i ≡ k = ground arith in
      (omega arith, subst (ActiveUnder s sid) here (slot_matches→ActiveUnder s sid i hit))
  | inr miss ↦
      let (low, m) =
        find_slot-ActiveUnder n (i + 1) sid (touch_slot (s.slots i) s) k (rw miss at e) in
      (omega arith, m)
]

-- The state in which the case of the switch runs, where `p` was looked at in `u`.
abbrev pub at_switch : Others → Ptr → Vault → Vault
at_switch o p u = o.before_switch (with_sessions (touch p u.sessions) u)

module _ (c : Calls) (o : Others) (r : Request) (p : Ptr) where
  passed_reads :
      (u : Vault)
      → ((after_reads fixed c o r p u (check_times p c.now u.sessions)).0.code ≡ err_session)
        ⊎ (((u.sessions.heap p).active ≡ true)
            × (c.now ≤ (u.sessions.heap p).expires_at)
            × (after_reads fixed c o r p u (check_times p c.now u.sessions)
                ≡ switch fixed c r p (at_switch o p u)))
  passed_reads u =
      let x = u.sessions.heap p in
      elim (Bool-cases (x.active && leb c.now x.expires_at)) [
        | inl good ↦ inr (
          ground arith,
          ground arith,
          ap (λ t. after_reads fixed c o r p u (t, touch p u.sessions)) good,
        )
        | inr bad ↦ inl (ap (λ t. (after_reads fixed c o r p u (t, touch p u.sessions)).0.code) bad)
      ]

  passed_search :
      (v : Vault)
      → ((validated fixed c o r p v).0.code ≡ err_session)
        ⊎ (Has (o.before_search v).sessions p
            × (((o.before_reads (o.before_search v)).sessions.heap p).active ≡ true)
            × (c.now ≤ ((o.before_reads (o.before_search v)).sessions.heap p).expires_at)
            × (validated fixed c o r p v
                ≡ switch fixed c r p (at_switch o p (o.before_reads (o.before_search v)))))
  passed_search v =
      let u = o.before_search v in
      elim (Bool-cases (passes_search fixed p u.sessions)) [
        | inl there ↦
            let goes_on : validated fixed c o r p v ≡ after_search fixed c o r p u =
              ap (λ t. if t then after_search fixed c o r p u else expired u) there in
            elim (passed_reads (o.before_reads u)) [
              | inl refused ↦ inl (ap (λ (h : Reply × Vault). h.0.code) goes_on ∙ refused)
              | inr (active, early, e) ↦
                  inr (is_registered→Has p u.sessions there, active, early, goes_on ∙ e)
            ]
        | inr gone ↦
            inl (ap (λ t. (if t then after_search fixed c o r p u else expired u).0.code) gone)
      ]

-- In the fixed build, whatever the other threads do between the sections of a request other than a log-in:
-- it is answered with the session error, or its case of the switch runs with a pointer that has passed
-- every test, each at its own time. The slot was active under the id when it was found, the pointer
-- read from it later was in the table when it was searched for, and its session was active and not expired when it was
-- looked at; none of this is looked at again behind these times.
pub handle_among-gate :
    (pbkdf2 : Bytes → Bytes → Bytes) (c : Calls) (o : Others) (r : Request) (s : Vault)
    → r.op ≢ op_code login
    → ((handle_among pbkdf2 fixed c o r s).0.code ≡ err_session)
      ⊎ ((k : ℕ) × Passed c o r s k
          × (handle_among pbkdf2 fixed c o r s
              ≡ switch fixed c r
                  (pointer o r s k)
                  (at_switch o (pointer o r s k) (at_reads o r s))))
unfolding handle_among
handle_among-gate pbkdf2 c o r s other =
    let no : (r.op == op_code login) ≡ false = ground arith in
    rw no (by_find (find_slot s.sessions.count 0 r.session_id s.sessions).0 refl)
  where
    by_find :
        (x : Option ℕ)
        → (find_slot s.sessions.count 0 r.session_id s.sessions).0 ≡ x
        → ((after_find fixed c o r s
              (x, (find_slot s.sessions.count 0 r.session_id s.sessions).1)).0.code
            ≡ err_session)
          ⊎ ((k : ℕ) × Passed c o r s k
              × (after_find fixed c o r s
                    (x, (find_slot s.sessions.count 0 r.session_id s.sessions).1)
                  ≡ switch fixed c r
                      (pointer o r s k)
                      (at_switch o (pointer o r s k) (at_reads o r s))))
    by_find none e = inl refl
    by_find (some k) e =
        let p = pointer o r s k in
        let v = at_return o r s in
        let (low, m) = find_slot-ActiveUnder s.sessions.count 0 r.session_id s.sessions k e in
        elim (Bool-cases (p == null)) [
          | inl empty ↦
              inl (ap (λ t. (if t then invalid v else validated fixed c o r p v).0.code) empty)
          | inr real ↦
              let goes_on : returned fixed c o r p v ≡ validated fixed c o r p v =
                ap (λ t. if t then invalid v else validated fixed c o r p v) real in
              elim (passed_search c o r p v) [
                | inl refused ↦ inl (ap (λ (h : Reply × Vault). h.0.code) goes_on ∙ refused)
                | inr (there, active, early, e') ↦
                    let all : Passed c o r s k = record {
                      used = omega arith;
                      found = m;
                      registered = there;
                      active = active;
                      early = early;
                    } in
                    inr (k, all, goes_on ∙ e')
              ]
        ]
