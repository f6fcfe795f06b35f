-- ===== src/Dispatch/Threads/Quiet.antt =====
-- A request that no other thread disturbs.
use secure_ci_coding.Base.{
  ℕ, zero, suc, ◌+◌, ◌≡◌, refl, sym, ap, ◌∙◌, inl, inr, arith, Bool, true, false, Bool-cases, Bytes,
  ◌==◌, if◌then◌else◌,
}
use secure_ci_coding.Common.{Build, vulnerable, fixed, op_code, login}
use secure_ci_coding.Session.{
  Ptr, null, Sessions, touch_slot, slot_matches, check_times, lookup_loop, session_lookup,
  session_validate,
}
use secure_ci_coding.Server.{Request}
use secure_ci_coding.Dispatch.{handle, after_lookup, after_validate}
use secure_ci_coding.Dispatch.State.{Vault, Calls, with_sessions}
use secure_ci_coding.Dispatch.Handlers.{handle_login}
use secure_ci_coding.Dispatch.Threads.{
  Others, find_slot, passes_search, invalid, expired, after_reads, after_search, after_find,
  returned, validated, handle_among,
}

abbrev pub quiet : Others
quiet = record {
  before_return = λ s. s;
  before_search = λ s. s;
  before_reads = λ s. s;
  before_switch = λ s. s;
}

reads_same :
    (b : Build) (c : Calls) (r : Request) (p : Ptr) (s : Vault) (v : Bool × Sessions)
    → after_reads b c quiet r p s v ≡ after_validate b c r p s v
reads_same b c r p s (false, t) = refl
reads_same b c r p s (true, t) = refl

-- `session_validate` is its search and its reads.
pub validate_parts :
    (b : Build) (p : Ptr) (now : ℕ) (s : Sessions)
    → (p == null) ≡ false
    → session_validate b p now s ≡ (if passes_search b p s then check_times p now s else (false, s))
unfolding session_validate
validate_parts vulnerable p now s real = rw real refl
validate_parts fixed p now s real = rw real refl

searched_same :
    (b : Build) (c : Calls) (r : Request) (p : Ptr) (s : Vault) (found : Bool)
    → (if found then after_search b c quiet r p s else expired s)
      ≡ after_validate b c r p s
          (if found then check_times p c.now s.sessions else (false, s.sessions))
searched_same b c r p s true = reads_same b c r p s (check_times p c.now s.sessions)
searched_same b c r p s false = refl

-- With a pointer that is not NULL, both versions go the same way.
pub returned_same :
    (b : Build) (c : Calls) (r : Request) (p : Ptr) (s : Vault)
    → (p == null) ≡ false
    → returned b c quiet r p s ≡ after_validate b c r p s (session_validate b p c.now s.sessions)
returned_same b c r p s real =
    ap (λ t. if t then invalid s else validated b c quiet r p s) real
    ∙ searched_same b c r p s (passes_search b p s.sessions)
    ∙ ap (after_validate b c r p s) (sym (validate_parts b p c.now s.sessions real))

found_same :
    (b : Build) (c : Calls) (r : Request) (s : Vault) (n i sid : ℕ) (t : Sessions)
    → after_find b c quiet r s (find_slot n i sid t) ≡ after_lookup b c r s (lookup_loop n i sid t)
unfolding find_slot lookup_loop
found_same b c r s zero i sid t = refl
found_same b c r s (suc n) i sid t = elim (Bool-cases (slot_matches t (t.slots i) sid)) [
  | inl here ↦
      let real : (t.slots i == null) ≡ false = ground arith in
      rw here (returned_same b c r (t.slots i) (with_sessions (touch_slot (t.slots i) t) s) real)
  | inr away ↦ rw away (found_same b c r s n (i + 1) sid (touch_slot (t.slots i) t))
]

-- Where no other thread acts in between, the request that is cut at its four windows is the request of
-- one step, in both builds and for every operation.
handle_among-quiet :
    (pbkdf2 : Bytes → Bytes → Bytes) (b : Build) (c : Calls) (r : Request) (s : Vault)
    → handle_among pbkdf2 b c quiet r s ≡ handle pbkdf2 b c r s
unfolding handle_among handle session_lookup
handle_among-quiet pbkdf2 b c r s =
    ap (λ h. if r.op == op_code login then handle_login pbkdf2 b c r s else h)
      (found_same b c r s s.sessions.count 0 r.session_id s.sessions)
