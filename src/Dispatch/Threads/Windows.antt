-- ===== src/Dispatch/Threads/Windows.antt =====
-- Where another thread may act, and how a request gets there.
use secure_ci_coding.Base.{
  ℕ, zero, suc, ◌+◌, ◌≤◌, ◌<◌, ◌≡◌, ◌≢◌, refl, sym, ap, ◌∙◌, inl, inr, arith, Bool, true, false,
  Bool-cases, some, Bytes, ltb, ◌==◌, if◌then◌else◌,
}
use secure_ci_coding.Common.{Build, op_code, login}
use secure_ci_coding.Session.{
  Ptr, null, Sessions, touch_slot, slot_matches, check_times, session_validate,
}
use secure_ci_coding.Session.Invariant.{Inv}
use secure_ci_coding.Session.Lookup.{
  ActiveUnder, touch_slot_live, slot_matches→ActiveUnder, ActiveUnder→slot_matches,
}
use secure_ci_coding.Session.Destroy.{}
use secure_ci_coding.Server.{Request}
use secure_ci_coding.Dispatch.State.{Vault, Calls}
use secure_ci_coding.Dispatch.Threads.{Others, find_slot, passes_search, after_find, handle_among}
use secure_ci_coding.Dispatch.Threads.Quiet.{quiet, validate_parts}

-- One other thread acts, in one of the windows.
abbrev pub behind_unlock : (Vault → Vault) → Others
behind_unlock w = record quiet { before_return = w }

abbrev pub behind_lookup : (Vault → Vault) → Others
behind_lookup w = record quiet { before_search = w }

abbrev pub behind_validate : (Vault → Vault) → Others
behind_validate w = record quiet { before_switch = w }

-- Slot `k` is the first that is active under the id.
pub record IsFirst (s : Sessions) (sid k : ℕ) : Type 0 where
  pub used : k < s.count
  pub active : ActiveUnder s sid k
  pub first : (j : ℕ) → j < k → ¬ ActiveUnder s sid j

find_from :
    (s : Sessions) (sid k n i : ℕ)
    → Inv s
    → IsFirst s sid k
    → i ≤ k
    → i + n ≡ s.count
    → find_slot n i sid s ≡ (some k, s)
unfolding find_slot
find_from s sid k zero i v f h end = absurd (omega (arith, f.used))
find_from s sid k (suc n) i v f h end = elim (Bool-cases (slot_matches s (s.slots i) sid)) [
  | inl here ↦
      let live : touch_slot (s.slots i) s ≡ s = touch_slot_live s i v (omega arith) in
      let at : i ≡ k = reached i here h in
      ap
        (λ t.
          if t
          then (some i, touch_slot (s.slots i) s)
          else find_slot n (i + 1) sid (touch_slot (s.slots i) s))
        here
      ∙ ap (λ t. (some i, t)) live
      ∙ ap (λ x. (some x, s)) at
  | inr away ↦
      let live : touch_slot (s.slots i) s ≡ s = touch_slot_live s i v (omega arith) in
      ap
        (λ t.
          if t
          then (some i, touch_slot (s.slots i) s)
          else find_slot n (i + 1) sid (touch_slot (s.slots i) s))
        away
      ∙ ap (find_slot n (i + 1) sid) live
      ∙ find_from s sid k n (i + 1) v f (further i away h) (omega arith)
]
  where
    reached : (i : ℕ) → slot_matches s (s.slots i) sid ≡ true → i ≤ k → i ≡ k
    reached i here h = elim (Bool-cases (ltb i k)) [
      | inl low ↦ absurd (f.first i (ground arith) (slot_matches→ActiveUnder s sid i here))
      | inr level ↦ ground arith
    ]

    further : (i : ℕ) → slot_matches s (s.slots i) sid ≡ false → i ≤ k → i + 1 ≤ k
    further i away h = elim (Bool-cases (i == k)) [
      | inl same ↦ ground (arith, ActiveUnder→slot_matches s sid k v f.used f.active)
      | inr other ↦ ground arith
    ]

module _ (pbkdf2 : Bytes → Bytes → Bytes) (b : Build) (c : Calls) (o : Others) (r : Request)
    (s : Vault) (k : ℕ) (v : Inv s.sessions) (other : r.op ≢ op_code login)
    (f : IsFirst s.sessions r.session_id k) where
  -- The request reaches the window behind the unlock with slot `k`.
  pub reaches : handle_among pbkdf2 b c o r s ≡ after_find b c o r s (some k, s.sessions)
  unfolding handle_among
  reaches =
      let no : (r.op == op_code login) ≡ false = ground arith in
      rw no (
        ap (after_find b c o r s)
          (find_from s.sessions r.session_id k s.sessions.count 0 v f (omega arith) (omega arith)))

-- A registered active session that has not expired passes the search and the reads.
pub passes :
    (b : Build) (p : Ptr) (now : ℕ) (s : Sessions)
    → (p == null) ≡ false
    → session_validate b p now s ≡ (true, s)
    → (passes_search b p s ≡ true) × (check_times p now s ≡ (true, s))
passes b p now s real e =
    by_search (passes_search b p s) refl (sym (validate_parts b p now s real) ∙ e)
  where
    by_search :
        (t : Bool)
        → passes_search b p s ≡ t
        → (if t then check_times p now s else (false, s)) ≡ (true, s)
        → (passes_search b p s ≡ true) × (check_times p now s ≡ (true, s))
    by_search true is e' = (is, e')
    by_search false is e' =
        let clash : false ≡ true = ap (λ (x : Bool × Sessions). x.0) e' in ground (arith, clash)
