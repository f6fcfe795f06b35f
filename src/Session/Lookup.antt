-- ===== src/Session/Lookup.antt =====
-- `session_lookup` on a table that is in order.
use secure_ci_coding.Base.{
  ℕ, zero, suc, ◌+◌, ◌≤◌, ◌<◌, ◌≡◌, refl, ◌∙◌, ◌⊎◌, inl, inr, true, false, none, some, arith,
  Bool-cases, ◌==◌, if◌then◌else◌,
}
use secure_ci_coding.Session.{Sessions, touch_slot, slot_matches, lookup_loop, session_lookup}
use secure_ci_coding.Session.Invariant.{Inv}

pub touch_slot_live : (s : Sessions) (i : ℕ) → Inv s → i < s.count → touch_slot (s.slots i) s ≡ s
touch_slot_live s i v h = ground (arith, v.alive i)

-- Slot `k` holds an active session with the id.
abbrev pub ActiveUnder : Sessions → ℕ → ℕ → Type 0
ActiveUnder s sid k = ((s.heap (s.slots k)).session_id ≡ sid) × ((s.heap (s.slots k)).active ≡ true)

pub slot_matches→ActiveUnder :
    (s : Sessions) (sid k : ℕ) → slot_matches s (s.slots k) sid ≡ true → ActiveUnder s sid k
slot_matches→ActiveUnder s sid k h = ground arith

pub ActiveUnder→slot_matches :
    (s : Sessions) (sid k : ℕ)
    → Inv s
    → k < s.count
    → ActiveUnder s sid k
    → slot_matches s (s.slots k) sid ≡ true
ActiveUnder→slot_matches s sid k v h m = ground (arith, v.alive k)

-- The first slot from `i` on, among `n`, that matches; or none does.
data Found (s : Sessions) (sid n i : ℕ) : Type 0 where
  missing :
      lookup_loop n i sid s ≡ (none, s)
      → ((k : ℕ) → i ≤ k → k < i + n → ¬ ActiveUnder s sid k)
      → Found s sid n i
  found :
      (k : ℕ)
      → i ≤ k
      → k < i + n
      → ActiveUnder s sid k
      → ((j : ℕ) → i ≤ j → j < k → ¬ ActiveUnder s sid j)
      → lookup_loop n i sid s ≡ (some (s.slots k), s)
      → Found s sid n i

lookup_loop_step :
    (s : Sessions) (sid n i : ℕ)
    → Inv s
    → i + suc n ≤ s.count
    → lookup_loop (suc n) i sid s ≡ (
        if slot_matches s (s.slots i) sid
        then (some (s.slots i), s)
        else lookup_loop n (i + 1) sid s)
unfolding lookup_loop
lookup_loop_step s sid n i v h = rw (touch_slot_live s i v (omega arith)) refl

Found-loop : (s : Sessions) (sid n i : ℕ) → Inv s → i + n ≤ s.count → Found s sid n i
unfolding lookup_loop
Found-loop s sid zero i v h = missing refl (λ k a b. absurd (omega arith))
Found-loop s sid (suc n) i v h = elim (Bool-cases (slot_matches s (s.slots i) sid)) [
  | inl hit ↦
      found i (omega arith) (omega arith) (slot_matches→ActiveUnder s sid i hit)
        (λ j a b. absurd (omega arith)) (lookup_loop_step s sid n i v h ∙ (rw hit))
  | inr miss ↦ later miss (Found-loop s sid n (i + 1) v (omega arith))
]
  where
    not_here : slot_matches s (s.slots i) sid ≡ false → (k : ℕ) → k ≡ i → ¬ ActiveUnder s sid k
    not_here miss k e m = ground (arith, ActiveUnder→slot_matches s sid k v (omega arith) m)

    later : slot_matches s (s.slots i) sid ≡ false → Found s sid n (i + 1) → Found s sid (suc n) i
    later miss (missing e out) = missing (lookup_loop_step s sid n i v h ∙ (rw miss e)) (λ k a b.
        elim (Bool-cases (k == i)) [
          | inl same ↦ not_here miss k (ground arith)
          | inr other ↦ out k (ground arith) (omega arith)
        ])
    later miss (found k a b m first e) =
        found k (omega arith) (omega arith) m
          (λ j c d. elim (Bool-cases (j == i)) [
            | inl same ↦ not_here miss j (ground arith)
            | inr other ↦ first j (ground arith) d
          ])
          (lookup_loop_step s sid n i v h ∙ (rw miss e))

-- On a table in order a lookup changes nothing and touches no freed memory. It returns NULL when no
-- registered session is active under the id, and otherwise the session of the first such slot.
pub session_lookup_finds :
    (sid : ℕ) (s : Sessions)
    → Inv s
    → ((session_lookup sid s ≡ (none, s)) × ((k : ℕ) → k < s.count → ¬ ActiveUnder s sid k))
      ⊎ ((k : ℕ) × (k < s.count)
          × ActiveUnder s sid k
          × ((j : ℕ) → j < k → ¬ ActiveUnder s sid j)
          × (session_lookup sid s ≡ (some (s.slots k), s)))
unfolding session_lookup
session_lookup_finds sid s v = result (Found-loop s sid s.count 0 v (omega arith))
  where
    result :
        Found s sid s.count 0
        → ((lookup_loop s.count 0 sid s ≡ (none, s))
            × ((k : ℕ) → k < s.count → ¬ ActiveUnder s sid k))
          ⊎ ((k : ℕ) × (k < s.count)
              × ActiveUnder s sid k
              × ((j : ℕ) → j < k → ¬ ActiveUnder s sid j)
              × (lookup_loop s.count 0 sid s ≡ (some (s.slots k), s)))
    result (missing e out) = inl (e, λ k h. out k (omega arith) (omega arith))
    result (found k a b m first e) = inr (k, omega arith, m, λ j h. first j (omega arith) h, e)
