-- ===== src/Session/Array.antt =====
-- The compaction of the array, slot by slot.
use secure_ci_coding.Base.{
  ℕ, zero, suc, false, ◌≢◌, ◌↔◌, inl, inr, Bool-cases, ◌+◌, ◌-◌, ◌<◌, ◌≡◌, refl, ◌&&◌, arith, leb,
  ltb, ◌==◌, if◌then◌else◌,
}
use secure_ci_coding.Common.{Build, vulnerable, fixed}
use secure_ci_coding.Session.{
  Ptr, null, Sessions, update, release, shift_down, remove_slot, clear_slot,
}
use secure_ci_coding.Session.Invariant.{Inv, Has}

pub shift_down-at :
    (n j : ℕ) (a : ℕ → Ptr) (k : ℕ)
    → shift_down n j a k ≡ (if leb j k && ltb k (j + n) then a (k + 1) else a k)
unfolding shift_down
shift_down-at zero j a k = ground arith
shift_down-at (suc n) j a k = ground (arith, shift_down-at n (j + 1) (update a j (a (j + 1))) k)

-- Slots below `i` stay, those above move down by one, and the last one in use is cleared.
remove_slot-at :
    (i : ℕ) (s : Sessions) (k : ℕ)
    → (remove_slot i s).slots k ≡ (
        if k == s.count - 1
        then null
        else if leb i k && ltb k (i + (s.count - 1 - i))
        then s.slots (k + 1)
        else s.slots k)
unfolding remove_slot
remove_slot-at i s k = ground (arith, shift_down-at (s.count - 1 - i) i s.slots k)

-- What freeing the object of slot `i` and taking the slot out makes of the state.
abbrev pub without : Build → ℕ → Sessions → Sessions
without b i s = remove_slot i (clear_slot b i (release (s.slots i) s))

pub without-count : (b : Build) (i : ℕ) (s : Sessions) → (without b i s).count ≡ s.count - 1
unfolding remove_slot
without-count vulnerable i s = refl
without-count fixed i s = refl

pub without-heap : (b : Build) (i : ℕ) (s : Sessions) → (without b i s).heap ≡ s.heap
unfolding remove_slot
without-heap vulnerable i s = refl
without-heap fixed i s = refl

pub without-faults : (b : Build) (i : ℕ) (s : Sessions) → (without b i s).faults ≡ s.faults
unfolding remove_slot
without-faults vulnerable i s = refl
without-faults fixed i s = refl

pub without-live :
    (b : Build) (i : ℕ) (s : Sessions) (q : Ptr)
    → (without b i s).live q ≡ (if q == s.slots i then false else s.live q)
unfolding remove_slot
without-live vulnerable i s q = refl
without-live fixed i s q = refl

-- The slots below `i` stay, and those above move down by one.
pub without-slots :
    (b : Build) (i : ℕ) (s : Sessions) (k : ℕ)
    → Inv s
    → i < s.count
    → (without b i s).slots k ≡ (if ltb k i then s.slots k else s.slots (k + 1))
without-slots vulnerable i s k v used = ground (
  arith,
  remove_slot-at i (clear_slot vulnerable i (release (s.slots i) s)) k,
  v.cleared k,
  v.cleared (k + 1),
)
without-slots fixed i s k v used = ground (
  arith,
  remove_slot-at i (clear_slot fixed i (release (s.slots i) s)) k,
  v.cleared k,
  v.cleared (k + 1),
)

-- Taking out a slot in use keeps the table in order.
pub without-Inv : (b : Build) (i : ℕ) (s : Sessions) → Inv s → i < s.count → Inv (without b i s)
without-Inv b i s v used = record {
  bounded = omega (arith, without-count b i s, v.bounded);
  alive = λ k h.
      let h' : k < s.count - 1 = omega (arith, without-count b i s) in
      ground (
        arith,
        without-slots b i s k v used,
        without-live b i s ((without b i s).slots k),
        v.alive k,
        v.alive (k + 1),
        v.distinct i k used,
        v.distinct i (k + 1) used,
      );
  cleared =
      λ k h. ground (arith, without-count b i s, without-slots b i s k v used, v.cleared (k + 1));
  distinct = λ j k hj hk e. ground (
    arith,
    without-count b i s,
    without-slots b i s j v used,
    without-slots b i s k v used,
    v.distinct j k,
    v.distinct j (k + 1),
    v.distinct (j + 1) k,
    v.distinct (j + 1) (k + 1),
  );
}

-- It takes out the object of that slot and no other.
pub Has-without :
    (b : Build) (i : ℕ) (s : Sessions) (q : Ptr)
    → Inv s
    → i < s.count
    → Has (without b i s) q ↔ (Has s q × (q ≢ s.slots i))
Has-without b i s q v used = (forwards, backwards)
  where
    forwards : Has (without b i s) q → Has s q × (q ≢ s.slots i)
    forwards (k, h, e) = elim (Bool-cases (ltb k i)) [
      | inl low ↦ (
        (k, ground (arith, without-count b i s), ground (arith, without-slots b i s k v used)),
        λ same. ground (arith, without-count b i s, without-slots b i s k v used, v.distinct k i),
      )
      | inr high ↦ (
        (k + 1, ground (arith, without-count b i s), ground (arith, without-slots b i s k v used)),
        λ same.
            ground (arith, without-count b i s, without-slots b i s k v used, v.distinct (k + 1) i),
      )
    ]

    backwards : Has s q × (q ≢ s.slots i) → Has (without b i s) q
    backwards ((k, h, e), other) = elim (Bool-cases (ltb k i)) [
      | inl low ↦
          (k, ground (arith, without-count b i s), ground (arith, without-slots b i s k v used))
      | inr high ↦ (
        k - 1,
        ground (arith, without-count b i s),
        ground (arith, without-slots b i s (k - 1) v used),
      )
    ]
