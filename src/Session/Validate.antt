-- ===== src/Session/Validate.antt =====
-- `session_validate` in the two builds.
use secure_ci_coding.Base.{
  ℕ, zero, suc, ◌+◌, ◌≤◌, ◌<◌, ◌≡◌, ◌≢◌, ◌↔◌, inl, inr, true, false, arith, Bool-cases, ◌==◌, ◌∷◌,
}
use secure_ci_coding.Common.{vulnerable, fixed, use_after_free}
use secure_ci_coding.Session.{Ptr, null, Sessions, is_registered, session_validate}
use secure_ci_coding.Session.Invariant.{Inv, Has}

-- The pointer stands in one of `n` slots from `i` on.
abbrev Stands : ℕ → ℕ → Ptr → (ℕ → Ptr) → Type 0
Stands n i p slots = (k : ℕ) × (i ≤ k) × (k < i + n) × (slots k ≡ p)

is_registered→Stands :
    (n i : ℕ) (p : Ptr) (slots : ℕ → Ptr) → is_registered n i p slots ≡ true → Stands n i p slots
unfolding is_registered
is_registered→Stands zero i p slots e = absurd (ground arith)
is_registered→Stands (suc n) i p slots e = elim (Bool-cases (slots i == p)) [
  | inl here ↦ (i, omega arith, omega arith, ground arith)
  | inr away ↦
      let (k, a, b, at) = is_registered→Stands n (i + 1) p slots (ground arith) in
      (k, omega arith, omega arith, at)
]

Stands→is_registered :
    (n i : ℕ) (p : Ptr) (slots : ℕ → Ptr) → Stands n i p slots → is_registered n i p slots ≡ true
unfolding is_registered
Stands→is_registered zero i p slots (k, a, b, e) = absurd (omega arith)
Stands→is_registered (suc n) i p slots (k, a, b, at) = elim (Bool-cases (slots i == p)) [
  | inl here ↦ rw here
  | inr away ↦ rw (away, Stands→is_registered n (i + 1) p slots (k, ground arith, omega arith, at))
]

-- The fixed `session_validate`, on a table in order, accepts a pointer exactly when it is registered,
-- its session is active and the time has not passed its expiry; for any pointer, a dangling one
-- too, it changes nothing and touches no freed memory.
pub session_validate_sound :
    (p : Ptr) (now : ℕ) (s : Sessions)
    → Inv s
    → (((session_validate fixed p now s).0 ≡ true)
        ↔ (Has s p × ((s.heap p).active ≡ true) × (now ≤ (s.heap p).expires_at)))
      × ((session_validate fixed p now s).1 ≡ s)
unfolding session_validate
session_validate_sound p now s v = ((forwards, backwards), unchanged)
  where
    registered : is_registered s.count 0 p s.slots ≡ true → Has s p
    registered e =
        let (k, a, b, at) = is_registered→Stands s.count 0 p s.slots e in (k, omega arith, at)

    forwards :
        (session_validate fixed p now s).0 ≡ true
        → Has s p × ((s.heap p).active ≡ true) × (now ≤ (s.heap p).expires_at)
    forwards e = (registered (ground arith), ground arith, ground arith)

    backwards :
        Has s p × ((s.heap p).active ≡ true) × (now ≤ (s.heap p).expires_at)
        → (session_validate fixed p now s).0 ≡ true
    backwards ((k, h, at), active, early) = ground (
      arith,
      v.alive k,
      Stands→is_registered s.count 0 p s.slots (k, omega arith, omega arith, at),
    )

    unchanged : (session_validate fixed p now s).1 ≡ s
    unchanged = elim (Bool-cases (is_registered s.count 0 p s.slots)) [
      | inl e ↦ let (k, h, at) = registered e in ground (arith, v.alive k)
      | inr e ↦ ground arith
    ]

-- On a pointer whose session was freed, with the table in order, the vulnerable build reads freed
-- memory, and the fixed build refuses the pointer without touching it.
session_validate_dangling :
    (p : Ptr) (now : ℕ) (s : Sessions)
    → Inv s
    → p ≢ null
    → s.live p ≡ false
    → ((session_validate vulnerable p now s).1.faults ≡ use_after_free ∷ s.faults)
      × (session_validate fixed p now s ≡ (false, s))
unfolding session_validate
session_validate_dangling p now s v real dead = (ground arith, refused)
  where
    absent : is_registered s.count 0 p s.slots ≡ true → ⊥
    absent e =
        let (k, a, b, at) = is_registered→Stands s.count 0 p s.slots e in ground (arith, v.alive k)

    refused : session_validate fixed p now s ≡ (false, s)
    refused = ground (arith, absent)

pub is_registered→Has :
    (p : Ptr) (s : Sessions) → is_registered s.count 0 p s.slots ≡ true → Has s p
is_registered→Has p s e =
    let (k, a, b, at) = is_registered→Stands s.count 0 p s.slots e in (k, omega arith, at)
