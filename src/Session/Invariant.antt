-- ===== src/Session/Invariant.antt =====
-- When the table is in order: the slots in use hold distinct, live objects, and the others are NULL.
use secure_ci_coding.Base.{ℕ, ◌≤◌, ◌<◌, ◌≡◌, ◌≢◌, ◌⊎◌, true, false, List}
use secure_ci_coding.Common.{max_connections, Fault}
use secure_ci_coding.Session.{Ptr, null, Session, Sessions}

pub record Inv (s : Sessions) : Type 0 where
  pub bounded : s.count ≤ max_connections
  pub alive : (i : ℕ) → i < s.count → (s.slots i ≢ null) × (s.live (s.slots i) ≡ true)
  pub cleared : (i : ℕ) → s.count ≤ i → s.slots i ≡ null
  pub distinct : (i j : ℕ) → i < s.count → j < s.count → s.slots i ≡ s.slots j → i ≡ j

-- The object at `p` is registered.
abbrev pub Has : Sessions → Ptr → Type 0
Has s p = (i : ℕ) × (i < s.count) × (s.slots i ≡ p)

-- It does not depend on the contents of the objects.
pub Inv-contents :
    {s : Sessions} (heap : Ptr → Session) (faults : List Fault)
    → Inv s
    → Inv (record s { heap = heap; faults = faults })
Inv-contents heap faults v = record {
  bounded = v.bounded;
  alive = v.alive;
  cleared = v.cleared;
  distinct = v.distinct;
}

-- What `calloc` may return: NULL, or an address that is not in use.
abbrev pub IsFree : Sessions → Ptr → Type 0
IsFree s p = (p ≡ null) ⊎ (s.live p ≡ false)
