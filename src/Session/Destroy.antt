-- ===== src/Session/Destroy.antt =====
-- `session_destroy_by_ptr` and `session_destroy`.
use secure_ci_coding.Base.{
  ℕ, zero, suc, ◌+◌, ◌≤◌, ◌<◌, ◌≡◌, ◌≢◌, refl, sym, ap, ◌∙◌, ◌⊎◌, ◌↔◌, inl, inr, false, arith,
  Bool-cases, ltb, ◌==◌, ◌∷◌, if◌then◌else◌, none,
}
use secure_ci_coding.Common.{Build, use_after_free}
use secure_ci_coding.Session.{
  Ptr, null, Session, Sessions, touch, deactivate, destroy_loop, session_destroy_by_ptr,
  session_destroy, session_lookup, destroy_found, remove_slot, clear_slot, release,
}
use secure_ci_coding.Session.Invariant.{Inv, Has, Inv-contents}
use secure_ci_coding.Session.Array.{
  without, without-count, without-heap, without-faults, without-live, without-slots, without-Inv,
  Has-without,
}
use secure_ci_coding.Session.Lookup.{ActiveUnder, session_lookup_finds}

-- The loop takes out the first slot that holds `p`, if one does.
destroy_loop_cases :
    (b : Build) (n i : ℕ) (p : Ptr) (s : Sessions)
    → ((destroy_loop b n i p s ≡ s) × ((k : ℕ) → i ≤ k → k < i + n → s.slots k ≢ p))
      ⊎ ((k : ℕ) × (k < i + n) × (s.slots k ≡ p) × (destroy_loop b n i p s ≡ without b k s))
unfolding destroy_loop
destroy_loop_cases b zero i p s = inl (refl, λ k a b e. omega arith)
destroy_loop_cases b (suc n) i p s = elim (Bool-cases (s.slots i == p)) [
  | inl here ↦
      let at : s.slots i ≡ p = ground arith in
      inr (
        i,
        omega arith,
        at,
        rw here (ap (λ q. remove_slot i (clear_slot b i (release q s))) (sym at)),
      )
  | inr away ↦ elim (destroy_loop_cases b n (i + 1) p s) [
    | inl (e, out) ↦ inl (
      rw away e,
      λ k c d at. elim (Bool-cases (k == i)) [
        | inl same ↦ ground arith
        | inr other ↦ out k (ground arith) (omega arith) at
      ],
    )
    | inr (k, h, at, e) ↦ inr (k, omega arith, at, rw away e)
  ]
]

-- The state in which the loop starts.
abbrev marked : Ptr → Sessions → Sessions
marked p s = deactivate p (touch p s)

-- On a registered object the loop takes out its slot, and what follows is one access to it.
destroy_takes_out :
    (b : Build) (p : Ptr) (s : Sessions)
    → Inv s
    → Has s p
    → (k : ℕ) × (k < s.count)
      × (s.slots k ≡ p)
      × (session_destroy_by_ptr b p s ≡ touch p (without b k (marked p s)))
unfolding session_destroy_by_ptr
destroy_takes_out b p s v (j, h, at) = elim (destroy_loop_cases b s.count 0 p (marked p s)) [
  | inl (e, out) ↦ absurd (out j (omega arith) (omega arith) at)
  | inr (k, h', at', e) ↦ (k, omega arith, at', not_null k (omega arith) at' e)
]
  where
    not_null :
        (k : ℕ)
        → k < s.count
        → s.slots k ≡ p
        → destroy_loop b s.count 0 p (marked p s) ≡ without b k (marked p s)
        → (if p == null then s else touch p (destroy_loop b s.count 0 p (deactivate p (touch p s))))
          ≡ touch p (without b k (marked p s))
    not_null k h at e =
        let real : (p == null) ≡ false = ground (arith, v.alive k) in
        ap (λ t. if t then s else touch p (destroy_loop b s.count 0 p (marked p s))) real
        ∙ ap (touch p) e

-- On a table in order, destroying a registered session leaves the table in order, takes out that session and no other,
-- and frees its object and no other.
pub session_destroy_by_ptr_removes :
    (b : Build) (p : Ptr) (s : Sessions)
    → Inv s
    → Has s p
    → Inv (session_destroy_by_ptr b p s)
      × ((q : Ptr) → Has (session_destroy_by_ptr b p s) q ↔ (Has s q × (q ≢ p)))
      × ((q : Ptr) → (session_destroy_by_ptr b p s).live q ≡ (if q == p then false else s.live q))
      × ((session_destroy_by_ptr b p s).count + 1 ≡ s.count)
session_destroy_by_ptr_removes b p s v has =
    let (k, h, at, e) = destroy_takes_out b p s v has in
    let v' = Inv-contents {s = s} (marked p s).heap (marked p s).faults v in
    let gone = without-Inv b k (marked p s) v' h in
    rw e (
      Inv-contents _ _ gone,
      λ q. (
        λ has'.
            let (kept, other) = (Has-without b k (marked p s) q v' h).0 has' in
            (kept, λ e'. other (e' ∙ sym at)),
        λ (kept, other). (Has-without b k (marked p s) q v' h).1 (kept, λ e'. other (e' ∙ at)),
      ),
      λ q. rw (without-live b k (marked p s) q, at),
      omega (arith, without-count b k (marked p s)),
    )

-- In both builds, on a table in order, destroying a registered session reads it once after freeing it: the log line
-- behind the loop takes the id from the freed object.
pub session_destroy_by_ptr_faults :
    (b : Build) (p : Ptr) (s : Sessions)
    → Inv s
    → Has s p
    → (session_destroy_by_ptr b p s).faults ≡ use_after_free ∷ s.faults
session_destroy_by_ptr_faults b p s v has =
    let (k, h, at, e) = destroy_takes_out b p s v has in
    rw e
      (ground (arith, v.alive k, without-faults b k (marked p s), without-live b k (marked p s) p))

-- The other objects keep their contents.
pub destroy-heap :
    (b : Build) (p : Ptr) (s : Sessions) (q : Ptr)
    → Inv s
    → Has s p
    → q ≢ p
    → (session_destroy_by_ptr b p s).heap q ≡ s.heap q
destroy-heap b p s q v has other =
    let (k, h, at, e) = destroy_takes_out b p s v has in
    rw e (ap (λ heap. heap q) (without-heap b k (marked p s)) ∙ ground arith)

-- `session_destroy` destroys the session of the first slot that is active under the id.
pub session_destroy_cases :
    (b : Build) (sid : ℕ) (s : Sessions)
    → Inv s
    → ((session_destroy b sid s ≡ s) × ((k : ℕ) → k < s.count → ¬ ActiveUnder s sid k))
      ⊎ ((k : ℕ) × (k < s.count)
          × ActiveUnder s sid k
          × (session_destroy b sid s ≡ session_destroy_by_ptr b (s.slots k) s))
unfolding session_destroy
session_destroy_cases b sid s v = elim (session_lookup_finds sid s v) [
  | inl (e, out) ↦ inl (ap (destroy_found b) e, out)
  | inr (k, h, m, first, e) ↦ inr (k, h, m, ap (destroy_found b) e)
]

-- A log-out by id keeps the table in order, also when no session is active under the id.
pub session_destroy-Inv :
    (b : Build) (sid : ℕ) (s : Sessions) → Inv s → Inv (session_destroy b sid s)
session_destroy-Inv b sid s v = elim (session_destroy_cases b sid s v) [
  | inl (e, out) ↦ rw e v
  | inr (k, h, m, e) ↦ rw e (session_destroy_by_ptr_removes b (s.slots k) s v (k, h, refl)).0
]

-- A slot that matches after the call is a slot before it, of another object, that matched then.
still-ActiveUnder :
    (b : Build) (sid : ℕ) (s : Sessions) (i : ℕ)
    → Inv s
    → i < s.count
    → (k : ℕ) → k < (session_destroy_by_ptr b (s.slots i) s).count
    → ActiveUnder (session_destroy_by_ptr b (s.slots i) s) sid k
    → (j : ℕ) × (j < s.count) × (s.slots j ≢ s.slots i) × ActiveUnder s sid j
still-ActiveUnder b sid s i v h k hk m =
    let t = session_destroy_by_ptr b (s.slots i) s in
    let ((j, hj, at), other) =
      ((session_destroy_by_ptr_removes b (s.slots i) s v (i, h, refl)).1 (t.slots k)).0
        (k, hk, refl) in
    let same : t.heap (t.slots k) ≡ s.heap (s.slots j) =
      destroy-heap b (s.slots i) s (t.slots k) v (i, h, refl) other ∙ ap s.heap (sym at) in
    (
      j,
      hj,
      (λ e. other (sym at ∙ e)),
      (
        ap (λ (x : Session). x.session_id) (sym same) ∙ m.0,
        ap (λ (x : Session). x.active) (sym same) ∙ m.1,
      ),
    )

-- On a table in order where at most one slot is active under an id, no lookup finds a session under it after it was
-- destroyed, and no lookup touches freed memory.
pub session_lookup-session_destroy :
    (b : Build) (sid : ℕ) (s : Sessions)
    → Inv s
    → ((j k : ℕ) → j < s.count → k < s.count → ActiveUnder s sid j → ActiveUnder s sid k → j ≡ k)
    → session_lookup sid (session_destroy b sid s) ≡ (none, session_destroy b sid s)
session_lookup-session_destroy b sid s v unique =
    elim (session_lookup_finds sid (session_destroy b sid s) (session_destroy-Inv b sid s v)) [
      | inl (e, out) ↦ e
      | inr (k, h, m, first, e) ↦ absurd (gone k h m)
    ]
  where
    gone :
        (k : ℕ)
        → k < (session_destroy b sid s).count
        → ActiveUnder (session_destroy b sid s) sid k
        → ⊥
    gone k h m = elim (session_destroy_cases b sid s v) [
      | inl (e, out) ↦ out k (rw e at h) (rw e at m)
      | inr (i, hi, mi, e) ↦
          let (j, hj, other, mj) = still-ActiveUnder b sid s i v hi k (rw e at h) (rw e at m) in
          other (ap s.slots (unique j i hj hi mj mi))
    ]

-- Destroying the session of slot `i` moves the slots behind it down by one.
destroy-slots :
    (b : Build) (s : Sessions) (i j : ℕ)
    → Inv s
    → i < s.count
    → (session_destroy_by_ptr b (s.slots i) s).slots j
      ≡ (if ltb j i then s.slots j else s.slots (j + 1))
destroy-slots b s i j v h =
    let p = s.slots i in
    let (k, hk, at, e) = destroy_takes_out b p s v (i, h, refl) in
    let here : k ≡ i = v.distinct k i hk h at in
    let v' = Inv-contents {s = s} (marked p s).heap (marked p s).faults v in
    ap (λ (t : Sessions). t.slots j) e
    ∙ without-slots b k (marked p s) j v' hk
    ∙ ap (λ x. if ltb j x then s.slots j else s.slots (j + 1)) here

-- A log-out by an id under which slot `i` is the first that is active destroys the session of that slot.
pub session_destroy_first :
    (b : Build) (sid : ℕ) (s : Sessions) (i : ℕ)
    → Inv s
    → i < s.count
    → ActiveUnder s sid i
    → ((j : ℕ) → j < i → ¬ ActiveUnder s sid j)
    → session_destroy b sid s ≡ session_destroy_by_ptr b (s.slots i) s
unfolding session_destroy
session_destroy_first b sid s i v h m first = elim (session_lookup_finds sid s v) [
  | inl (e, out) ↦ absurd (out i h m)
  | inr (k, hk, mk, firstk, e) ↦
      let same : k ≡ i = first_same k mk firstk in
      ap (destroy_found b) e ∙ ap (λ x. session_destroy_by_ptr b (s.slots x) s) same
]
  where
    first_same : (k : ℕ) → ActiveUnder s sid k → ((j : ℕ) → j < k → ¬ ActiveUnder s sid j) → k ≡ i
    first_same k mk firstk = elim (Bool-cases (ltb k i)) [
      | inl low ↦ absurd (first k (ground arith) mk)
      | inr high ↦ elim (Bool-cases (ltb i k)) [
        | inl above ↦ absurd (firstk i (ground arith) m)
        | inr level ↦ ground arith
      ]
    ]

pub session_destroy-slots :
    (b : Build) (sid : ℕ) (s : Sessions) (i j : ℕ)
    → Inv s
    → i < s.count
    → ActiveUnder s sid i
    → ((j : ℕ) → j < i → ¬ ActiveUnder s sid j)
    → (session_destroy b sid s).slots j ≡ (if ltb j i then s.slots j else s.slots (j + 1))
session_destroy-slots b sid s i j v h m first =
    ap (λ (t : Sessions). t.slots j) (session_destroy_first b sid s i v h m first)
    ∙ destroy-slots b s i j v h
