-- ===== src/Session/Cleanup.antt =====
-- `session_cleanup_expired`: the loop from the last slot down, with the array compacted under it.
use secure_ci_coding.Base.{
  ℕ, zero, suc, ◌+◌, ◌-◌, ◌≤◌, ◌<◌, ◌≡◌, refl, sym, ap, subst, ◌∙◌, ◌⊎◌, ◌↔◌, inl, inr, true, false,
  arith, Bool-cases, ◌==◌, ltb, if◌then◌else◌, ◌&&◌, not,
}
use secure_ci_coding.Common.{vulnerable}
use secure_ci_coding.Session.{
  Ptr, null, Sessions, is_stale, cleanup_loop, session_cleanup_expired, remove_slot, release,
}
use secure_ci_coding.Session.Invariant.{Inv, Has}
use secure_ci_coding.Session.Array.{
  without, without-count, without-heap, without-faults, without-live, without-slots, without-Inv,
}
use secure_ci_coding.Session.Lookup.{touch_slot_live}

-- Slot `j` holds `q`, which is kept if the slots below `i` are cleaned.
abbrev Kept : ℕ → ℕ → Sessions → Ptr → Type 0
Kept now i s q =
    (j : ℕ) × (j < s.count) × (s.slots j ≡ q) × (j < i → is_stale (s.heap q) now ≡ false)

-- `r` is `s` with the slots below `i` cleaned.
record Cleaned (now i : ℕ) (s r : Sessions) : Type 0 where
  in_order : Inv r
  contents : r.heap ≡ s.heap
  no_fault : r.faults ≡ s.faults
  kept : (q : Ptr) → Has r q ↔ Kept now i s q
  freed :
      (j : ℕ)
      → j < i
      → j < s.count
      → is_stale (s.heap (s.slots j)) now ≡ true
      → r.live (s.slots j) ≡ false
  stays_freed : (q : Ptr) → s.live q ≡ false → r.live q ≡ false

-- One round, at a slot in use.
cleanup_round :
    (now i : ℕ) (s : Sessions)
    → Inv s
    → i < s.count
    → cleanup_loop (suc i) now s
      ≡ cleanup_loop i now (if is_stale (s.heap (s.slots i)) now then without vulnerable i s else s)
unfolding cleanup_loop
cleanup_round now i s v h =
    let real : (s.slots i == null) ≡ false = ground (arith, v.alive i) in
    ap
      (λ t. cleanup_loop i now (
        if not (s.slots i == null) && is_stale (s.heap (s.slots i)) now
        then remove_slot i (release (s.slots i) t)
        else t))
      (touch_slot_live s i v h)
    ∙ ap
        (λ t.
          cleanup_loop i now
            (if not t && is_stale (s.heap (s.slots i)) now then without vulnerable i s else s))
        real

Cleaned-zero : (now : ℕ) (s : Sessions) → Inv s → Cleaned now 0 s s
Cleaned-zero now s v = record {
  in_order = v;
  contents = refl;
  no_fault = refl;
  kept = λ q. (λ (j, h, e). (j, h, e, λ l. absurd (omega arith)), λ (j, h, e, _). (j, h, e));
  freed = λ j l. absurd (omega arith);
  stays_freed = λ q dead. dead;
}

-- A slot that is not stale stays, and cleaning goes on below it.
Cleaned-keep :
    (now i : ℕ) (s r : Sessions)
    → is_stale (s.heap (s.slots i)) now ≡ false
    → Cleaned now i s r
    → Cleaned now (suc i) s r
Cleaned-keep now i s r good c = record {
  in_order = c.in_order;
  contents = c.contents;
  no_fault = c.no_fault;
  kept = λ q. (
    λ has.
        let (j, h, e, p) = (c.kept q).0 has in
        (
          j,
          h,
          e,
          λ l. elim (Bool-cases (j == i)) [
            | inl same ↦ ground (arith, e)
            | inr other ↦ p (ground arith)
          ],
        ),
    λ (j, h, e, p). (c.kept q).1 (j, h, e, λ l. p (omega arith)),
  );
  freed = λ j l h stale. ground (arith, c.freed j);
  stays_freed = c.stays_freed;
}

-- A stale slot is taken out, and cleaning goes on below it.
Cleaned-drop :
    (now i : ℕ) (s r : Sessions)
    → Inv s
    → i < s.count
    → is_stale (s.heap (s.slots i)) now ≡ true
    → Cleaned now i (without vulnerable i s) r
    → Cleaned now (suc i) s r
Cleaned-drop now i s r v used bad c = record {
  in_order = c.in_order;
  contents = c.contents ∙ without-heap vulnerable i s;
  no_fault = c.no_fault ∙ without-faults vulnerable i s;
  kept = λ q. (forwards q, backwards q);
  freed = λ j l h stale. elim (Bool-cases (j == i)) [
    | inl same ↦ ground (arith, c.stays_freed (s.slots j), without-live vulnerable i s (s.slots j))
    | inr other ↦ ground (
      arith,
      c.freed j,
      without-count vulnerable i s,
      without-slots vulnerable i s j v used,
      ap (λ heap. heap (s.slots j)) (without-heap vulnerable i s),
    )
  ];
  stays_freed = λ q dead. c.stays_freed q (ground (arith, without-live vulnerable i s q));
}
  where
    same_heap : (q : Ptr) → (without vulnerable i s).heap q ≡ s.heap q
    same_heap q = ap (λ heap. heap q) (without-heap vulnerable i s)

    forwards : (q : Ptr) → Has r q → Kept now (suc i) s q
    forwards q has =
        let (j, h, e, p) = (c.kept q).0 has in
        elim (Bool-cases (ltb j i)) [
          | inl low ↦ (
            j,
            ground (arith, h, without-count vulnerable i s),
            ground (arith, e, without-slots vulnerable i s j v used),
            λ _. ground (arith, p, same_heap q),
          )
          | inr high ↦ (
            j + 1,
            ground (arith, h, without-count vulnerable i s),
            ground (arith, e, without-slots vulnerable i s j v used),
            λ l. absurd (ground arith),
          )
        ]

    backwards : (q : Ptr) → Kept now (suc i) s q → Has r q
    backwards q (j, h, e, p) = elim (Bool-cases (ltb j i)) [
      | inl low ↦ (c.kept q).1 (
        j,
        ground (arith, without-count vulnerable i s),
        ground (arith, without-slots vulnerable i s j v used),
        λ l. ground (arith, p, same_heap q),
      )
      | inr high ↦
          let above : i < j = ground (arith, p, e) in
          (c.kept q).1 (
            j - 1,
            omega (arith, without-count vulnerable i s),
            ground (arith, without-slots vulnerable i s (j - 1) v used),
            λ l. absurd (omega arith),
          )
    ]

cleanup_loop-Cleaned :
    (now i : ℕ) (s : Sessions) → Inv s → i ≤ s.count → Cleaned now i s (cleanup_loop i now s)
unfolding cleanup_loop
cleanup_loop-Cleaned now zero s v h = Cleaned-zero now s v
cleanup_loop-Cleaned now (suc i) s v h = elim (Bool-cases (is_stale (s.heap (s.slots i)) now)) [
  | inl bad ↦
      subst (Cleaned now (suc i) s)
        (sym (
          cleanup_round now i s v h
          ∙ ap (λ t. cleanup_loop i now (if t then without vulnerable i s else s)) bad))
        (Cleaned-drop now i s _ v h bad (
          cleanup_loop-Cleaned now i (without vulnerable i s) (without-Inv vulnerable i s v h)
            (omega (arith, without-count vulnerable i s))))
  | inr good ↦
      subst (Cleaned now (suc i) s)
        (sym (
          cleanup_round now i s v h
          ∙ ap (λ t. cleanup_loop i now (if t then without vulnerable i s else s)) good))
        (Cleaned-keep now i s _ good (cleanup_loop-Cleaned now i s v (omega arith)))
]

-- On a table in order, a clean-up at time `now` keeps exactly the sessions that are active and expire
-- later than `now`, leaves the table in order and touches no freed memory.
pub session_cleanup_expired_keeps :
    (now : ℕ) (s : Sessions)
    → Inv s
    → Inv (session_cleanup_expired now s)
      × ((q : Ptr)
          → Has (session_cleanup_expired now s) q
            ↔ (Has s q × ((s.heap q).active ≡ true) × (now < (s.heap q).expires_at)))
      × ((session_cleanup_expired now s).faults ≡ s.faults)
unfolding session_cleanup_expired
session_cleanup_expired_keeps now s v =
    let c = cleanup_loop-Cleaned now s.count s v (omega arith) in
    (
      c.in_order,
      λ q. (
        λ has.
            let (j, h, e, p) = (c.kept q).0 has in
            ((j, h, e), ground (arith, p h), ground (arith, p h)),
        λ ((j, h, e), active, early). (c.kept q).1 (j, h, e, λ _. ground arith),
      ),
      c.no_fault,
    )

-- A clean-up of a table in order frees every registered session that is inactive or has expired by
-- `now`.
session_cleanup_expired_frees :
    (now : ℕ) (s : Sessions) (q : Ptr)
    → Inv s
    → Has s q
    → ((s.heap q).active ≡ false) ⊎ ((s.heap q).expires_at ≤ now)
    → (session_cleanup_expired now s).live q ≡ false
unfolding session_cleanup_expired
session_cleanup_expired_frees now s q v (j, h, e) old =
    let c = cleanup_loop-Cleaned now s.count s v (omega arith) in
    subst (λ x. (session_cleanup_expired now s).live x ≡ false) e
      (c.freed j h h (ground (arith, e)))

-- A clean-up leaves the contents of the objects as they are.
pub cleanup-heap : (now : ℕ) (s : Sessions) → Inv s → (session_cleanup_expired now s).heap ≡ s.heap
unfolding session_cleanup_expired
cleanup-heap now s v = (cleanup_loop-Cleaned now s.count s v (omega arith)).contents
