-- ===== src/Demos/Lifetime/Safe.antt =====
-- Sequences of calls on the table of the fixed program.
use secure_ci_coding.Base.{
  ℕ, zero, suc, ◌+◌, ◌-◌, ◌≤◌, ◌<◌, ◌≡◌, ◌≢◌, inl, inr, refl, ◌∙◌, arith, true, false, Bool-cases,
  List, [], ◌∷◌, ◌==◌, ltb, if◌then◌else◌,
}
use secure_ci_coding.Common.{ℤ, use_after_free}
use secure_ci_coding.Session.{Ptr, null, update, is_registered}
use secure_ci_coding.Session.Array.{shift_down-at}
use secure_ci_coding.Demos.Lifetime.{
  Memory, table_size, session_create, take_out, destroy_loop, session_destroy, session_is_valid,
  session_destroy_vuln, session_is_valid_vuln,
}

-- The registered objects are distinct and in use.
pub record Inv (m : Memory) : Type 0 where
  pub bounded : m.count ≤ table_size
  pub alive : (i : ℕ) → i < m.count → (m.slots i ≢ null) × (m.live (m.slots i) ≡ true)
  pub distinct : (i j : ℕ) → i < m.count → j < m.count → m.slots i ≡ m.slots j → i ≡ j

create-Inv :
    (p : Ptr) (now : ℕ) (user_id : ℤ) (m : Memory)
    → Inv m
    → p ≢ null
    → m.live p ≡ false
    → Inv (session_create p now user_id m) × ((session_create p now user_id m).faults ≡ m.faults)
unfolding session_create
create-Inv p now user_id m v real dead = (
  record {
    bounded = ground (arith, v.bounded);
    alive = λ k h. ground (arith, v.alive k);
    distinct = λ j k hj hk e. ground (arith, v.distinct j k, v.alive j, v.alive k);
  },
  ground arith,
)

take_out-slots :
    (i : ℕ) (m : Memory) (k : ℕ)
    → i < m.count
    → k < m.count - 1
    → (take_out i m).slots k ≡ (if ltb k i then m.slots k else m.slots (k + 1))
unfolding take_out
take_out-slots i m k used h =
    ground (arith, shift_down-at (m.count - 1 - i) i (update m.slots i null) k)

take_out-live :
    (i : ℕ) (m : Memory) (q : Ptr)
    → m.slots i ≢ null
    → (take_out i m).live q ≡ (if q == m.slots i then false else m.live q)
unfolding take_out
take_out-live i m q real = ground arith

take_out-count : (i : ℕ) (m : Memory) → (take_out i m).count ≡ m.count - 1
unfolding take_out
take_out-count i m = refl

take_out-Inv :
    (i : ℕ) (m : Memory)
    → Inv m
    → i < m.count
    → Inv (take_out i m) × ((take_out i m).faults ≡ m.faults)
unfolding take_out
take_out-Inv i m v used =
    let (real, live) = v.alive i used in
    (
      record {
        bounded = omega (arith, v.bounded);
        alive = λ k h. ground (
          arith,
          take_out-slots i m k used,
          take_out-live i m (m.slots k) real,
          take_out-live i m (m.slots (k + 1)) real,
          v.alive k,
          v.alive (k + 1),
          v.distinct i k used,
          v.distinct i (k + 1) used,
        );
        distinct = λ j k hj hk e. ground (
          arith,
          take_out-slots i m j used,
          take_out-slots i m k used,
          v.distinct j k,
          v.distinct j (k + 1),
          v.distinct (j + 1) k,
          v.distinct (j + 1) (k + 1),
        );
      },
      ground arith,
    )

destroy_loop-Inv :
    (n i : ℕ) (p : Ptr) (m : Memory)
    → Inv m
    → i + n ≤ m.count
    → Inv (destroy_loop n i p m) × ((destroy_loop n i p m).faults ≡ m.faults)
unfolding destroy_loop
destroy_loop-Inv zero i p m v h = (v, refl)
destroy_loop-Inv (suc n) i p m v h = elim (Bool-cases (m.slots i == p)) [
  | inl here ↦ rw here (take_out-Inv i m v (omega arith))
  | inr away ↦ rw away (destroy_loop-Inv n (i + 1) p m v (omega arith))
]

-- A registered pointer is one that a slot in use holds.
registered-live :
    (n i : ℕ) (p : Ptr) (m : Memory)
    → Inv m
    → i + n ≤ m.count
    → is_registered n i p m.slots ≡ true
    → m.live p ≡ true
unfolding is_registered
registered-live zero i p m v h e = ground (arith, e)
registered-live (suc n) i p m v h e = elim (Bool-cases (m.slots i == p)) [
  | inl here ↦ ground (arith, v.alive i)
  | inr away ↦ registered-live n (i + 1) p m v (omega arith) (ground (arith, e))
]

valid-faults :
    (p : Ptr) (now : ℕ) (m : Memory)
    → Inv m
    → Inv (session_is_valid p now m).1 × ((session_is_valid p now m).1.faults ≡ m.faults)
unfolding session_is_valid
valid-faults p now m v = elim (Bool-cases (p == null)) [
  | inl a ↦ rw a (v, refl)
  | inr a ↦ elim (Bool-cases (is_registered m.count 0 p m.slots)) [
    | inl b ↦
        let live = registered-live m.count 0 p m v (omega arith) b in
        rw (a, b, live)
          (record { bounded = v.bounded; alive = v.alive; distinct = v.distinct }, refl)
    | inr b ↦ rw (a, b) (v, refl)
  ]
]

-- The calls of a client, which may pass any pointer, also one whose object was freed.
pub data Call : Type 0 where
  creates : Ptr → (now : ℕ) → ℤ → Call
  destroys : Ptr → Call
  validates : Ptr → (now : ℕ) → Call

abbrev pub perform : Call → Memory → Memory
perform (creates p now user_id) m = session_create p now user_id m
perform (destroys p) m = (session_destroy p m).1
perform (validates p now) m = (session_is_valid p now m).1

unfoldable pub run : List Call → Memory → Memory
run [] m = m
run (c ∷ cs) m = run cs (perform c m)

-- `calloc` gives memory that is not in use.
abbrev Allocates : Call → Memory → Type 0
Allocates (creates p now user_id) m = (p ≢ null) × (m.live p ≡ false)
Allocates (destroys p) m = Unit
Allocates (validates p now) m = Unit

unfoldable pub Allocated : List Call → Memory → Type 0
Allocated [] m = Unit
Allocated (c ∷ cs) m = Allocates c m × Allocated cs (perform c m)

perform-Inv :
    (c : Call) (m : Memory)
    → Inv m
    → Allocates c m
    → Inv (perform c m) × ((perform c m).faults ≡ m.faults)
unfolding session_destroy
perform-Inv (creates p now user_id) m v (real, dead) = create-Inv p now user_id m v real dead
perform-Inv (destroys p) m v ok = elim (Bool-cases (p == null)) [
  | inl a ↦ rw (perform, a) (v, refl)
  | inr a ↦ rw (perform, a) (destroy_loop-Inv m.count 0 p m v (omega arith))
]
perform-Inv (validates p now) m v ok = valid-faults p now m v

-- In the fixed program, whatever pointers the calls pass, also stale ones, no sequence of creations,
-- destructions and validations reads freed memory, dereferences NULL or frees twice, as long as `calloc`
-- finds memory; and the table keeps its bound with distinct objects in use.
pub run_no_fault :
    (cs : List Call) (m : Memory)
    → Inv m
    → Allocated cs m
    → Inv (run cs m) × ((run cs m).faults ≡ m.faults)
unfolding run Allocated
run_no_fault [] m v ok = (v, refl)
run_no_fault (c ∷ cs) m v (now, later) =
    let (v', same) = perform-Inv c m v now in
    let (end, none_more) = run_no_fault cs (perform c m) v' later in (end, none_more ∙ same)

-- In the vulnerable program, destroying a session and asking whether it is valid reads freed memory, for
-- every session in use; the fixed program's caller holds NULL by then, and asks without a fault.
valid_after_destroy :
    (p : Ptr) (now : ℕ) (m : Memory)
    → p ≢ null
    → m.live p ≡ true
    → ((session_is_valid_vuln p now (session_destroy_vuln p m)).1.faults
        ≡ use_after_free ∷ m.faults)
      × (session_is_valid (session_destroy p m).0 now (session_destroy p m).1
          ≡ (false, (session_destroy p m).1))
unfolding session_is_valid_vuln session_destroy_vuln session_destroy session_is_valid
valid_after_destroy p now m real used = (ground arith, ground arith)
