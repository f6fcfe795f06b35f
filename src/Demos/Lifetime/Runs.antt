-- ===== src/Demos/Lifetime/Runs.antt =====
-- The two `main`s of 03_use_after_free.c and 03_use_after_free_fixed.c.
use secure_ci_coding.Base.{
  ℕ, ◌+◌, ◌≡◌, ◌≢◌, refl, sym, subst, arith, Bool, true, false, ◌&&◌, ◌∷◌, ltb, ◌==◌, if◌then◌else◌,
}
use secure_ci_coding.Common.{pos, use_after_free}
use secure_ci_coding.Session.{Ptr, null, update, shift_down, is_registered}
use secure_ci_coding.Demos.Lifetime.{
  Session, Memory, touch, free, session_create, session_destroy, session_is_valid,
  session_create_vuln, session_destroy_vuln, session_is_valid_vuln, destroy_loop, take_out,
}

-- What a program shows: the two answers of `session_is_valid`, the pointer it then holds, and the memory.
record Shown : Type 0 where
  pub before : Bool
  pub after : Bool
  pub pointer : Ptr
  pub memory : Memory

-- `main` of the fixed file. `p` is what `calloc` returns, and `now` gives the three readings of the clock.
unfoldable main_fixed : Ptr → (now : ℕ → ℕ) → Memory → Shown
main_fixed p now m =
    let (before, m1) = session_is_valid p (now 1) (session_create p (now 0) (pos 42) m) in
    let (p', m2) = session_destroy p m1 in
    let (after, m3) = session_is_valid p' (now 2) m2 in
    record { before = before; after = after; pointer = p'; memory = m3 }

-- `malloc` at `d`, and `memset`, where the bytes read as the session `x`.
abbrev decoy : Ptr → Session → Memory → Memory
decoy d x m = touch d (record m { heap = update m.heap d x; live = update m.live d true })

-- `main` of the vulnerable file. The two decoys are at `d` and `d'`; `ones` and `letters` are what a
-- `session_t` of the bytes 0xFF and of the bytes 'B' is.
unfoldable main_vuln :
    Ptr → (d d' : Ptr) → (ones letters : Session) → (now : ℕ → ℕ) → Memory → Shown
main_vuln p d d' ones letters now m =
    let (before, m1) = session_is_valid_vuln p (now 1) (session_create_vuln p (now 0) (pos 42) m) in
    let m2 = session_destroy_vuln p m1 in
    let m3 = free d' (free d (decoy d' letters (decoy d ones m2))) in
    let (after, m4) = session_is_valid_vuln p (now 2) m3 in
    record { before = before; after = after; pointer = p; memory = m4 }

-- What the fixed program does on a memory.
abbrev IsSafeRun : Ptr → (now : ℕ → ℕ) → Memory → Type 0
IsSafeRun p now m =
    ((main_fixed p now m).before ≡ ltb (now 1) (now 0 + 3600))
    × ((main_fixed p now m).after ≡ false)
    × ((main_fixed p now m).pointer ≡ null)
    × ((main_fixed p now m).memory.live p ≡ false)
    × ((main_fixed p now m).memory.faults ≡ m.faults)

on_empty :
    (p : Ptr) (now : ℕ → ℕ) (m : Memory) → p ≢ null → IsSafeRun p now (record m { count = 0 })
unfolding main_fixed session_create session_is_valid session_destroy destroy_loop take_out
    is_registered shift_down
on_empty p now m real =
    let not_null : (p == null) ≡ false = ground arith in
    let itself : (p == p) ≡ true = ground arith in
    rw (not_null, itself) (ground arith, refl, refl, ground arith, ground arith)

-- With memory and an empty table the fixed program finds its session valid within the hour and invalid once it
-- is destroyed, holds NULL then, has freed the session, and commits no fault.
main_fixed_lem :
    (p : Ptr) (now : ℕ → ℕ) (m : Memory)
    → p ≢ null
    → m.count ≡ 0
    → ((main_fixed p now m).before ≡ ltb (now 1) (now 0 + 3600))
      × ((main_fixed p now m).after ≡ false)
      × ((main_fixed p now m).pointer ≡ null)
      × ((main_fixed p now m).memory.live p ≡ false)
      × ((main_fixed p now m).memory.faults ≡ m.faults)
main_fixed_lem p now m real empty =
    subst (IsSafeRun p now) (λ i. record m { count = sym empty i }) (on_empty p now m real)

-- The vulnerable program asks the freed session whether it is valid, wherever the decoys lie, and what it shows is
-- what the memory of the session holds then: a decoy that was put there, or else the old contents.
main_vuln_lem :
    (p d d' : Ptr) (ones letters : Session) (now : ℕ → ℕ) (m : Memory)
    → p ≢ null
    → d ≢ null
    → d' ≢ null
    → d ≢ d'
    → ((main_vuln p d d' ones letters now m).memory.faults ≡ use_after_free ∷ m.faults)
      × ((main_vuln p d d' ones letters now m).after ≡ (
          if d' == p
          then letters.active && ltb (now 2) letters.expires_at
          else if d == p
          then ones.active && ltb (now 2) ones.expires_at
          else ltb (now 2) (now 0 + 3600)))
unfolding main_vuln session_create_vuln session_destroy_vuln session_is_valid_vuln
main_vuln_lem p d d' ones letters now m real real' real'' apart = (ground arith, ground arith)
