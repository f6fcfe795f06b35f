-- ===== src/Main/Closing.antt =====
-- One round of the loop of the shutdown of src/main.c that closes the connections.
use secure_ci_coding.Base.{
  ℕ, zero, suc, ◌+◌, ◌≤◌, ◌<◌, ◌≡◌, ◌≢◌, inl, inr, refl, sym, ap, subst, ◌⊎◌, ◌∙◌, arith, Bool,
  false, ◌==◌, Option, none, some,
}
use secure_ci_coding.Common.{fixed}
use secure_ci_coding.Session.{Ptr, null}
use secure_ci_coding.Network.{Network, Connection, closed, conn_close}
use secure_ci_coding.Network.Close.{Holds}
use secure_ci_coding.Main.{close_slot}

-- From slot `i` on, every slot is NULL or holds a live connection with a live buffer, and no two
-- share memory: none of them was closed before.
pub record Separate (i : ℕ) (s : Network) : Type 0 where
  pub held : (j : ℕ) → i ≤ j → s.slots j ≢ null → Holds s (s.slots j)
  pub slots_apart : (j k : ℕ) → i ≤ j → i ≤ k → j ≢ k → s.slots j ≢ null → s.slots j ≢ s.slots k
  pub buffers_apart :
      (j k : ℕ)
      → i ≤ j
      → i ≤ k
      → j ≢ k
      → s.slots j ≢ null
      → s.slots k ≢ null
      → (s.heap (s.slots j)).buffer ≢ (s.heap (s.slots k)).buffer
  pub mixed_apart :
      (j k : ℕ)
      → i ≤ j
      → i ≤ k
      → s.slots j ≢ null
      → s.slots k ≢ null
      → (s.heap (s.slots j)).buffer ≢ s.slots k

-- It passes to a later slot, where what stands there is the same.
Separate-kept :
    (i : ℕ) (s t : Network)
    → Separate i s
    → ((k : ℕ) → i < k → t.slots k ≡ s.slots k)
    → ((k : ℕ) → i < k → s.slots k ≢ null → t.heap (s.slots k) ≡ s.heap (s.slots k))
    → ((k : ℕ) → i < k → s.slots k ≢ null → Holds t (s.slots k))
    → Separate (i + 1) t
Separate-kept i s t v slots heap holds = record {
  held =
      λ j h r. subst (Holds t) (sym (slots j (omega arith))) (holds j (omega arith) (real j h r));
  slots_apart = λ j k h h' other r e.
      v.slots_apart j k (omega arith) (omega arith) other (real j h r)
        (sym (slots j (omega arith)) ∙ e ∙ slots k (omega arith));
  buffers_apart = λ j k h h' other r r' e.
      v.buffers_apart j k (omega arith) (omega arith) other (real j h r) (real k h' r')
        (sym (buffer j h r) ∙ e ∙ buffer k h' r');
  mixed_apart = λ j k h h' r r' e.
      v.mixed_apart j k (omega arith) (omega arith) (real j h r) (real k h' r')
        (sym (buffer j h r) ∙ e ∙ slots k (omega arith));
}
  where
    real : (j : ℕ) → i + 1 ≤ j → t.slots j ≢ null → s.slots j ≢ null
    real j h r e = r (slots j (omega arith) ∙ e)

    buffer :
        (j : ℕ)
        → i + 1 ≤ j
        → t.slots j ≢ null
        → (t.heap (t.slots j)).buffer ≡ (s.heap (s.slots j)).buffer
    buffer j h r =
        ap (λ p. (t.heap p).buffer) (slots j (omega arith))
        ∙ ap (λ (c : Connection). c.buffer) (heap j (omega arith) (real j h r))

module _ (shut : Bool) (i : ℕ) (s : Network) (v : Separate i s) where
  pub close_slot_faults : (close_slot fixed shut i s).faults ≡ s.faults
  unfolding conn_close
  close_slot_faults = ground (arith, v.held i)

  pub close_slot_others : (k : ℕ) → k ≢ i → (close_slot fixed shut i s).slots k ≡ s.slots k
  unfolding conn_close
  close_slot_others k other = ground arith

  pub close_slot-null : (close_slot fixed shut i s).slots i ≡ null
  unfolding conn_close
  close_slot-null = ground arith

  pub close_slot_heap :
      (k : ℕ)
      → i < k
      → s.slots k ≢ null
      → (close_slot fixed shut i s).heap (s.slots k) ≡ s.heap (s.slots k)
  unfolding conn_close
  close_slot_heap k h real = ground (arith, v.slots_apart k i)

  close_slot_live :
      (q : Ptr)
      → (s.slots i ≢ null → q ≢ s.slots i)
      → (s.slots i ≢ null → q ≢ (s.heap (s.slots i)).buffer)
      → (close_slot fixed shut i s).live q ≡ s.live q
  unfolding conn_close
  close_slot_live q a b = ground arith

  close_slot-Holds :
      (k : ℕ) → i < k → s.slots k ≢ null → Holds (close_slot fixed shut i s) (s.slots k)
  close_slot-Holds k h real =
      let old = v.held k (omega arith) real in
      let same = close_slot_heap k h real in
      let buffer = ap (λ (c : Connection). c.buffer) same in
      record {
        real = old.real;
        buffer_real = λ e. old.buffer_real (sym buffer ∙ e);
        alive =
            close_slot_live (s.slots k)
              (λ r. v.slots_apart k i (omega arith) (omega arith) (omega arith) real)
              (λ r e. v.mixed_apart i k (omega arith) (omega arith) r real (sym e))
            ∙ old.alive;
        buffer_alive =
            ap (close_slot fixed shut i s).live buffer
            ∙ close_slot_live (s.heap (s.slots k)).buffer
                (λ r. v.mixed_apart k i (omega arith) (omega arith) real r)
                (λ r. v.buffers_apart k i (omega arith) (omega arith) (omega arith) real r)
            ∙ old.buffer_alive;
        apart = λ e. old.apart (sym buffer ∙ e);
      }

  pub close_slot-Separate : Separate (i + 1) (close_slot fixed shut i s)
  close_slot-Separate =
      Separate-kept i s (close_slot fixed shut i s) v (λ k h. close_slot_others k (omega arith))
        (λ k h. close_slot_heap k (omega arith)) (λ k h. close_slot-Holds k (omega arith))

-- A descriptor that is -1, or 0, which no close of a connection closes, or not open.
abbrev pub IsShut : Option ℕ → (ℕ → Bool) → Type 0
IsShut none is_open = Unit
IsShut (some fd) is_open = (fd ≡ 0) ⊎ (is_open fd ≡ false)

-- The connection that `p` held in the network `s` was given back in `t`, its buffer and its descriptor too.
pub record IsGivenBack (s t : Network) (p : Ptr) : Type 0 where
  pub freed : t.live p ≡ false
  pub buffer_freed : t.live (s.heap p).buffer ≡ false
  pub shut : IsShut (s.heap p).fd t.is_open

close_slot_shuts :
    (shut : Bool) (i : ℕ) (s : Network) (fd : Option ℕ)
    → s.slots i ≢ null
    → (s.heap (s.slots i)).fd ≡ fd
    → IsShut fd (close_slot fixed shut i s).is_open
unfolding conn_close
close_slot_shuts shut i s none real at = tt
close_slot_shuts shut i s (some zero) real at = inl refl
close_slot_shuts shut i s (some (suc fd)) real at =
    inr (
      let occupied : (s.slots i == null) ≡ false = ground arith in rw (occupied, at) (ground arith))

pub close_slot-IsGivenBack :
    (shut : Bool) (i : ℕ) (s : Network)
    → Separate i s
    → s.slots i ≢ null
    → IsGivenBack s (close_slot fixed shut i s) (s.slots i)
unfolding conn_close
close_slot-IsGivenBack shut i s v real = record {
  freed = ground arith;
  buffer_freed = ground (arith, (v.held i (omega arith) real).buffer_real);
  shut = close_slot_shuts shut i s _ real refl;
}

-- What was given back stays so.
pub close_slot_dead :
    (shut : Bool) (i : ℕ) (s : Network) (q : Ptr)
    → s.live q ≡ false
    → (close_slot fixed shut i s).live q ≡ false
unfolding conn_close
close_slot_dead shut i s q dead = ground arith

closed_shut :
    (fd : Option ℕ) (is_open : ℕ → Bool) (n : ℕ) → is_open n ≡ false → closed fd is_open n ≡ false
closed_shut none is_open n h = h
closed_shut (some fd) is_open n h = ground arith

pub close_slot-IsShut :
    (shut : Bool) (i : ℕ) (s : Network) (fd : Option ℕ)
    → IsShut fd s.is_open
    → IsShut fd (close_slot fixed shut i s).is_open
unfolding conn_close
close_slot-IsShut shut i s none h = tt
close_slot-IsShut shut i s (some fd) (inl e) = inl e
close_slot-IsShut shut i s (some fd) (inr e) =
    inr (ground (arith, closed_shut (s.heap (s.slots i)).fd s.is_open fd e))
