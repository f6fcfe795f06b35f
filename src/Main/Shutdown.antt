-- ===== src/Main/Shutdown.antt =====
-- The loop of the shutdown of src/main.c that closes the connections.
use secure_ci_coding.Base.{
  ℕ, zero, suc, ◌+◌, ◌≤◌, ◌<◌, ◌≡◌, inl, inr, refl, sym, ap, subst, ◌⊎◌, ◌∙◌, arith, Bool, false,
  Bool-cases, ◌==◌,
}
use secure_ci_coding.Common.{fixed, max_connections}
use secure_ci_coding.Session.{Ptr, null}
use secure_ci_coding.Network.{Network, Connection, closed, conn_close}
use secure_ci_coding.Main.{State, close_slot, close_loop, shutdown}
use secure_ci_coding.Main.Closing.{
  Separate, IsShut, IsGivenBack, close_slot_faults, close_slot_others, close_slot-null,
  close_slot_heap, close_slot-Separate, close_slot-IsGivenBack, close_slot_dead, close_slot-IsShut,
}

close_loop_given :
    (n i : ℕ) (shut : ℕ → Bool) (r s : Network) (p : Ptr)
    → IsGivenBack r s p
    → IsGivenBack r (close_loop n i fixed shut s) p
unfolding close_loop
close_loop_given zero i shut r s p v = v
close_loop_given (suc n) i shut r s p v = close_loop_given n (i + 1) shut r _ p (record {
  freed = close_slot_dead (shut i) i s p v.freed;
  buffer_freed = close_slot_dead (shut i) i s (r.heap p).buffer v.buffer_freed;
  shut = close_slot-IsShut (shut i) i s (r.heap p).fd v.shut;
})

given_same :
    (s t u : Network) (p q : Ptr)
    → q ≡ p
    → t.heap p ≡ s.heap p
    → IsGivenBack t u q
    → IsGivenBack s u p
given_same s t u p q e same v = record {
  freed = subst (λ r. u.live r ≡ false) e v.freed;
  buffer_freed =
      subst (λ (c : Connection). u.live c.buffer ≡ false) (ap t.heap e ∙ same) v.buffer_freed;
  shut = subst (λ (c : Connection). IsShut c.fd u.is_open) (ap t.heap e ∙ same) v.shut;
}

-- A slot behind the loop keeps what it holds.
close_loop_before :
    (n i : ℕ) (shut : ℕ → Bool) (s : Network) (k : ℕ)
    → k < i
    → (close_loop n i fixed shut s).slots k ≡ s.slots k
unfolding close_loop conn_close
close_loop_before zero i shut s k h = refl
close_loop_before (suc n) i shut s k h =
    close_loop_before n (i + 1) shut _ k (omega arith) ∙ ground arith

close_loop_clean :
    (n i : ℕ) (shut : ℕ → Bool) (s : Network)
    → Separate i s
    → ((close_loop n i fixed shut s).faults ≡ s.faults)
      × ((k : ℕ)
          → i ≤ k
          → k < i + n
          → ((close_loop n i fixed shut s).slots k ≡ null)
            × ((s.slots k ≡ null) ⊎ IsGivenBack s (close_loop n i fixed shut s) (s.slots k)))
unfolding close_loop
close_loop_clean zero i shut s v = (refl, λ k a b. absurd (omega arith))
close_loop_clean (suc n) i shut s v =
    let t = close_slot fixed (shut i) i s in
    let (faults, rest) = close_loop_clean n (i + 1) shut t (close_slot-Separate (shut i) i s v) in
    (
      faults ∙ close_slot_faults (shut i) i s v,
      λ k a b. elim (Bool-cases (k == i)) [
        | inl same ↦
            let eq : k ≡ i = ground arith in
            (
              close_loop_before n (i + 1) shut t k (omega arith)
                  ∙ ap t.slots eq
                  ∙ close_slot-null (shut i) i s v,
              elim (Bool-cases (s.slots k == null)) [
                | inl empty ↦ inl (ground arith)
                | inr real ↦ inr (
                    close_loop_given n (i + 1) shut s t (s.slots k) (
                      subst (λ j. IsGivenBack s t (s.slots j)) (sym eq)
                        (close_slot-IsGivenBack (shut i) i s v
                          (λ e. ground (arith, ap s.slots eq)))))
              ],
            )
        | inr other ↦
            let at = close_slot_others (shut i) i s v k (ground arith) in
            let (closed, given) = rest k (ground arith) (omega arith) in
            (
              closed,
              elim (Bool-cases (s.slots k == null)) [
                | inl empty ↦ inl (ground arith)
                | inr real ↦ elim given [
                  | inl e ↦ inl (sym at ∙ e)
                  | inr v' ↦ inr (
                      given_same s t _ (s.slots k) (t.slots k) at
                        (close_slot_heap (shut i) i s v k (ground arith) (ground arith)) v')
                ]
              ],
            )
      ],
    )

-- Where no connection in the table was closed before, and no two share memory, the shutdown of the fixed
-- server frees every connection in the table and its buffer, closes its descriptor where that is greater
-- than 0, leaves every slot NULL, and causes no fault.
pub shutdown_closes :
    (shut : ℕ → Bool) (now : ℕ) (s : State) (k : ℕ)
    → Separate 0 s.network
    → k < max_connections
    → ((shutdown fixed shut now s).network.faults ≡ s.network.faults)
      × ((shutdown fixed shut now s).network.slots k ≡ null)
      × ((s.network.slots k ≡ null)
          ⊎ IsGivenBack s.network (shutdown fixed shut now s).network (s.network.slots k))
unfolding shutdown
shutdown_closes shut now s k v h =
    let (faults, closed) = close_loop_clean 32 0 shut s.network v in
    let (cleared, given) = closed k (omega arith) (omega arith) in (faults, cleared, given)
