-- ===== src/Network/Write.antt =====
-- `network_write` over the answers of `send`.
use secure_ci_coding.Base.{ℕ, ◌+◌, ◌≡◌, ◌≤◌, ◌↔◌, arith, List, [], ◌∷◌}
use secure_ci_coding.Network.{SendResult, again, failed, sent, done, write_loop, network_write}

-- The bytes that the answers account for, up to the first failure.
abbrev sent_bytes : List SendResult → ℕ
sent_bytes [] = 0
sent_bytes (again ∷ rest) = sent_bytes rest
sent_bytes (failed ∷ rest) = 0
sent_bytes (sent n ∷ rest) = n + sent_bytes rest

write_loop_done :
    (len total : ℕ) (answers : List SendResult)
    → (write_loop len total answers ≡ done) ↔ (len ≤ total + sent_bytes answers)
unfolding write_loop
write_loop_done len total [] = (λ e. ground arith, λ h. ground arith)
write_loop_done len total (again ∷ rest) =
    let more = write_loop_done len total rest in
    (λ e. ground (arith, more.0), λ h. ground (arith, more.1))
write_loop_done len total (failed ∷ rest) = (λ e. ground arith, λ h. ground arith)
write_loop_done len total (sent n ∷ rest) =
    let more = write_loop_done len (total + n) rest in
    (λ e. ground (arith, more.0), λ h. ground (arith, more.1))

-- `network_write` succeeds exactly when the calls of `send` before the first failure account for all
-- bytes of the message.
network_write_done :
    (len : ℕ) (answers : List SendResult)
    → (network_write len answers ≡ done) ↔ (len ≤ sent_bytes answers)
unfolding network_write
network_write_done len answers =
    let loop = write_loop_done len 0 answers in
    (λ e. omega (arith, loop.0 e), λ h. loop.1 (omega arith))
