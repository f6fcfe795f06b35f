-- ===== src/Examples/Loop.antt =====
-- Inputs for the receive loop of src/main.c.
use secure_ci_coding.Base.{
  ℕ, ◌+◌, ◌≡◌, refl, arith, [], ◌∷◌, ◌++◌, Bytes, codes, length, read16, read32,
}
use secure_ci_coding.Common.{op_code, login, logout, upload}
use secure_ci_coding.Protocol.{parse_message}
use secure_ci_coding.Server.{Request, waiting, running, process_loop}
use secure_ci_coding.Server.Framing.{process_loop_diverges}
use secure_ci_coding.Server.Stream.{Message, packets, dispatch_all, process_loop-packets}

-- A dispatcher that counts the requests.
abbrev counting : Request → ℕ → ℕ
counting r n = n + 1

abbrev logout_packet : Bytes
logout_packet = 0 ∷ 0 ∷ 0 ∷ 14 ∷ 0 ∷ 2 ∷ 0 ∷ 0 ∷ 0 ∷ 1 ∷ 0 ∷ 0 ∷ 0 ∷ 0 ∷ []

-- A log-out, and the first bytes of another message.
abbrev two_thirds : Bytes
two_thirds = logout_packet ++ 0 ∷ 0 ∷ 0 ∷ []

one_done : process_loop counting 3 two_thirds 17 0 0 ≡ waiting 14 1
unfolding process_loop parse_message read16 read32
one_done = refl

-- An upload of 100 bytes of which 5 arrived.
abbrev cut_packet : Bytes
cut_packet = 0 ∷ 0 ∷ 0 ∷ 114 ∷ 0 ∷ 3 ∷ 0 ∷ 0 ∷ 0 ∷ 1 ∷ 0 ∷ 0 ∷ 0 ∷ 100 ∷ 1 ∷ 2 ∷ 3 ∷ 4 ∷ 5 ∷ []

cut_len : read32 cut_packet 10 ≡ 100
unfolding read32
cut_len = refl

-- An upload that declares 2 ^ 32 - 14 bytes.
abbrev huge_packet : Bytes
huge_packet = 0 ∷ 0 ∷ 0 ∷ 14 ∷ 0 ∷ 3 ∷ 0 ∷ 0 ∷ 0 ∷ 1 ∷ 255 ∷ 255 ∷ 255 ∷ 242 ∷ []

huge_op : read16 huge_packet 4 ≡ op_code upload
unfolding read16
huge_op = refl

huge_len : read32 huge_packet 10 ≡ 4294967282
unfolding read32
huge_len = refl

process_loop_diverges_example : process_loop counting 1000 huge_packet 14 0 0 ≡ running
process_loop_diverges_example =
    process_loop_diverges counting huge_packet 14 1000 0 0 upload (omega arith) huge_op
      (omega (arith, huge_len))

abbrev first_message : Message
first_message = record { op = login; session_id = 0; payload = codes "alice" }

abbrev second_message : Message
second_message = record { op = logout; session_id = 9; payload = [] }

process_loop-packets_example :
    process_loop counting 3
      (packets (first_message ∷ second_message ∷ []) ++ 5 ∷ [])
      (length (packets (first_message ∷ second_message ∷ [])))
      0
      0
    ≡ waiting
        (length (packets (first_message ∷ second_message ∷ [])))
        (dispatch_all counting (first_message ∷ second_message ∷ []) (5 ∷ []) 0)
process_loop-packets_example =
    process_loop-packets ℕ counting (first_message ∷ second_message ∷ []) (5 ∷ []) 0 (omega arith)
