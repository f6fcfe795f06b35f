-- ===== src/Examples/Clients.antt =====
-- Clients of src/main.c that send a log-out in two pieces.
use secure_ci_coding.Base.{
  List, All, ltb, ◌&&◌, ℕ, ◌+◌, Bytes, Bool, ◌≡◌, refl, arith, true, some, [], ◌∷◌,
}
use secure_ci_coding.Common.{fixed}
use secure_ci_coding.Auth.Users.{empty-IsTable}
use secure_ci_coding.Server.{Request, find_connection}
use secure_ci_coding.Server.Ends.{IsPlain, IsChunk}
use secure_ci_coding.Dispatch.{serve, Running}
use secure_ci_coding.Main.{handle_client}
use secure_ci_coding.Main.Clients.{hung_up, handle_client_inert}
use secure_ci_coding.Main.Steps.{}
use secure_ci_coding.Examples.Machine.{connected, answers, world}

abbrev first_piece : Bytes
first_piece = 0 ∷ 0 ∷ 0 ∷ 14 ∷ 0 ∷ 2 ∷ []

abbrev second_piece : Bytes
second_piece = 0 ∷ 0 ∷ 0 ∷ 1 ∷ 0 ∷ 0 ∷ 0 ∷ 0 ∷ []

abbrev pieces : List Bytes
pieces = first_piece ∷ second_piece ∷ []

abbrev all_below : Bytes → Bool
all_below [] = true
all_below (c ∷ m) = ltb c 255 && all_below m

below-IsPlain : (m : Bytes) → all_below m ≡ true → IsPlain m
below-IsPlain [] e = tt
below-IsPlain (c ∷ m) e = (ground arith, below-IsPlain m (ground arith))

pieces_plain : All IsChunk pieces
pieces_plain = (
  (below-IsPlain first_piece refl, omega arith),
  ((below-IsPlain second_piece refl, omega arith), tt),
)

-- A dispatcher that counts the requests.
abbrev counting : Request → ℕ → ℕ
counting r n = n + 1

abbrev waiting_room : Running
waiting_room = record { vault = world.vault; turn = 0; responses = [] }

handle_client_inert_example :
    (t : Running) × (handle_client
        (serve (λ p s. p) fixed (λ k. answers))
        fixed
        true
        4110
        4
        []
        pieces
        connected
        waiting_room
      ≡ some (hung_up fixed true 4 (find_connection 4 connected), t))
    × (t.vault ≡ waiting_room.vault)
handle_client_inert_example =
    handle_client_inert (λ p s. p) (λ k. answers) true 4110 4 [] pieces connected waiting_room
      empty-IsTable refl (omega arith) tt pieces_plain
