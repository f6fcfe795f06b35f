-- ===== src/Base/Words.antt =====
-- Bytes and fixed-width words: big-endian halves and words as the wire carries them.
use Prim.Native.Nat.{ℕ, ◌+◌, ◌*◌, ◌/◌, ◌%◌, ◌^◌, ◌<◌}
use mathlib.Core.Path.{◌≡◌}
use mathlib.Core.List.{List, [], ◌∷◌}
use native.Mathlib.Omega.{arith}
use secure_ci_coding.Base.Lists.{get_or}

abbrev pub Bytes : Type 0
Bytes = List ℕ

abbrev pub u32_mod : ℕ
u32_mod = 2 ^ 32

abbrev pub u16_mod : ℕ
u16_mod = 2 ^ 16

-- `htonl` and `htons` followed by the copy of the bytes.
unfoldable pub be32 : ℕ → Bytes
be32 w = (w / 2 ^ 24 % 256) ∷ (w / 2 ^ 16 % 256) ∷ (w / 2 ^ 8 % 256) ∷ (w % 256) ∷ []

unfoldable pub be16 : ℕ → Bytes
be16 w = (w / 2 ^ 8 % 256) ∷ (w % 256) ∷ []

abbrev pub word32 : ℕ → ℕ → ℕ → ℕ → ℕ
word32 a b c d = a * 2 ^ 24 + b * 2 ^ 16 + c * 2 ^ 8 + d

abbrev pub byte_at : Bytes → ℕ → ℕ
byte_at m i = get_or m i 0

-- `memcpy` of four or two bytes at an offset, followed by `ntohl` or `ntohs`.
unfoldable pub read32 : Bytes → ℕ → ℕ
read32 m i = word32 (byte_at m i) (byte_at m (i + 1)) (byte_at m (i + 2)) (byte_at m (i + 3))

unfoldable pub read16 : Bytes → ℕ → ℕ
read16 m i = byte_at m i * 2 ^ 8 + byte_at m (i + 1)

pub word32_digits :
    (w : ℕ)
    → w < u32_mod
    → word32 (w / 2 ^ 24 % 256) (w / 2 ^ 16 % 256) (w / 2 ^ 8 % 256) (w % 256) ≡ w
word32_digits w h = omega arith

pub word16_digits : (w : ℕ) → w < u16_mod → w / 2 ^ 8 % 256 * 2 ^ 8 + w % 256 ≡ w
word16_digits w h = omega arith
