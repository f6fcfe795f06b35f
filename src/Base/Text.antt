-- ===== src/Base/Text.antt =====
-- C strings. A `const char *` is the memory from the pointer on, as a list of bytes that reaches
-- at least to the terminating NUL; `cstr` is the string that it points to.
use Prim.Native.Nat.{ℕ, suc}
use Prim.Native.Char.{code}
use Prim.Native.String.{String}
use mathlib.Core.Path.{◌≡◌, refl}
use mathlib.Core.Bool.{Bool, true, false, ◌&&◌, ◌||◌}
use mathlib.Core.Option.{Option, none, some}
use mathlib.Core.List.{[], ◌∷◌}
use native.Mathlib.Omega.{arith}
use secure_ci_coding.Base.Tests.{◌==◌, if◌then◌else◌}
use secure_ci_coding.Base.Words.{Bytes}

-- The bytes of a literal.
abbrev pub codes : String → Bytes
codes String.[] = []
codes (String.◌∷◌ c s) = code c ∷ codes s

unfoldable pub cstr : Bytes → Bytes
cstr [] = []
cstr (c ∷ m) = if c == 0 then [] else c ∷ cstr m

-- `strcmp(a, b) == 0`, on the strings themselves.
unfoldable pub same : Bytes → Bytes → Bool
same [] [] = true
same [] (d ∷ t) = false
same (c ∷ s) [] = false
same (c ∷ s) (d ∷ t) = c == d && same s t

-- `strchr`: the offset of the first `c`.
unfoldable pub index_of : ℕ → Bytes → Option ℕ
index_of c [] = none
index_of c (d ∷ s) =
    if d == c then some 0 else elim (index_of c s) [ none ↦ none | some i ↦ some (suc i) ]

unfoldable pub contains : ℕ → Bytes → Bool
contains c [] = false
contains c (d ∷ s) = d == c || contains c s

-- `strncmp(s, p, strlen(p)) == 0`.
unfoldable pub starts_with : Bytes → Bytes → Bool
starts_with s [] = true
starts_with [] (d ∷ p) = false
starts_with (c ∷ s) (d ∷ p) = c == d && starts_with s p

-- `strstr(s, "..")`.
unfoldable pub has_dotdot : Bytes → Bool
has_dotdot [] = false
has_dotdot (c ∷ s) = (c == b'.' && starts_with s (b'.' ∷ [])) || has_dotdot s

pub same_iff : (s t : Bytes) → same s t ≡ true → s ≡ t
unfolding same
same_iff [] [] h = refl
same_iff [] (d ∷ t) h = ground arith
same_iff (c ∷ s) [] h = ground arith
same_iff (c ∷ s) (d ∷ t) h = ground (arith, same_iff s t)

pub same_refl : (s : Bytes) → same s s ≡ true
unfolding same
same_refl [] = refl
same_refl (c ∷ s) = ground (arith, same_refl s)
