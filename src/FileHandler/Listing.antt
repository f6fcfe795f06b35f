-- ===== src/FileHandler/Listing.antt =====
-- The text of `file_list`.
use secure_ci_coding.Base.{
  ◌+◌, ◌≤◌, ◌<◌, ◌≡◌, ◌≢◌, ◌↔◌, refl, arith, Bool, true, false, ◌==◌, starts_with, Bool-cases, inl,
  inr, List, [], ◌∷◌, ◌++◌, Bytes, ltb, if◌then◌else◌, length, length-append, append_assoc,
  append-nil, ap, ◌∙◌, sym, some, some_eq,
}
use secure_ci_coding.Common.{max_payload_size}
use secure_ci_coding.FileHandler.{is_listed, list_loop, file_list}

-- A text that begins with another, and a name that begins with a dot.
abbrev begins_with : (prefix text : Bytes) → Bool
begins_with [] text = true
begins_with (c ∷ prefix) [] = false
begins_with (c ∷ prefix) (d ∷ text) = if c == d then begins_with prefix text else false

abbrev is_hidden : Bytes → Bool
is_hidden [] = false
is_hidden (c ∷ name) = c == 46

-- The names to list: those that begin with the prefix and not with a dot, which is the byte 46.
abbrev pub is_shown : (prefix name : Bytes) → Bool
is_shown prefix name = if is_hidden name then false else begins_with prefix name

abbrev pub IsShown : (prefix name : Bytes) → Type 0
IsShown prefix name =
    ((rest : Bytes) × (name ≡ prefix ++ rest)) × ((rest : Bytes) → name ≢ 46 ∷ rest)

begins_with_right :
    (prefix text : Bytes)
    → (begins_with prefix text ≡ true) ↔ ((rest : Bytes) × (text ≡ prefix ++ rest))
begins_with_right [] text = (λ e. (text, refl), λ _. refl)
begins_with_right (c ∷ prefix) [] = (λ e. absurd (ground arith), λ (rest, e). absurd (ground arith))
begins_with_right (c ∷ prefix) (d ∷ text) = (
  λ e.
      let (rest, eq) = (begins_with_right prefix text).0 (ground arith) in
      let first : d ≡ c = ground arith in (rest, λ i. first i ∷ eq i),
  λ (rest, e).
      let tail : text ≡ prefix ++ rest = grind arith in
      let first : d ≡ c = grind arith in
      let go = (begins_with_right prefix text).1 (rest, tail) in ground arith,
)

starts_with-begins_with : (text prefix : Bytes) → starts_with text prefix ≡ begins_with prefix text
unfolding starts_with
starts_with-begins_with [] [] = refl
starts_with-begins_with (d ∷ text) [] = refl
starts_with-begins_with [] (c ∷ prefix) = refl
starts_with-begins_with (d ∷ text) (c ∷ prefix) =
    ground (arith, starts_with-begins_with text prefix)

is_listed-is_shown : (prefix name : Bytes) → is_listed prefix name ≡ is_shown prefix name
is_listed-is_shown prefix [] = starts_with-begins_with [] prefix
is_listed-is_shown prefix (c ∷ name) = ground (arith, starts_with-begins_with (c ∷ name) prefix)

is_shown_right : (prefix name : Bytes) → (is_shown prefix name ≡ true) ↔ IsShown prefix name
is_shown_right prefix [] = (
  λ e. ((begins_with_right prefix []).0 e, λ rest e. absurd (ground arith)),
  λ (begins, plain). (begins_with_right prefix []).1 begins,
)
is_shown_right prefix (c ∷ name) = (
  λ e.
      let begins : begins_with prefix (c ∷ name) ≡ true = ground arith in
      let plain : c ≢ 46 = ground arith in
      ((begins_with_right prefix (c ∷ name)).0 begins, λ rest e. plain (grind arith)),
  λ (begins, plain).
      let shown = (begins_with_right prefix (c ∷ name)).1 begins in
      let visible : c ≢ 46 = λ e. plain name (ap (λ d. d ∷ name) e) in ground arith,
)

-- One a line.
abbrev pub listing : Bytes → List Bytes → Bytes
listing prefix [] = []
listing prefix (name ∷ names) =
    if is_shown prefix name then name ++ b'\n' ∷ listing prefix names else listing prefix names

list_loop_bound :
    (prefix : Bytes) (names : List Bytes) (out : Bytes)
    → length out < max_payload_size
    → length (list_loop prefix names out) < max_payload_size
unfolding list_loop
list_loop_bound prefix [] out h = h
list_loop_bound prefix (name ∷ names) out h = ground (
  arith,
  list_loop_bound prefix names out,
  list_loop_bound prefix names (out ++ (name ++ b'\n' ∷ [])),
  length-append out (name ++ b'\n' ∷ []),
  length-append name (b'\n' ∷ []),
)

-- The listing with its NUL fits the buffer of 16 MB, whatever the directory holds.
file_list_bound :
    (prefix : Bytes) (names : List Bytes) {text : Bytes}
    → file_list prefix (some names) ≡ some text
    → length text + 1 ≤ max_payload_size
unfolding file_list
file_list_bound prefix names e =
    omega (arith, list_loop_bound prefix names [] (omega arith), ap length (some_eq e))

pub list_loop-listing :
    (prefix : Bytes) (names : List Bytes) (out : Bytes)
    → length out + length (listing prefix names) < max_payload_size
    → list_loop prefix names out ≡ out ++ listing prefix names
unfolding list_loop
list_loop-listing prefix [] out h = sym (append-nil out)
list_loop-listing prefix (name ∷ names) out h = elim (Bool-cases (is_shown prefix name)) [
  | inr hidden ↦
      rw (is_listed-is_shown prefix name, hidden)
        (list_loop-listing prefix names out (rw hidden at h))
  | inl shown ↦
      let line = name ++ b'\n' ∷ [] in
      let h' : length out + length (name ++ b'\n' ∷ listing prefix names) < max_payload_size =
        rw shown at h in
      let sizes = length-append name (b'\n' ∷ listing prefix names) in
      let goes_on : ltb max_payload_size (length out + length name + 2) ≡ false =
        ground (arith, sizes, h') in
      rw (is_listed-is_shown prefix name, shown, goes_on)
        (list_loop-listing prefix names (out ++ line)
            (omega (arith, sizes, h', length-append out line, length-append name (b'\n' ∷ [])))
          ∙ append_assoc out line (listing prefix names)
          ∙ ap (◌++◌ out) (append_assoc name (b'\n' ∷ []) (listing prefix names)))
]

-- Where the listing fits, the text is the listing, in the order of the directory, each name with a
-- newline; and the names shown there are those that begin with the prefix and whose first byte is no
-- dot (the byte 46).
pub file_list-listing :
    (prefix : Bytes) (names : List Bytes)
    → length (listing prefix names) < max_payload_size
    → (file_list prefix (some names) ≡ some (listing prefix names))
      × ((name : Bytes) → (is_shown prefix name ≡ true) ↔ IsShown prefix name)
unfolding file_list
file_list-listing prefix names h =
    (ap some (list_loop-listing prefix names [] (omega arith)), is_shown_right prefix)
