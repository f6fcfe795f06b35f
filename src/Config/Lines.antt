-- ===== src/Config/Lines.antt =====
-- What a line of the configuration file defines.
use secure_ci_coding.Base.{
  ℕ, suc, ◌<◌, ◌≡◌, ◌≢◌, refl, ap, sym, ◌∙◌, arith, true, false, Option, some, List, [], ◌∷◌, ◌++◌,
  Bytes, if◌then◌else◌, take, drop, length, take_all, same, cstr, index_of, All, append_assoc,
  append-nil,
}
use secure_ci_coding.Config.{
  Entry, is_blank, is_space, skip_blanks, cut_spaces, trim_end, is_skipped, field, add_entry,
  load_line, config_find, config_get,
}

-- A byte of a word: no white space, no '=', no NUL.
abbrev IsWordByte : ℕ → Type 0
IsWordByte c = (is_space c ≡ false) × (c ≢ b'=') × (0 < c)

-- A word that a key or a value may be, and that fits its array.
pub record IsWord (w : Bytes) : Type 0 where
  pub bytes : All IsWordByte w
  pub fits : length w < 1024
  pub some_byte : 0 < length w

-- The first byte starts no comment.
abbrev pub IsKey : Bytes → Type 0
IsKey k = IsWord k × (is_skipped k ≡ false)

-- The line "key = value" with its newline, and the line "key=" with its newline.
abbrev pub definition_line : Bytes → Bytes → Bytes
definition_line k v = (k ++ b' ' ∷ []) ++ b'=' ∷ b' ' ∷ (v ++ b'\n' ∷ [])

abbrev empty_line : Bytes → Bytes
empty_line k = k ++ b'=' ∷ b'\n' ∷ []

module _ (P : ℕ → Type 0) where
  All-append : (s t : Bytes) → All P s → All P t → All P (s ++ t)
  All-append [] t a b = b
  All-append (c ∷ s) t a b = (a.0, All-append s t a.1 b)

  All-map : (Q : ℕ → Type 0) (s : Bytes) → ((c : ℕ) → P c → Q c) → All P s → All Q s
  All-map Q [] f a = tt
  All-map Q (c ∷ s) f a = (f c a.0, All-map Q s f a.1)

abbrev IsVisible : ℕ → Type 0
IsVisible c = 0 < c

abbrev IsNotEquals : ℕ → Type 0
IsNotEquals c = c ≢ b'='

cstr_self : (s : Bytes) → All IsVisible s → cstr s ≡ s
unfolding cstr
cstr_self [] a = refl
cstr_self (c ∷ s) a = ground (arith, cstr_self s a.1)

index_of-append :
    (w m : Bytes) → All IsNotEquals w → index_of b'=' (w ++ b'=' ∷ m) ≡ some (length w)
unfolding index_of
index_of-append [] m a = refl
index_of-append (c ∷ w) m a = ground (arith, index_of-append w m a.1)

cut_spaces-word : (w t : Bytes) → All IsWordByte w → cut_spaces t ≡ [] → cut_spaces (w ++ t) ≡ w
unfolding cut_spaces
cut_spaces-word [] t a e = e
cut_spaces-word (c ∷ []) t a e = ground (arith, e)
cut_spaces-word (c ∷ d ∷ w) t a e = rw (cut_spaces-word (d ∷ w) t a.1 e)

-- A word with white space behind it is trimmed to the word.
trim-word :
    (w t : Bytes) → IsWord w → cut_spaces t ≡ [] → field (trim_end (skip_blanks (w ++ t))) ≡ w
unfolding skip_blanks
trim-word [] t w e = absurd (omega (arith, w.some_byte))
trim-word (c ∷ s) t w e =
    let solid : is_blank c ≡ false = (let b = w.bytes.0.0 in ground arith) in
    ap (λ r. field (trim_end (if r then skip_blanks (s ++ t) else c ∷ (s ++ t)))) solid
    ∙ ap (λ r. field (c ∷ r)) (cut_spaces-word s t w.bytes.1 e)
    ∙ take_all 1023 (c ∷ s) (omega (arith, w.fits))

trim-key : (k : Bytes) → IsWord k → field (trim_end (skip_blanks (k ++ b' ' ∷ []))) ≡ k
unfolding cut_spaces
trim-key k w = trim-word k (b' ' ∷ []) w refl

trim-value : (v : Bytes) → IsWord v → field (trim_end (skip_blanks (b' ' ∷ (v ++ b'\n' ∷ [])))) ≡ v
unfolding cut_spaces skip_blanks
trim-value v w = trim-word v (b'\n' ∷ []) w refl

trim-bare : (k : Bytes) → IsWord k → field (trim_end (skip_blanks k)) ≡ k
unfolding cut_spaces
trim-bare k w =
    ap (λ s. field (trim_end (skip_blanks s))) (sym (append-nil k)) ∙ trim-word k [] w refl

drop-append : (s t : Bytes) (c : ℕ) → drop (suc (length s)) (s ++ c ∷ t) ≡ t
drop-append [] t c = refl
drop-append (d ∷ s) t c = drop-append s t c

take-append : (s t : Bytes) → take (length s) (s ++ t) ≡ s
take-append [] t = refl
take-append (c ∷ s) t = ap (◌∷◌ c) (take-append s t)

word-IsVisible : (c : ℕ) → IsWordByte c → IsVisible c
word-IsVisible c b = b.2

word-IsNotEquals : (c : ℕ) → IsWordByte c → IsNotEquals c
word-IsNotEquals c b = b.1

is_skipped-append : (k m : Bytes) → 0 < length k → is_skipped (k ++ m) ≡ is_skipped k
is_skipped-append [] m h = absurd (omega arith)
is_skipped-append (c ∷ k) m h = refl

-- A line without NULs that starts with a key, up to the first '='.
load_parts :
    (left right : Bytes) (entries : List Entry)
    → All IsVisible left
    → All IsVisible right
    → All IsNotEquals left
    → is_skipped (left ++ b'=' ∷ right) ≡ false
    → load_line true (left ++ b'=' ∷ right) entries
      ≡ record {
        key = field (trim_end (skip_blanks left));
        value = field (trim_end (skip_blanks right));
      }
        ∷ entries
unfolding load_line
load_parts left right entries vl vr ne used =
    let whole =
      cstr_self (left ++ b'=' ∷ right)
        (All-append IsVisible left (b'=' ∷ right) vl (omega arith, vr)) in
    ap (λ s. if is_skipped s then entries else add_entry true s (index_of b'=' s) entries) whole
    ∙ ap
        (λ t.
          if t
          then entries
          else add_entry true (left ++ b'=' ∷ right) (index_of b'=' (left ++ b'=' ∷ right)) entries)
        used
    ∙ ap (λ o. add_entry true (left ++ b'=' ∷ right) o entries) (index_of-append left right ne)
    ∙ ap
        (λ l.
          record {
            key = field (trim_end (skip_blanks l));
            value =
                field (trim_end (skip_blanks (drop (suc (length left)) (left ++ b'=' ∷ right))));
          }
          ∷ entries)
        (take-append left (b'=' ∷ right))
    ∙ ap
        (λ r.
          record {
            key = field (trim_end (skip_blanks left));
            value = field (trim_end (skip_blanks r));
          }
          ∷ entries)
        (drop-append left right b'=')

-- The last definition of a key wins: behind the line "key = value", with memory for its entry, a lookup
-- of the key gives the value, without the white space around it, and a lookup of another key
-- gives what it gave before. Key and value are words of 1 to 1023 bytes, and the key starts no
-- comment.
pub config_get-load_line :
    (k v : Bytes) (j : Bytes) (default_val : Option Bytes) (entries : List Entry)
    → IsKey k
    → IsWord v
    → config_get j default_val (load_line true (definition_line k v) entries)
      ≡ (if same k j then some v else config_get j default_val entries)
unfolding config_get config_find
config_get-load_line k v j default_val entries is_key word =
    ap (config_get j default_val) loaded ∙ ground arith
  where
    blank : All IsVisible (b' ' ∷ [])
    blank = omega arith

    loaded : load_line true (definition_line k v) entries ≡ record { key = k; value = v } ∷ entries
    loaded =
        load_parts (k ++ b' ' ∷ []) (b' ' ∷ (v ++ b'\n' ∷ [])) entries
          (All-append IsVisible k (b' ' ∷ [])
            (All-map IsWordByte IsVisible k word-IsVisible is_key.0.bytes) blank)
          (
            omega arith,
            All-append IsVisible v (b'\n' ∷ [])
                (All-map IsWordByte IsVisible v word-IsVisible word.bytes) (omega arith),
          )
          (All-append IsNotEquals k (b' ' ∷ [])
            (All-map IsWordByte IsNotEquals k word-IsNotEquals is_key.0.bytes) (omega arith))
          (ap is_skipped (append_assoc k (b' ' ∷ []) (b'=' ∷ b' ' ∷ (v ++ b'\n' ∷ [])))
            ∙ is_skipped-append k _ is_key.0.some_byte
            ∙ is_key.1)
        ∙ (λ i. record { key = trim-key k is_key.0 i; value = trim-value v word i } ∷ entries)

-- A line that gives a key no value, "key=" and a newline, defines the key as a newline: the cut of the
-- white space at the end never takes the first byte.
load_line_empty_value :
    (k : Bytes) (entries : List Entry)
    → IsKey k
    → load_line true (empty_line k) entries ≡ record { key = k; value = b'\n' ∷ [] } ∷ entries
unfolding skip_blanks cut_spaces
load_line_empty_value k entries is_key =
    load_parts k (b'\n' ∷ []) entries (All-map IsWordByte IsVisible k word-IsVisible is_key.0.bytes)
      (omega arith) (All-map IsWordByte IsNotEquals k word-IsNotEquals is_key.0.bytes)
      (is_skipped-append k (b'=' ∷ b'\n' ∷ []) is_key.0.some_byte ∙ is_key.1)
    ∙ ap (λ x. record { key = x; value = b'\n' ∷ [] } ∷ entries) (trim-bare k is_key.0)
