-- ===== src/Config/File.antt =====
-- What a whole configuration file means.
use secure_ci_coding.Base.{
  ◌<◌, ◌≡◌, refl, ap, ◌∙◌, true, Option, some, List, [], ◌∷◌, ◌++◌, Bytes, All, map, length,
  if◌then◌else◌, same, cstr, Bool,
}
use secure_ci_coding.Common.{max_config_line}
use secure_ci_coding.Config.{Entry, load_line, load_lines, config_load, config_get}
use secure_ci_coding.Config.Lines.{IsWord, IsKey, definition_line, config_get-load_line}

-- The lines that a file is written with.
pub data Item : Type 0 where
  comment : Bytes → Item
  empty : Item
  definition : (key value : Bytes) → Item

abbrev text_of : Item → Bytes
text_of (comment text) = b'#' ∷ (text ++ b'\n' ∷ [])
text_of empty = b'\n' ∷ []
text_of (definition k v) = definition_line k v

-- `fgets` gives the line in one piece, and a definition has a key and a value that are words.
abbrev IsItem : Item → Type 0
IsItem (comment text) = length (text_of (comment text)) < max_config_line
IsItem empty = Unit {0}
IsItem (definition k v) = IsKey k × IsWord v × (length (definition_line k v) < max_config_line)

-- The value of a key behind the items, if it was `before` in front of them: that of its last definition.
abbrev pub value_of : List Item → Bytes → (before : Option Bytes) → Option Bytes
value_of [] j before = before
value_of (comment text ∷ items) j before = value_of items j before
value_of (empty ∷ items) j before = value_of items j before
value_of (definition k v ∷ items) j before = value_of items j (if same k j then some v else before)

-- What `fgets` gives for the items, with memory for every entry.
abbrev pub lines_of : List Item → List (Bool × Bytes)
lines_of items = map (λ i. (true, text_of i)) items

config_get-load_lines :
    (items : List Item) (entries : List Entry) (j : Bytes) (default_val : Option Bytes)
    → All IsItem items
    → config_get j default_val (load_lines (lines_of items) entries)
      ≡ value_of items j (config_get j default_val entries)
unfolding load_lines load_line cstr
config_get-load_lines [] entries j default_val a = refl
config_get-load_lines (comment text ∷ items) entries j default_val a =
    config_get-load_lines items entries j default_val a.1
config_get-load_lines (empty ∷ items) entries j default_val a =
    config_get-load_lines items entries j default_val a.1
config_get-load_lines (definition k v ∷ items) entries j default_val a =
    config_get-load_lines items (load_line true (definition_line k v) entries) j default_val a.1
    ∙ ap (value_of items j) (config_get-load_line k v j default_val entries a.0.0 a.0.1)

-- A file of comments, empty lines and definitions "key = value" is loaded, where there is memory for its entries, and a
-- lookup of any key then gives the value of the key's last definition in the file, or without one what it gave before.
-- No line is longer than 1023 bytes; keys and values are words, and no key starts a comment.
pub config_get-config_load :
    (items : List Item) (entries : List Entry)
    → All IsItem items
    → (loaded : List Entry) × (config_load (some (lines_of items)) entries ≡ some loaded)
      × ((j : Bytes) (default_val : Option Bytes)
          → config_get j default_val loaded ≡ value_of items j (config_get j default_val entries))
unfolding config_load
config_get-config_load items entries a = (
  load_lines (lines_of items) entries,
  refl,
  λ j default_val. config_get-load_lines items entries j default_val a,
)
