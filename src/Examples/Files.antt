-- ===== src/Examples/Files.antt =====
-- Configuration lines of src/config.c and files of src/file_handler.c.
use secure_ci_coding.Base.{
  ◌<◌, ◌≡◌, ◌↔◌, refl, arith, true, some, Option, List, [], ◌∷◌, Bytes, codes, length, starts_with,
  contains, has_dotdot,
}
use secure_ci_coding.Common.{fixed, max_payload_size}
use secure_ci_coding.Config.{Entry, config_get, config_load}
use secure_ci_coding.Config.Lines.{IsWord}
use secure_ci_coding.Config.File.{
  Item, comment, empty, definition, lines_of, value_of, config_get-config_load,
}
use secure_ci_coding.FileHandler.{System, reads, file_retrieve, file_list}
use secure_ci_coding.FileHandler.Listing.{is_shown, IsShown, listing, file_list-listing}

abbrev port : Bytes
port = codes "port"

abbrev eighty : Bytes
eighty = codes "80"

port-IsWord : IsWord port
port-IsWord = record {
  bytes = (
    (refl, omega arith, omega arith),
    (
      (refl, omega arith, omega arith),
      ((refl, omega arith, omega arith), ((refl, omega arith, omega arith), tt)),
    ),
  );
  fits = omega arith;
  some_byte = omega arith;
}

eighty-IsWord : IsWord eighty
eighty-IsWord = record {
  bytes = ((refl, omega arith, omega arith), ((refl, omega arith, omega arith), tt));
  fits = omega arith;
  some_byte = omega arith;
}

-- A comment, two definitions of one key, and an empty line.
abbrev items : List Item
items = comment (codes " server") ∷ definition port eighty ∷ empty ∷ definition port port ∷ []

config_get-config_load_example :
    (loaded : List Entry) × (config_load (some (lines_of items)) [] ≡ some loaded)
    × ((j : Bytes) (default_val : Option Bytes)
        → config_get j default_val loaded ≡ value_of items j (config_get j default_val []))
config_get-config_load_example = config_get-config_load items [] (
  omega arith,
  (
    ((port-IsWord, refl), eighty-IsWord, omega arith),
    (tt, (((port-IsWord, refl), port-IsWord, omega arith), tt)),
  ),
)

-- A system where every call succeeds, every file holds "hello", and paths resolve to themselves.
abbrev willing : System
willing = record {
  realpath = λ p. some p;
  opens = λ p. true;
  fsize = λ p. 5;
  contents = λ p. codes "hello";
  fwrite = λ p n. n;
  malloc = λ n. true;
  unlink = λ p. true;
}

abbrev data_dir : Bytes
data_dir = codes "/data"

retrieved :
    (file_retrieve fixed willing data_dir (codes "a")).effects ≡ reads (codes "/data/a") ∷ []
unfolding file_retrieve has_dotdot contains starts_with
retrieved = refl

dots : has_dotdot (codes "../a") ≡ true
unfolding has_dotdot starts_with
dots = refl

abbrev names : List Bytes
names = codes "." ∷ codes "a1" ∷ codes "b1" ∷ codes "a2" ∷ []

short_listing : length (listing (codes "a") names) < max_payload_size
unfolding starts_with
short_listing = omega arith

file_list-listing_example :
    (file_list (codes "a") (some names) ≡ some (listing (codes "a") names))
    × ((name : Bytes) → (is_shown (codes "a") name ≡ true) ↔ IsShown (codes "a") name)
file_list-listing_example = file_list-listing (codes "a") names short_listing
