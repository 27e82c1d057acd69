-- ===== src/Config/Toy.antt =====
-- Core/src/config.cpp: a small library of texts and of tables of texts, for concrete runs, and a log that takes nothing.
use ocserver.Common.{
  ℕ, false, List, [], ◌∷◌, Option, none, some, ◌==◌, if◌then◌else◌, codes, lookup,
}
use ocserver.Log.{Log}
use ocserver.Config.{JsonLibrary}

abbrev pub quiet : Log
quiet = record {
  debug_level = 0;
  debug_class = 0;
  dir = 0;
  file_open = false;
  file = [];
  cout = [];
  cerr = [];
}

pub data Toy : Type 0 where
  word : List ℕ → Toy
  table : List (List ℕ × List ℕ) → Toy

abbrev pub settings : Toy
settings = table (
    (codes "db_addr", codes "localhost")
    ∷ (codes "db_username", codes "oc")
    ∷ (codes "db_password", codes "pw")
    ∷ [])

abbrev or_empty : Option (List ℕ) → Toy
or_empty none = word []
or_empty (some t) = word t

abbrev parse_toy : List ℕ → Option Toy
parse_toy [] = none
parse_toy (b ∷ t) = if b == b'"' then some (word t) else if b == b'{' then some settings else none

abbrev dump_toy : Toy → Option (List ℕ)
dump_toy (word t) = some (b'"' ∷ t)
dump_toy (table m) = none

abbrev at_toy : Toy → List ℕ → Option Toy
at_toy (word t) k = none
at_toy (table m) k = some (or_empty (lookup k m))

abbrev text_toy : Toy → Option (List ℕ)
text_toy (word t) = some t
text_toy (table m) = none

abbrev pub toy_library : JsonLibrary
toy_library = record {
  Json = Toy;
  null = word [];
  parse = parse_toy;
  dump = dump_toy;
  at = at_toy;
  text = text_toy;
  texts = λ js. none;
}
