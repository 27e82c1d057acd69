-- ===== src/Config.antt =====
-- Core/src/config.h and config.cpp: the configuration, and the calls that log and may throw. The library json.hpp,
-- the file system and what strerror prints are arguments.
pub mod Steps
pub mod Saving
pub mod Toy
mod Tests
use ocserver.Common.{ℕ, Bool, true, false, List, [], ◌∷◌, ◌++◌, Option, none, some, codes}
use ocserver.Log.{Log, logged, thrown, debug_message, d_error, d_warning, d_main}

-- What a call leads to: a value, the exception of DebugLog, one of the library, or a null pointer where an
-- object or a method is needed.
pub data Result (A : Type 0) : Type 0 where
  ok : A → Log → Result A
  runtime_error : List ℕ → Log → Result A
  json_error : Log → Result A
  null_pointer : Result A

abbrev pub M : Type 0 → Type 0
M A = Log → Result A

abbrev pub and_then : {A B : Type 0} → Result A → (A → M B) → Result B
and_then (ok a log) f = f a log
and_then (runtime_error e log) f = runtime_error e log
and_then (json_error log) f = json_error log
and_then null_pointer f = null_pointer

infixl 5 ◌>>=◌ ◌>>◌
abbrev pub ◌>>=◌ : {A B : Type 0} → M A → (A → M B) → M B
◌>>=◌ m f log = and_then (m log) f

abbrev pub ◌>>◌ : {A B : Type 0} → M A → M B → M B
m >> k = m >>= λ _. k

abbrev pub pure : {A : Type 0} → A → M A
pure a log = ok a log

-- A value of the library, or its exception.
abbrev pub from_json : {A : Type 0} → Option A → M A
from_json none log = json_error log
from_json (some a) log = ok a log

-- What an object or a method is needed for.
abbrev pub needs : {A : Type 0} → Option A → M A
needs none log = null_pointer
needs (some a) log = ok a log

-- json.hpp: `parse` and `dump` give none for a parse_error and a type_error, `at` is `operator[]` with a key, and
-- `text` and `texts` are the conversions to a string and a vector of strings.
pub record JsonLibrary : Type 1 where
  pub Json : Type 0
  pub null : Json
  pub parse : List ℕ → Option Json
  pub dump : Json → Option (List ℕ)
  pub at : Json → List ℕ → Option Json
  pub text : Json → Option (List ℕ)
  pub texts : Json → Option (List (List ℕ))

pub record Configure (Json : Type 0) : Type 0 where
  pub config_path : List ℕ
  pub js : Json

module _ (now : List ℕ) (frames : List (List ℕ)) where
  -- `DebugLog( lev, cl ) << c1 << c2 ...`
  unfoldable pub report : ℕ → ℕ → List (List ℕ) → M (Unit {0})
  report lev cl chunks log = elim (debug_message now frames lev cl chunks log) [
    | logged s ↦ ok tt s
    | thrown s e ↦ runtime_error e s
  ]

  module _ (library : JsonLibrary) (strerror : List ℕ) where
    open library use {Json, parse}

    -- The constructor: `contents` is what the file holds, if it opens. The handler is for std::domain_error, which
    -- the library's exceptions are not.
    unfoldable pub configure : List ℕ → Option (List ℕ) → M (Configure Json)
    configure path contents = do
      elim contents [
        | none ↦
            report d_error d_main
              ((codes "Error: cannot open configure file: " ++ path ++ codes ": " ++ strerror) ∷ [])
        | some bytes ↦ pure tt
      ]
      js ← from_json (parse (elim contents [ none ↦ [] | some bytes ↦ bytes ]))
      pure (record { config_path = path; js = js })

    -- writeConf: what is written to the file, if it opens, and what the call leads to. The file is emptied
    -- before the text is made.
    unfoldable pub write_conf : Bool → Configure Json → Log → Option (List ℕ) × Result (Unit {0})
    write_conf opens conf log = elim opens [
      | false ↦ (
        none,
        report d_warning d_main
            (codes "Error: cannot open configure file: " ∷ codes ": " ∷ strerror ∷ []) log,
      )
      | true ↦ elim (library.dump conf.js) [
        | none ↦ (some [], json_error log)
        | some s ↦ (some s, ok tt log)
      ]
    ]
