-- ===== src/Java/Bridge.antt =====
-- Core/src/jni.cpp: the native methods of JNInterface.java.
use ocserver.Common.{
  ℕ, Bool, true, false, List, [], ◌∷◌, Option, none, some, ◌==◌, if◌then◌else◌, codes, lookup,
}
use ocserver.Log.{Log, Logged, logged, tagged_message}
use ocserver.Paths.{FileMap}
use ocserver.Proto.Stream.{Result, ok, proto_error, length_error}
use ocserver.Proto.Display.{Printers, do_display}
use ocserver.Java.{str_to_jstr, jstr_to_str, jarr_to_str}

-- The names of android.util.Log's priorities.
unfoldable pub priority_text : ℕ → Option (List ℕ)
priority_text priority =
    if priority == 2
    then some (codes "VERBOSE")
    else if priority == 3
    then some (codes "DEBUG")
    else if priority == 4
    then some (codes "INFO")
    else if priority == 5
    then some (codes "WARN")
    else if priority == 6
    then some (codes "ERROR")
    else if priority == 7
    then some (codes "ASSERT")
    else none

-- println returns 0.
unfoldable pub println : List ℕ → List (List ℕ) → ℕ → List ℕ → List ℕ → Log → Logged
println now frames priority tag msg log = elim (priority_text priority) [
  | none ↦ logged log
  | some name ↦ tagged_message now frames name (jstr_to_str tag) (jstr_to_str msg ∷ []) log
]

-- loadConf: whether there is a configuration.
unfoldable pub load_conf : Bool → Bool
load_conf conf = if conf then true else false

abbrev pub as_jstr : Option (List ℕ) → Option (List ℕ)
as_jstr none = none
as_jstr (some path) = some (str_to_jstr path)

-- getPath: none is the null reference.
unfoldable pub get_path : List ℕ → FileMap → Option (List ℕ)
get_path key filenames = as_jstr (lookup (jstr_to_str key) filenames)

-- getAllPaths: what is put into the Java map, in order.
unfoldable pub get_all_paths : FileMap → List (List ℕ × List ℕ)
get_all_paths [] = []
get_all_paths ((name, path) ∷ m) = (str_to_jstr name, str_to_jstr path) ∷ get_all_paths m

unfoldable pub do_transact : Bool
do_transact = false

-- What displayProto leads to: none for a loop that does not end within the fuel. An exception leaves the native
-- method.
pub data Displayed : Type 0 where
  shown : Option (List ℕ) → Displayed
  throws : Displayed

abbrev shown_text : Result (Option (List ℕ)) → Displayed
shown_text (ok none s) = shown none
shown_text (ok (some output) s) = shown (some (str_to_jstr output))
shown_text (proto_error s) = throws
shown_text length_error = throws

-- displayProto of the bytes of an array, with the members of a new ProtoDisplay; `u` is what an uninitialised
-- `char` holds.
unfoldable pub display_proto : ℕ → Printers → ℕ → List ℕ → Displayed
display_proto u printers fuel d =
    let bytes = jarr_to_str d in
    shown_text (
      do_display u printers fuel (record { is_simple = false; b_sep = true; level = 0 })
        (record { whole = bytes; pos = 0; ahead = bytes; good = true; overrun = false }))
