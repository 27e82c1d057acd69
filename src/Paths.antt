-- ===== src/Paths.antt =====
-- Core/src/mfilesystem.cpp, namespace PATH_CLASS, as it is compiled on Linux: the named directories, the
-- listing of a directory and the moving of large logs. The operating system is the environment: what
-- `getcwd`, `getenv`, `opendir`, `mkdir`, `readdir` and `stat` answer are arguments.
pub mod Names
pub mod Startup
pub mod Listing
mod Logs
mod Tests
use ocserver.Common.{
  ℕ, zero, suc, ◌+◌, ◌-◌, ◌^◌, Bool, true, false, not, ◌&&◌, ◌||◌, List, [], ◌∷◌, ◌++◌, Option,
  none, some, length, take, drop, get_elem?, ltb, leb, ◌==◌, if◌then◌else◌, codes, same, lookup,
  store,
}

-- FILENAMES, a `std::map`.
abbrev pub FileMap : Type 0
FileMap = List (List ℕ × List ℕ)

-- The map, and the directories that `mkdir` was asked to make, the last one first.
pub record Files : Type 0 where
  pub filenames : FileMap
  pub made : List (List ℕ)

-- What a call leads to: an exception, a string made of a null pointer, or a `readdir` of one.
pub data Result {ℓ} (A : Type ℓ) : Type ℓ where
  ok : A → Result A
  runtime_error out_of_range null_string reads_null : Result A

infixl 5 ◌>>=◌
abbrev pub ◌>>=◌ {ℓ κ} : {A : Type ℓ} {B : Type κ} → Result A → (A → Result B) → Result B
ok a >>= f = f a
runtime_error >>= f = runtime_error
out_of_range >>= f = out_of_range
null_string >>= f = null_string
reads_null >>= f = reads_null

abbrev pub return {ℓ} : {A : Type ℓ} → A → Result A
return a = ok a

-- `path.at( path.length() - 1 )`, where the length of an empty path wraps around.
abbrev pub last_char : List ℕ → Result ℕ
last_char path = elim (get_elem? path (length path - 1)) [ none ↦ out_of_range | some c ↦ ok c ]

-- `ch != '/' || ch != '\\'`
abbrev pub lacks_separator : ℕ → Bool
lacks_separator ch = not (ch == b'/') || not (ch == 92)

unfoldable pub with_separator : List ℕ → Result (List ℕ)
with_separator path = do
  ch ← last_char path
  return (if lacks_separator ch then path ++ (b'/' ∷ []) else path)

-- `FILENAMES.find`, and then an assignment or an insertion.
unfoldable pub put : List ℕ → List ℕ → FileMap → FileMap
put name path m = elim (lookup name m) [ some old ↦ store name path m | none ↦ (name, path) ∷ m ]

unfoldable pub update_pathname : List ℕ → List ℕ → Files → Result Files
unfolding with_separator put
update_pathname name path s = do
  path' ← with_separator path
  return (record s { filenames = put name path' s.filenames })

-- `FILENAMES[name]`, which stores an empty path if there is none.
unfoldable pub index : List ℕ → FileMap → List ℕ × FileMap
index name m = elim (lookup name m) [ some path ↦ (path, m) | none ↦ ([], store name [] m) ]

unfoldable pub get_pathname : List ℕ → Files → List ℕ × Files
unfolding index
get_pathname name s =
    ((index name s.filenames).0, record s { filenames = (index name s.filenames).1 })

-- `std::string( ud )`, or the directory in HOME if that is empty.
unfoldable pub user_dir : List ℕ → Option (List ℕ) → Result (List ℕ)
user_dir [] none = null_string
user_dir [] (some home) = ok (home ++ codes "/.OCServer/")
user_dir (c ∷ cs) home = ok (c ∷ cs)

-- `opens` is whether `opendir` succeeds, `makes` whether `mkdir` does.
module _ (opens makes : List ℕ → Bool) where
  unfoldable pub assure_dir_exist : List ℕ → Files → Bool × Files
  assure_dir_exist path s =
      if opens path then (true, s) else (makes path, record s { made = path ∷ s.made })

  unfoldable pub init_user_dir : List ℕ → Option (List ℕ) → Option (List ℕ) → Files → Result Files
  unfolding with_separator user_dir assure_dir_exist
  init_user_dir ud none home s = runtime_error
  init_user_dir ud (some cwd) home s = do
    bdir ← with_separator cwd
    udir ← user_dir ud home
    return (record (assure_dir_exist udir s).1 {
      filenames = store (codes "userdir") udir (store (codes "basedir") bdir s.filenames);
    })

  -- A directory below the path of a named one: made if it is missing, and named.
  unfoldable pub update_found : List ℕ → List ℕ → List ℕ × Files → Result Files
  unfolding assure_dir_exist update_pathname
  update_found below name (path, s) =
      update_pathname name (path ++ below) (assure_dir_exist (path ++ below) s).1

  unfoldable pub update_below : List ℕ → List ℕ → List ℕ → Files → Result Files
  unfolding get_pathname update_found
  update_below base below name s = update_found below name (get_pathname base s)

  unfoldable pub update_datadir : Files → Result Files
  unfolding update_below
  update_datadir s = do
    s1 ← update_below (codes "basedir") (codes "modules") (codes "librarydir") s
    s2 ← update_below (codes "userdir") (codes "logs") (codes "logdir") s1
    update_below (codes "basedir") (codes "Java") (codes "javadir") s2
