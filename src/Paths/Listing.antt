-- ===== src/Paths/Listing.antt =====
-- Core/src/mfilesystem.cpp: GetFilesInDirectory, check_logs and the queries they use, as compiled on Linux.
use ocserver.Common.{
  ℕ, suc, ◌+◌, ◌-◌, ◌%◌, ◌^◌, Bool, true, false, List, [], ◌∷◌, ◌++◌, Option, none, some, length,
  take, drop, get_elem?, ltb, leb, ◌==◌, if◌then◌else◌, codes, same,
}
use ocserver.Paths.{
  Files, Result, ok, runtime_error, out_of_range, reads_null, ◌>>=◌, return, get_pathname,
}

-- What `stat` fills in.
pub record Stat : Type 0 where
  pub dir : Bool
  pub size : ℕ

-- `dirent::d_type`.
pub data EntryType : Type 0 where
  dt_dir dt_unknown dt_other : EntryType

pub record Renamed : Type 0 where
  pub old_path : List ℕ
  pub new_path : List ℕ

abbrev pub full_file_name : List ℕ → ℕ → List ℕ → List ℕ
full_file_name directory ch file_name =
    if ch == b'/' then directory ++ file_name else directory ++ (b'/' ∷ file_name)

-- `file_name[0] == '.'`, where the character behind an empty name is a zero.
abbrev pub is_hidden : List ℕ → Bool
is_hidden [] = false
is_hidden (c ∷ cs) = c == b'.'

-- `s_path.substr( s_path.length() - 4, 4 )`, where the subtraction wraps around.
unfoldable pub suffix : List ℕ → Result (List ℕ)
suffix s_path =
    if ltb (length s_path) ((length s_path + 2 ^ 64 - 4) % 2 ^ 64)
    then out_of_range
    else ok (take 4 (drop (length s_path - 4) s_path))

unfoldable pub moved_log : List ℕ → List ℕ → List Renamed → List ℕ → List Renamed
moved_log s_path tmp moved last =
    if same last (codes ".log")
    then moved ++ (record { old_path = s_path; new_path = s_path ++ (b'.' ∷ tmp) } ∷ [])
    else moved

-- `stat` is what the system call of that name answers, none for an error.
module _ (stat : List ℕ → Option Stat) where
  abbrev pub get_file_size : List ℕ → ℕ
  get_file_size path = elim (stat path) [ none ↦ 2 ^ 64 - 1 | some st ↦ st.size ]

  unfoldable pub is_directory_stat : List ℕ → Result Bool
  is_directory_stat full_path = elim (stat full_path) [ none ↦ runtime_error | some st ↦ ok st.dir ]

  unfoldable pub is_directory : EntryType → List ℕ → Result Bool
  unfolding is_directory_stat
  is_directory dt_dir full_path = ok true
  is_directory dt_unknown full_path = is_directory_stat full_path
  is_directory dt_other full_path = ok false

  -- The body of the loop, behind the name's construction.
  abbrev pub list_entry : List ℕ → List ℕ → List (List ℕ) → List (List ℕ)
  list_entry file_name full out =
      if is_hidden file_name
      then out
      else elim (stat full) [ none ↦ out | some st ↦ if st.dir then out else out ++ (full ∷ []) ]

  unfoldable pub list_entries : List (List ℕ) → List ℕ → List (List ℕ) → Result (List (List ℕ))
  list_entries [] directory out = ok out
  list_entries (file_name ∷ names) directory out =
      elim (get_elem? directory (length directory - 1)) [
        | none ↦ out_of_range
        | some ch ↦
            list_entries names directory
              (list_entry file_name (full_file_name directory ch file_name) out)
      ]

  -- `entries` is none if `opendir` fails.
  unfoldable pub get_files_in_directory :
      List (List ℕ) → List ℕ → Option (List (List ℕ)) → Result (List (List ℕ))
  unfolding list_entries
  get_files_in_directory out directory none = reads_null
  get_files_in_directory out directory (some entries) = list_entries entries directory out

  -- One turn of the loop, with the time as text, and the names that `rename` was given.
  unfoldable pub check_log : List ℕ → List ℕ → List Renamed → Result (List Renamed)
  unfolding suffix moved_log
  check_log s_path tmp moved =
      if leb 1000000 (get_file_size s_path)
      then (suffix s_path >>= λ last. ok (moved_log s_path tmp moved last))
      else ok moved

  -- `times` is the time at each turn.
  unfoldable pub check_each :
      (ℕ → List ℕ) → ℕ → List (List ℕ) → List Renamed → Result (List Renamed)
  unfolding check_log
  check_each times i [] moved = ok moved
  check_each times i (s_path ∷ files) moved = do
    moved' ← check_log s_path (times i) moved
    check_each times (suc i) files moved'

  unfoldable pub check_logs :
      (List ℕ → Option (List (List ℕ))) → (ℕ → List ℕ) → Files → Result (List Renamed × Files)
  unfolding get_pathname get_files_in_directory check_each
  check_logs entries times s = do
    files ←
        get_files_in_directory [] (get_pathname (codes "logdir") s).0
          (entries (get_pathname (codes "logdir") s).0)
    moved ← check_each times 0 files []
    return (moved, (get_pathname (codes "logdir") s).1)
