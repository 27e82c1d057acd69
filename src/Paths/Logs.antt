-- ===== src/Paths/Logs.antt =====
-- Core/src/mfilesystem.cpp: what GetFilesInDirectory lists and which logs check_logs moves.
use ocserver.Common.{
  ℕ, suc, ◌+◌, ◌-◌, ◌^◌, ◌%◌, ◌≤◌, ◌<◌, ◌≡◌, refl, ap, ◌∙◌, sym, Bool, true, false, ◌&&◌, List, [],
  ◌∷◌, ◌++◌, append_assoc, append-nil, Option, none, some, length, drop, get_elem?, ltb, leb,
  if◌then◌else◌, codes, same, lookup, arith, All, le→not_ltb, take_all, length-drop, length-append,
  get_elem?-append_right,
}
use ocserver.Paths.{Files, ok, ◌>>=◌}
use ocserver.Paths.Names.{get_pathname-found}
use ocserver.Paths.Listing.{
  Stat, Renamed, is_hidden, get_file_size, list_entry, list_entries, get_files_in_directory, suffix,
  moved_log, check_log, check_each, check_logs,
}

-- A path of a usual length.
pub record IsPath (p : List ℕ) : Type 0 where
  pub long : 4 ≤ length p
  pub short : length p < 2 ^ 64

suffix-IsPath : (p : List ℕ) → IsPath p → suffix p ≡ ok (drop (length p - 4) p)
unfolding suffix
suffix-IsPath p h =
    let long = h.long in
    let short = h.short in
    let e : ltb (length p) ((length p + 2 ^ 64 - 4) % 2 ^ 64) ≡ false =
      le→not_ltb _ _ (omega arith) in
    rw e (ap ok (take_all 4 (drop (length p - 4) p) (omega (arith, length-drop (length p - 4) p))))

All-if :
    {A : Type 0} (P : A → Type 0) (b : Bool) (xs ys : List A)
    → All P xs
    → All P ys
    → All P (if b then xs else ys)
All-if P true xs ys h k = h
All-if P false xs ys h k = k

All-stat :
    (o : Option Stat) (full : List ℕ) (rest : List (List ℕ))
    → IsPath full
    → All IsPath rest
    → All IsPath (elim o [ none ↦ rest | some st ↦ if st.dir then rest else full ∷ rest ])
All-stat none full rest h hs = hs
All-stat (some st) full rest h hs = All-if IsPath st.dir rest (full ∷ rest) hs (h, hs)

last_separator :
    (path : List ℕ) → get_elem? (path ++ (b'/' ∷ [])) (length (path ++ (b'/' ∷ [])) - 1) ≡ some b'/'
last_separator path =
    let e : length (path ++ (b'/' ∷ [])) - 1 ≡ length path + 0 =
      omega (arith, length-append path (b'/' ∷ [])) in
    rw e (get_elem?-append_right path (b'/' ∷ []) (length path) 0 refl)

module _ (stat : List ℕ → Option Stat) where
  -- The entry, if it is a regular file that is not hidden, before the others.
  abbrev pub listed_entry : List ℕ → List ℕ → List (List ℕ) → List (List ℕ)
  listed_entry name full rest =
      if is_hidden name
      then rest
      else elim (stat full) [ none ↦ rest | some st ↦ if st.dir then rest else full ∷ rest ]

  abbrev pub listed : List ℕ → List (List ℕ) → List (List ℕ)
  listed directory [] = []
  listed directory (name ∷ names) = listed_entry name (directory ++ name) (listed directory names)

  list_entry-listed_entry :
      (name full : List ℕ) (out rest : List (List ℕ))
      → list_entry stat name full out ++ rest ≡ out ++ listed_entry name full rest
  list_entry-listed_entry name full out rest = ground (arith, append_assoc out (full ∷ []) rest)

  -- In a directory that ends with a separator.
  list_entries-listed :
      (names : List (List ℕ)) (directory : List ℕ) (out : List (List ℕ))
      → get_elem? directory (length directory - 1) ≡ some b'/'
      → list_entries stat names directory out ≡ ok (out ++ listed directory names)
  unfolding list_entries
  list_entries-listed [] directory out e = ap ok (sym (append-nil out))
  list_entries-listed (name ∷ names) directory out e =
      rw (e, list_entries)
        (list_entries-listed names directory (list_entry stat name (directory ++ name) out) e
          ∙ ap ok (list_entry-listed_entry name (directory ++ name) out (listed directory names)))

  abbrev pub large_log : List ℕ → Bool
  large_log p = leb 1000000 (get_file_size stat p) && same (drop (length p - 4) p) (codes ".log")

  abbrev pub renames : (ℕ → List ℕ) → ℕ → List (List ℕ) → List Renamed
  renames times i [] = []
  renames times i (p ∷ ps) =
      let rest = renames times (suc i) ps in
      if large_log p then record { old_path = p; new_path = p ++ (b'.' ∷ times i) } ∷ rest else rest

  check_log-large_log :
      (p tmp : List ℕ) (moved : List Renamed)
      → IsPath p
      → check_log stat p tmp moved
        ≡ ok (
            if large_log p
            then moved ++ (record { old_path = p; new_path = p ++ (b'.' ∷ tmp) } ∷ [])
            else moved)
  unfolding check_log moved_log
  check_log-large_log p tmp moved h = rw (suffix-IsPath p h) (ground arith)

  check_each-renames :
      (times : ℕ → List ℕ) (i : ℕ) (ps : List (List ℕ)) (moved : List Renamed)
      → All IsPath ps
      → check_each stat times i ps moved ≡ ok (moved ++ renames times i ps)
  unfolding check_each
  check_each-renames times i [] moved h = ap ok (sym (append-nil moved))
  check_each-renames times i (p ∷ ps) moved (h, hs) =
      ap (λ r. r >>= λ m. check_each stat times (suc i) ps m)
        (check_log-large_log p (times i) moved h)
      ∙ check_each-renames times (suc i) ps _ hs
      ∙ ground (
        arith,
        append_assoc moved (record { old_path = p; new_path = p ++ (b'.' ∷ times i) } ∷ [])
            (renames times (suc i) ps),
      )

  listed_entry-IsPath :
      (name full : List ℕ) (rest : List (List ℕ))
      → IsPath full
      → All IsPath rest
      → All IsPath (listed_entry name full rest)
  listed_entry-IsPath name full rest h hs =
      All-if IsPath (is_hidden name) rest _ hs (All-stat (stat full) full rest h hs)

  -- Names as readdir gives them, in a directory with a separator, have paths of a usual length.
  listed-IsPath :
      (directory : List ℕ) (names : List (List ℕ))
      → 4 ≤ length directory
      → length directory + 256 < 2 ^ 64
      → All (λ name. length name < 256) names
      → All IsPath (listed directory names)
  listed-IsPath directory [] l u h = tt
  listed-IsPath directory (name ∷ names) l u (h, hs) =
      listed_entry-IsPath name (directory ++ name) (listed directory names)
        (record {
          long = omega (arith, length-append directory name);
          short = omega (arith, length-append directory name);
        })
        (listed-IsPath directory names l u hs)

  -- Files listed in a directory whose name ends with a separator are those that are not hidden,
  -- that stat knows and that are no directories, each with the directory before it and in their order.
  pub get_files_in_directory-listed :
      (path : List ℕ) (names : List (List ℕ))
      → get_files_in_directory stat [] (path ++ (b'/' ∷ [])) (some names)
        ≡ ok (listed (path ++ (b'/' ∷ [])) names)
  unfolding get_files_in_directory
  get_files_in_directory-listed path names =
      list_entries-listed names (path ++ (b'/' ∷ [])) [] (last_separator path)

  -- The logs are moved of the directory that is named logdir, if it is a path with a separator
  -- that can be opened: those that are listed, have 1000000 bytes or more (a size that stat could
  -- not tell counts as such) and end with ".log", in their order, each to its path with a dot and
  -- the time of its turn. No directory's name changes.
  pub check_logs-renames :
      (path : List ℕ) (names : List (List ℕ)) (entries : List ℕ → Option (List (List ℕ)))
      (times : ℕ → List ℕ) (s : Files)
      → lookup (codes "logdir") s.filenames ≡ some (path ++ (b'/' ∷ []))
      → entries (path ++ (b'/' ∷ [])) ≡ some names
      → 3 ≤ length path
      → length path + 257 < 2 ^ 64
      → All (λ name. length name < 256) names
      → check_logs stat entries times s
        ≡ ok (renames times 0 (listed (path ++ (b'/' ∷ [])) names), s)
  unfolding check_logs
  check_logs-renames path names entries times s d e l u h =
      let dir = path ++ (b'/' ∷ []) in
      let long = length-append path (b'/' ∷ []) in
      ap
        (λ r. (get_files_in_directory stat [] r.0 (entries r.0)) >>= λ files.
          check_each stat times 0 files [] >>= λ moved. ok (moved, r.1))
        (get_pathname-found (codes "logdir") dir s d)
      ∙ ap
          (λ o. get_files_in_directory stat [] dir o >>= λ files.
            check_each stat times 0 files [] >>= λ moved. ok (moved, s))
          e
      ∙ ap (λ r. r >>= λ files. check_each stat times 0 files [] >>= λ moved. ok (moved, s))
          (get_files_in_directory-listed path names)
      ∙ ap (λ r. r >>= λ moved. ok (moved, s))
          (check_each-renames times 0 (listed dir names) []
            (listed-IsPath dir names (omega arith) (omega arith) h))
