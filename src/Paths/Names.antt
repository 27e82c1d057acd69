-- ===== src/Paths/Names.antt =====
-- Core/src/mfilesystem.cpp: the named directories after they are set.
use ocserver.Common.{
  ℕ, ◌-◌, ◌<◌, ◌≡◌, refl, ap, ◌∙◌, true, List, [], ◌∷◌, ◌++◌, Option, none, some, length, get_elem?,
  if◌then◌else◌, same, lookup, lookup-store, arith, get_elem?_lt,
}
use ocserver.Paths.{
  FileMap, Files, ok, ◌>>=◌, last_char, lacks_separator, with_separator, put, update_pathname,
  index, get_pathname,
}

always_lacks : (ch : ℕ) → lacks_separator ch ≡ true
always_lacks ch = ground arith

last_char-some :
    (path : List ℕ) (c : ℕ) → get_elem? path (length path - 1) ≡ some c → last_char path ≡ ok c
last_char-some path c e = rw (e, last_char) refl

pub last_char-nonempty : (path : List ℕ) → 0 < length path → (c : ℕ) × (last_char path ≡ ok c)
last_char-nonempty path h =
    let (c, e) = get_elem?_lt path (length path - 1) (omega arith) in (c, last_char-some path c e)

with_separator-ok :
    (path : List ℕ) (c : ℕ) → last_char path ≡ ok c → with_separator path ≡ ok (path ++ (b'/' ∷ []))
unfolding with_separator
with_separator-ok path c e =
    ap (λ r. r >>= λ ch. ok (if lacks_separator ch then path ++ (b'/' ∷ []) else path)) e
    ∙ rw (always_lacks c) refl

-- The separator is appended whatever the last character is.
pub with_separator-nonempty :
    (path : List ℕ) → 0 < length path → with_separator path ≡ ok (path ++ (b'/' ∷ []))
with_separator-nonempty path h =
    let (c, e) = last_char-nonempty path h in with_separator-ok path c e

pub lookup-put :
    (j k v : List ℕ) (m : FileMap)
    → lookup j (put k v m) ≡ (if same j k then some v else lookup j m)
unfolding put
lookup-put j k v m = ground (arith, lookup-store j k v m)

pub update_pathname-ok :
    (name path : List ℕ) (s : Files)
    → 0 < length path
    → update_pathname name path s
      ≡ ok (record s { filenames = put name (path ++ (b'/' ∷ [])) s.filenames })
unfolding update_pathname
update_pathname-ok name path s h =
    ap (λ r. r >>= λ path'. ok (record s { filenames = put name path' s.filenames }))
      (with_separator-nonempty path h)

abbrev path_of : Option (List ℕ) → List ℕ
path_of none = []
path_of (some path) = path

index-path_of : (name : List ℕ) (m : FileMap) → (index name m).0 ≡ path_of (lookup name m)
unfolding index
index-path_of name m = ground arith

get_pathname-put :
    (name path other : List ℕ) (s : Files) (made : List (List ℕ))
    → (get_pathname other (record { filenames = put name path s.filenames; made = made })).0
      ≡ (if same other name then path else (get_pathname other s).0)
unfolding get_pathname
get_pathname-put name path other s made =
    index-path_of other (put name path s.filenames)
    ∙ ap path_of (lookup-put other name path s.filenames)
    ∙ ground (arith, index-path_of other s.filenames)

-- A directory's path that is not empty is stored with a separator behind it, also if it ends with one,
-- and get_pathname gives it back; for the other names it gives what it gave before.
pub get_pathname-update_pathname :
    (name path other : List ℕ) (s : Files)
    → 0 < length path
    → (s' : Files) × (update_pathname name path s ≡ ok s')
      × ((get_pathname other s').0
          ≡ (if same other name then path ++ (b'/' ∷ []) else (get_pathname other s).0))
get_pathname-update_pathname name path other s h = (
  record s { filenames = put name (path ++ (b'/' ∷ [])) s.filenames },
  update_pathname-ok name path s h,
  get_pathname-put name (path ++ (b'/' ∷ [])) other s s.made,
)

pub get_pathname-found :
    (name path : List ℕ) (s : Files)
    → lookup name s.filenames ≡ some path
    → get_pathname name s ≡ (path, s)
unfolding get_pathname
get_pathname-found name path s e = rw (e, index) refl
