-- ===== src/Paths/Tests.antt =====
-- Paths and logs on concrete directories.
use ocserver.Common.{
  ℕ, ◌≡◌, refl, Bool, true, false, List, [], ◌∷◌, Option, none, some, codes, arith, if◌then◌else◌,
  same,
}
use ocserver.Paths.{Files, ok, ◌>>=◌, update_pathname, get_pathname, init_user_dir, update_datadir}
use ocserver.Paths.Names.{get_pathname-update_pathname}
use ocserver.Paths.Startup.{AreNamed, startup-AreNamed}
use ocserver.Paths.Listing.{Stat, check_logs}
use ocserver.Paths.Logs.{check_logs-renames}

abbrev no_files : Files
no_files = record { filenames = []; made = [] }

abbrev nothing : List ℕ → Bool
nothing path = false

-- A path that ends with a separator gets another.
get_pathname-update_pathname_run :
    (s' : Files) × (update_pathname (codes "logdir") (codes "/tmp/") no_files ≡ ok s')
    × ((get_pathname (codes "logdir") s').0 ≡ codes "/tmp//")
get_pathname-update_pathname_run =
    get_pathname-update_pathname (codes "logdir") (codes "/tmp/") (codes "logdir") no_files
      (omega arith)

startup-AreNamed_example :
    (s' : Files) × ((init_user_dir nothing nothing []
          (some (codes "/srv"))
          (some (codes "/root"))
          no_files
        >>= update_datadir nothing nothing)
      ≡ ok s')
    × AreNamed (codes "/srv/") (codes "/root/.OCServer/") s'.filenames
startup-AreNamed_example =
    startup-AreNamed nothing nothing [] (codes "/srv") (codes "/root") no_files (omega arith)

-- A directory with a large log, a small one, a hidden one and a directory.
abbrev stat_of : List ℕ → Option Stat
stat_of path =
    if same path (codes "/log/a.log")
    then some (record { dir = false; size = 1000000 })
    else if same path (codes "/log/b.log")
    then some (record { dir = false; size = 999999 })
    else if same path (codes "/log/c")
    then some (record { dir = true; size = 4096 })
    else none

abbrev entries_of : List ℕ → Option (List (List ℕ))
entries_of path = some (codes "." ∷ codes "a.log" ∷ codes "b.log" ∷ codes "c" ∷ [])

abbrev now : ℕ → List ℕ
now turn = codes "20180501120000"

abbrev log_files : Files
log_files = record { filenames = (codes "logdir", codes "/log/") ∷ []; made = [] }

check_logs-renames_example :
    check_logs stat_of entries_of now log_files
    ≡ ok (
      record { old_path = codes "/log/a.log"; new_path = codes "/log/a.log.20180501120000" } ∷ [],
      log_files,
    )
check_logs-renames_example =
    check_logs-renames stat_of (codes "/log")
      (codes "." ∷ codes "a.log" ∷ codes "b.log" ∷ codes "c" ∷ []) entries_of now log_files refl
      refl (omega arith) (omega arith)
      (omega arith, (omega arith, (omega arith, (omega arith, tt))))
