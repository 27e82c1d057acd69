-- ===== src/Args/Tests.antt =====
-- Command lines.
use ocserver.Common.{ℕ, ◌≤◌, ◌≡◌, ◌≢◌, refl, Bool, false, List, [], ◌∷◌, some, codes, arith}
use ocserver.Paths.{Result, ok, null_string, reads_null}
use ocserver.Paths.Startup.{AreNamed}
use ocserver.Log.{Log}
use ocserver.Args.{Settings, Outcome, reads_behind, handle, parse_args, on_port}
use ocserver.Args.Start.{default_settings}
use ocserver.Args.Loop.{handle_bounded, parse_args_returns}
use ocserver.Args.Flags.{parse_args-userdir, parse_args_missing}

abbrev nothing : List ℕ → Bool
nothing path = false

abbrev digits_value : List ℕ → ℕ
digits_value [] = 0
digits_value (c ∷ cs) = c

abbrev digits : ℕ → List ℕ
digits n = n ∷ []

abbrev quiet_log : Log
quiet_log = record {
  debug_level = 8;
  debug_class = 63;
  dir = 0;
  file_open = false;
  file = [];
  cout = [];
  cerr = [];
}

abbrev srv_names : List (List ℕ × List ℕ)
srv_names =
    (codes "basedir", codes "/srv/")
    ∷ (codes "userdir", codes "/root/")
    ∷ (codes "librarydir", codes "/srv/modules/")
    ∷ (codes "logdir", codes "/root/logs/")
    ∷ (codes "javadir", codes "/srv/Java/")
    ∷ []

abbrev srv : Settings
srv = default_settings (record { filenames = srv_names; made = [] }) quiet_log

srv-AreNamed : AreNamed (codes "/srv/") (codes "/root/") srv_names
srv-AreNamed = record {
  basedir = refl;
  userdir = refl;
  librarydir = refl;
  logdir = refl;
  javadir = refl;
}

handle_bounded_run : 1 ≤ 2
unfolding handle
handle_bounded_run =
    handle_bounded nothing nothing [] [] digits_value digits on_port
      (codes "7" ∷ codes "--daemon" ∷ []) srv (record srv { port = b'7' }) 1 refl

parse_args_returns_example :
    (r : Result Outcome) × ((fuel : ℕ)
      → 3 ≤ fuel
      → parse_args nothing nothing [] [] digits_value digits fuel
          (codes "--port" ∷ codes "9" ∷ codes "--daemon" ∷ [])
          srv
        ≡ some r)
    × (r ≢ ok reads_behind)
parse_args_returns_example =
    parse_args_returns nothing nothing [] [] digits_value digits
      (codes "--port" ∷ codes "9" ∷ codes "--daemon" ∷ []) srv

parse_args-userdir_run :
    (s' : Settings) × (parse_args nothing nothing [] [] digits_value digits 3
        (codes "--userdir" ∷ codes "/data" ∷ codes "--daemon" ∷ [])
        srv
      ≡ parse_args nothing nothing [] [] digits_value digits 2 (codes "--daemon" ∷ []) s')
    × AreNamed (codes "/srv/") (codes "/data/") s'.files.filenames
parse_args-userdir_run =
    parse_args-userdir nothing nothing [] [] digits_value digits (codes "/srv/") (codes "/root/")
      (codes "/data") (codes "--daemon" ∷ []) 2 srv (omega arith) srv-AreNamed

parse_args_missing_run :
    (parse_args nothing nothing [] [] digits_value digits 1 (codes "--config" ∷ []) srv
      ≡ some null_string)
    × (parse_args nothing nothing [] [] digits_value digits 1 (codes "--port" ∷ []) srv
        ≡ some reads_null)
    × (parse_args nothing nothing [] [] digits_value digits 1 (codes "--log" ∷ []) srv
        ≡ some null_string)
    × (parse_args nothing nothing [] [] digits_value digits 1 (codes "--userdir" ∷ []) srv
        ≡ some null_string)
    × (parse_args nothing nothing [] [] digits_value digits 1 (codes "--loglevel" ∷ []) srv
        ≡ some reads_null)
parse_args_missing_run = parse_args_missing nothing nothing [] [] digits_value digits 0 srv
