-- ===== src/Args/Start.antt =====
-- src/main.cpp: what main does behind the loop over the arguments, until the signal's handler is set.
use ocserver.Common.{ℕ, Bool, true, false, List, ◌++◌, Option, none, some, if◌then◌else◌, codes}
use ocserver.Paths.{
  Files, Result, get_pathname, ok, runtime_error, out_of_range, null_string, reads_null, ◌>>=◌,
}
use ocserver.Paths.Listing.{Stat, Renamed, check_logs}
use ocserver.Log.{Log, logged, thrown, init}
use ocserver.Args.{Settings}
use ocserver.Common.{◌≡◌, refl, ap, ◌∙◌, sym}

-- What fork tells.
pub data Forked : Type 0 where
  fork_failed in_parent in_child : Forked

-- The program exits with a status, or goes on to start the server, with the logs it moved.
pub data Started : Type 0 where
  exits : ℕ → Started
  starts : Settings → List Renamed → Started

-- `stat`, `entries` and `times` are the file system's and the clock's, `renames` and `file_opens` are
-- whether the log file's rename and open succeed, `setsid_fails` is whether there is no new session.
module _ (stat : List ℕ → Option Stat) (entries : List ℕ → Option (List (List ℕ)))
    (times : ℕ → List ℕ) (now : List ℕ) (frames : List (List ℕ)) (renames file_opens : Bool) where
  abbrev pub check_logs_in : Settings → Result Started
  check_logs_in s = check_logs stat entries times s.files >>= λ moved.
      ok (starts (record s { files = moved.1 }) moved.0)

  -- setupDebug
  abbrev pub setup_debug : List ℕ → Settings → Result Settings
  setup_debug logpath s =
      elim (init now frames logpath (elim (stat logpath) [ none ↦ none | some st ↦ some st.size ])
        renames file_opens s.log) [
          | logged log' ↦ ok (record s { log = log' })
          | thrown log' e ↦ runtime_error
        ]

  abbrev pub set_up : Started → Result Started
  set_up (exits status) = ok (exits status)
  set_up (starts s moved) =
      setup_debug ((get_pathname (codes "logdir") s.files).0 ++ codes "Server.log")
        (record s { files = (get_pathname (codes "logdir") s.files).1 })
      >>= λ s'. ok (starts s' moved)

  -- What main does behind the loop, until the signal's handler is set.
  unfoldable pub start_init : Forked → Bool → Settings → Result Started
  start_init forked setsid_fails s =
      if s.is_daemon
      then elim forked [
        | fork_failed ↦ ok (exits 1)
        | in_parent ↦ ok (exits 0)
        | in_child ↦ if setsid_fails then ok (exits 1) else check_logs_in s
      ]
      else (check_logs_in s >>= set_up)

-- The settings before the loop.
abbrev pub default_settings : Files → Log → Settings
default_settings files log = record {
  is_daemon = false;
  configure_file = codes "config.json";
  port = 9001;
  files = files;
  log = log;
}

-- What a start leaves in the log, or `old`.
abbrev log_of : Log → Result Started → Log
log_of old (ok (starts s moved)) = s.log
log_of old _ = old

moved-log :
    (s : Settings) (r : Result (List Renamed × Files))
    → log_of s.log (r >>= λ moved. ok (starts (record s { files = moved.1 }) moved.0)) ≡ s.log
moved-log s (ok moved) = refl
moved-log s runtime_error = refl
moved-log s out_of_range = refl
moved-log s null_string = refl
moved-log s reads_null = refl

-- In the background the log's file is never opened.
start_init-log :
    (stat : List ℕ → Option Stat) (entries : List ℕ → Option (List (List ℕ))) (times : ℕ → List ℕ)
    (now : List ℕ) (frames : List (List ℕ)) (renames file_opens : Bool) (s s' : Settings)
    (moved : List Renamed)
    → s.is_daemon ≡ true
    → start_init stat entries times now frames renames file_opens in_child false s
      ≡ ok (starts s' moved)
    → s'.log ≡ s.log
unfolding start_init
start_init-log stat entries times now frames renames file_opens s s' moved d e =
    sym (ap (log_of s.log) e)
    ∙ ap
        (λ b. log_of s.log (
          if b
          then check_logs_in stat entries times now frames renames file_opens s
          else (check_logs_in stat entries times now frames renames file_opens s
              >>= set_up stat entries times now frames renames file_opens)))
        d
    ∙ moved-log s (check_logs stat entries times s.files)
