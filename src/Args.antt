-- ===== src/Args.antt =====
-- src/main.cpp: the arguments of the command line, the help text and what main does before the server starts.
-- `atoi`, the directories, the time and the digits that an ostream prints are arguments.
mod Loop
mod Flags
pub mod Start
mod Tests
use ocserver.Common.{
  ℕ, zero, suc, ◌+◌, ◌-◌, ◌^◌, Bool, true, false, not, ◌&&◌, List, [], ◌∷◌, ◌++◌, Option, none,
  some, drop, ltb, leb, ◌==◌, if◌then◌else◌, codes, same,
}
use ocserver.Paths.{
  Files, Result, get_pathname, ok, runtime_error, out_of_range, null_string, reads_null,
  update_pathname, update_datadir, ◌>>=◌, return,
}
use ocserver.Paths.Listing.{Stat, Renamed, check_logs}
use ocserver.Log.{Log, Logged, logged, thrown, set_bit, limit_debug_level, init}

-- What the handlers write; `port` is an int, as the word that holds it.
pub record Settings : Type 0 where
  pub is_daemon : Bool
  pub configure_file : List ℕ
  pub port : ℕ
  pub files : Files
  pub log : Log

-- The handlers of arg_proc.
pub data Handler : Type 0 where
  on_daemon on_config on_port on_log on_userdir on_loglevel : Handler

pub record ArgHandler : Type 0 where
  pub flag : List ℕ
  pub param_documentation : Option (List ℕ)
  pub documentation : List ℕ
  pub handler : Handler

abbrev pub arg_proc : List ArgHandler
arg_proc =
    record {
      flag = codes "--daemon";
      param_documentation = none;
      documentation = codes "Start program in background.";
      handler = on_daemon;
    }
    ∷ record {
      flag = codes "--config";
      param_documentation = some (codes "<path to configure file>");
      documentation =
          codes
            "Import server settings from a configure file. Settings by parameters will override settings from configure file.";
      handler = on_config;
    }
    ∷ record {
      flag = codes "--port";
      param_documentation = some (codes "<port numbers>");
      documentation = codes "Bind specific port. Default to 9001.";
      handler = on_port;
    }
    ∷ record {
      flag = codes "--log";
      param_documentation = some (codes "<string to log file path>");
      documentation =
          codes
            "Specify log file path. Set to NULL to drop all logs. Default to (UserDirectory)/logs/";
      handler = on_log;
    }
    ∷ record {
      flag = codes "--userdir";
      param_documentation = some (codes "<path to userdir>");
      documentation = codes "Specify server (UserDirectory). Default to ($HOME)/.OCServer/";
      handler = on_userdir;
    }
    ∷ record {
      flag = codes "--loglevel";
      param_documentation = some (codes "<level of sever log>");
      documentation =
          codes
            "Set debug levels that should be logged. Available values are 0 to 15. D_ERROR is always logged. D_DEBUG=1, D_INFO=2, D_WARNING=4, D_ERROR=8.";
      handler = on_loglevel;
    }
    ∷ []

-- The first handler with the flag.
unfoldable pub find_handler : List ArgHandler → List ℕ → Option Handler
find_handler [] arg = none
find_handler (h ∷ handlers) arg =
    if same arg h.flag then some h.handler else find_handler handlers arg

-- The text of one argument, and printHelpMessage.
abbrev pub argument_text : ArgHandler → List ℕ
argument_text h =
    h.flag
    ++ elim h.param_documentation [ none ↦ [] | some text ↦ codes " " ++ text ]
    ++ (10 ∷ (9 ∷ h.documentation) ++ (10 ∷ []))

abbrev pub arguments_text : List ArgHandler → List ℕ
arguments_text [] = []
arguments_text (h ∷ handlers) = argument_text h ++ arguments_text handlers

unfoldable pub print_help_message : List ArgHandler → List ℕ
print_help_message handlers =
    codes "Command line paramters:" ++ (10 ∷ []) ++ arguments_text handlers

-- The status that exit_handler ends the program with, on the signal `n`.
abbrev pub exit_handler : ℕ → ℕ
exit_handler n = if n == 2 then 0 else n

-- The loop ends with the help text, or with the settings. If a handler takes more arguments than there are, argc
-- is negative and the loop reads behind the arguments.
pub data Outcome : Type 0 where
  helped : List ℕ → Outcome
  configured : Settings → Outcome
  reads_behind : Outcome

-- `argv += n` and `argc -= n`: none is a negative argc.
abbrev pub skip_args : ℕ → List (List ℕ) → Option (List (List ℕ))
skip_args zero args = some args
skip_args (suc n) [] = none
skip_args (suc n) (arg ∷ args) = skip_args n args

abbrev pub with_args :
    (List (List ℕ) → Option (Result Outcome)) → Option (List (List ℕ)) → Option (Result Outcome)
with_args k none = some (ok reads_behind)
with_args k (some args) = k args

-- An exception ends the loop.
abbrev pub continue :
    Result (ℕ × Settings) → (ℕ × Settings → Option (Result Outcome)) → Option (Result Outcome)
continue (ok consumed) f = f consumed
continue runtime_error f = some runtime_error
continue out_of_range f = some out_of_range
continue null_string f = some null_string
continue reads_null f = some reads_null

-- `opens` and `makes` are the file system's, `frames` what backtrace_symbols names.
module _ (opens makes : List ℕ → Bool) (now : List ℕ) (frames : List (List ℕ)) (atoi : List ℕ → ℕ)
    (decimal : ℕ → List ℕ) where
  abbrev pub level_set : ℕ → Settings → Result (ℕ × Settings)
  level_set bitmask s = elim (limit_debug_level now frames decimal bitmask s.log) [
    | logged log' ↦ ok (1, record s { log = log' })
    | thrown log' e ↦ runtime_error
  ]

  -- The handlers with a parameter, and the number of arguments they take.
  unfoldable pub handle_param : Handler → List ℕ → Settings → Result (ℕ × Settings)
  handle_param on_daemon param s = ok (0, record s { is_daemon = true })
  handle_param on_config param s = ok (1, record s { configure_file = param })
  handle_param on_port param s = ok (1, record s { port = atoi param })
  handle_param on_log param s = do
    files' ← update_pathname (codes "logdir") param s.files
    return (1, record s { files = files' })
  handle_param on_userdir param s = do
    files1 ← update_pathname (codes "userdir") param s.files
    files2 ← update_datadir opens makes files1
    return (1, record s { files = files2 })
  handle_param on_loglevel param s =
      if ltb (atoi param) (2 ^ 31) && leb (atoi param) 15
      then level_set (set_bit 3 (atoi param)) s
      else runtime_error

  -- Behind the last argument is a null pointer: a std::string cannot be made of it, and atoi reads it.
  unfoldable pub handle_null : Handler → Settings → Result (ℕ × Settings)
  handle_null on_daemon s = ok (0, record s { is_daemon = true })
  handle_null on_config s = null_string
  handle_null on_port s = reads_null
  handle_null on_log s = null_string
  handle_null on_userdir s = null_string
  handle_null on_loglevel s = reads_null

  unfoldable pub handle : Handler → List (List ℕ) → Settings → Result (ℕ × Settings)
  unfolding handle_param handle_null
  handle h [] s = handle_null h s
  handle h (param ∷ params) s = handle_param h param s

  -- The loop over the arguments. No handler gives a negative number.
  unfoldable pub parse_args : ℕ → List (List ℕ) → Settings → Option (Result Outcome)
  unfolding handle print_help_message find_handler
  parse_args fuel [] s = some (ok (configured s))
  parse_args zero (arg ∷ args) s = none
  parse_args (suc fuel) (arg ∷ args) s = elim (same arg (codes "--help")) [
    | true ↦ some (ok (helped (print_help_message arg_proc)))
    | false ↦ elim (find_handler arg_proc arg) [
      | none ↦ parse_args fuel args s
      | some h ↦ continue (handle h args s) (λ consumed.
          with_args (λ rest. parse_args fuel rest consumed.1) (skip_args consumed.0 args))
    ]
  ]
