-- ===== src/Main/Failures.antt =====
-- src/main.cpp: a start without the configuration, and one without the Java machine.
use ocserver.Common.{
  ℕ, arith, ◌≢◌, ◌≡◌, refl, ap, sym, subst, ◌∙◌, Bool, true, false, List, [], ◌∷◌, ◌++◌, Option,
  none, some, ◌==◌, if◌then◌else◌, codes,
}
use ocserver.Log.Filter.{debug_message-logged}
use ocserver.Log.{Log, logged, thrown, debug_message, d_error, d_info, d_main, d_java, d_warning}
use ocserver.Paths.{Files, get_pathname}
use ocserver.Config.{
  M, Result, JsonLibrary, Configure, ok, runtime_error, json_error, null_pointer, and_then,
  from_json, report, configure, pure, ◌>>◌,
}
use ocserver.Config.Steps.{
  ran, threw, ended_json, report-ok, unopened_text, configure_unopened, configure_unparsed,
  configure_parsed, reached_null,
}
use ocserver.Server.Running.{Net}
use ocserver.Java.{
  load_conf, needs_set, Machine, Channel, new_channel, create_jvm, load_services, init_db,
}
use ocserver.Main.{Returns, setting, start_java, serve}

module _ (now : List ℕ) (frames : List (List ℕ)) (name error_string : ℕ → Option (List ℕ))
    (decimal : ℕ → List ℕ) (strerror version base : List ℕ) (library : JsonLibrary)
    (machine : Machine) (contents : List ℕ → Option (List ℕ)) (returns : Returns) where
  open library use {Json, parse, at, text}

  -- The configuration file of a user's directory.
  abbrev pub config_file : Files → List ℕ
  config_file files = (get_pathname (codes "userdir") files).0 ++ codes "config.json"

  -- What the constructor of Configure ends with, in the log `s`: the error is logged if the file does not open.
  abbrev pub IsRefused : List ℕ → Option (List ℕ) → Log → Result (Option (Bool × Net)) → Type 0
  IsRefused path none s r =
      (t : Log) × (debug_message now frames d_error d_main
          (unopened_text now frames library strerror path ∷ []) s
        ≡ thrown t (unopened_text now frames library strerror path))
      × (r ≡ runtime_error (unopened_text now frames library strerror path) t)
  IsRefused path (some bytes) s r = r ≡ json_error s

  abbrev pub json_of : Option (List ℕ) → Option Json
  json_of none = none
  json_of (some bytes) = parse bytes

  refuses :
      (path : List ℕ) (c : Option (List ℕ)) (f : Configure Json → M (Option (Bool × Net)))
      (log : Log)
      → json_of c ≡ none
      → IsRefused path c log (and_then (configure now frames library strerror path c log) f)
  refuses path none f log e =
      let (s, q, p) = configure_unopened now frames library strerror path log in
      (s, p, threw _ _ _ _ q)
  refuses path (some bytes) f log e =
      ended_json _ _ _ (configure_unparsed now frames library strerror path bytes log e)

  configured :
      (path : List ℕ) (c : Option (List ℕ)) (js : Json) (log : Log)
      → json_of c ≡ some js
      → configure now frames library strerror path c log
        ≡ ok (record { config_path = path; js = js }) log
  configured path none js log e = cc
  configured path (some bytes) js log e =
      configure_parsed now frames library strerror path bytes js log e

  -- main logs the version, and nothing else before the configuration. If its file does not open, main logs the
  -- error and ends with the exception of DebugLog; if the file opens and its text cannot be parsed, main
  -- ends with the exception of the library, which the constructor of Configure does not catch. In both cases
  -- the log is left with nothing but these messages, whatever the Java machine, libuv and OpenSSL would
  -- return.
  pub serve_unconfigured :
      (files : Files) (log : Log)
      → json_of (contents (config_file files)) ≡ none
      → (s : Log) × (debug_message now frames d_info d_main (codes "Version: " ∷ version ∷ []) log
          ≡ logged s)
        × IsRefused (config_file files) (contents (config_file files)) s (
            serve now frames name error_string decimal strerror version base library machine
              contents returns files log)
  unfolding serve report
  serve_unconfigured files log e =
      let (s, p) =
        debug_message-logged now frames d_info d_main (codes "Version: " ∷ version ∷ []) log refl in
      let q : report now frames d_info d_main (codes "Version: " ∷ version ∷ []) log ≡ ok tt s =
        rw (p, report) refl in
      (
        s,
        p,
        subst (IsRefused (config_file files) (contents (config_file files)) s)
            (sym (ran _ _ _ _ _ q refl))
            (refuses (config_file files) (contents (config_file files)) _ s e),
      )

  setting_of :
      (key : List ℕ) (conf : Configure Json) (js : Json) (t : List ℕ) (log : Log)
      → at conf.js key ≡ some js
      → text js ≡ some t
      → setting now frames name error_string decimal strerror version base library machine contents
          returns key conf log
        ≡ ok t log
  unfolding setting
  setting_of key conf js t log e h =
      ran _ _ _ _ _ (ap (λ o. from_json o log) e) (ap (λ o. from_json o log) h)

  -- The machine's failure is logged, and the channel stays as it is.
  create_jvm_fails :
      (classpath nlibrary : List ℕ) (conf : Configure Json) (c : Channel) (log : Log)
      → (machine.create_flag == 0) ≡ false
      → (s : Log) × (create_jvm now frames library machine decimal classpath nlibrary conf c log
          ≡ ok c s)
  unfolding create_jvm
  create_jvm_fails classpath nlibrary conf c log e =
      let (s, p) =
        report-ok now frames d_info d_java ((codes "-Djava.class.path=" ++ classpath) ∷ []) log
          refl in
      let (s', p') =
        report-ok now frames d_info d_java ((codes "-Djava.library.path=" ++ nlibrary) ∷ []) s
          refl in
      let (t, q) =
        report-ok now frames d_warning d_java
          (codes "Error creating JVM: " ∷ decimal machine.create_flag ∷ []) s' refl in
      (
        t,
        ran _ _ _ _ _ p (
            ran _ _ _ _ _ p' (
              ap
                (λ b.
                  (if b
                      then (report now frames d_info d_java (codes "JVM loaded successfully." ∷ [])
                          >> load_conf now frames library machine decimal conf
                              (record c { env = true; jvm = true; util = true }))
                      else (report now frames d_warning d_java
                            (codes "Error creating JVM: " ∷ decimal machine.create_flag ∷ [])
                          >> pure c))
                    s')
                e
              ∙ ran _ _ _ _ _ q refl)),
      )

  load_services_none :
      (log : Log)
      → (any : Bool) × (c : Channel) × (load_services now frames library machine decimal base
            new_channel log
          ≡ ok (any, c) log)
        × (c.env ≡ false)
  unfolding load_services
  load_services_none log = (_, _, refl, refl)

  -- InitDB on a channel without a machine.
  init_db_null :
      (addr uname pwd : List ℕ) (c : Channel) (log : Log)
      → c.env ≡ false
      → init_db now frames library machine decimal addr uname pwd c log ≡ null_pointer
  unfolding init_db
  init_db_null addr uname pwd c log e = reached_null _ _ (ap (λ b. needs_set b log) e)

  -- If the Java machine cannot be created, main goes on and calls a method through a null pointer, in InitDB:
  -- the server is not started. Conditions: the configuration is read, and its three settings of the data
  -- base are texts.
  pub serve_without_machine :
      (files : Files) (log : Log) (js : Json) (addr username password : Json)
      (addr_text username_text password_text : List ℕ)
      → json_of (contents (config_file files)) ≡ some js
      → at js (codes "db_addr") ≡ some addr
      → at js (codes "db_username") ≡ some username
      → at js (codes "db_password") ≡ some password
      → text addr ≡ some addr_text
      → text username ≡ some username_text
      → text password ≡ some password_text
      → machine.create_flag ≢ 0
      → serve now frames name error_string decimal strerror version base library machine contents
          returns files log
        ≡ null_pointer
  unfolding serve start_java
  serve_without_machine files log js addr username password ta tu tp e ea eu ep ra ru rp h =
      let conf : Configure Json = record { config_path = config_file files; js = js } in
      let (s, p) = report-ok now frames d_info d_main (codes "Version: " ∷ version ∷ []) log refl in
      let failed : (machine.create_flag == 0) ≡ false = ground (arith, h) in
      let (t, made) = create_jvm_fails _ _ conf new_channel s failed in
      let (any, after, loaded, off) = load_services_none t in
      ran _ _ _ _ _ p (
        ran _ _ _ _ _ (configured (config_file files) (contents (config_file files)) js s e) (
          reached_null _ _ (
            ran _ _ _ _ _ made (
              ran _ _ _ _ _ loaded (
                ran _ _ _ _ _ (setting_of (codes "db_addr") conf addr ta t ea ra) (
                  ran _ _ _ _ _ (setting_of (codes "db_username") conf username tu t eu ru) (
                    ran _ _ _ _ _ (setting_of (codes "db_password") conf password tp t ep rp)
                      (reached_null _ _ (init_db_null ta tu tp after t off)))))))))
