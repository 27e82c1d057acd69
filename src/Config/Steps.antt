-- ===== src/Config/Steps.antt =====
-- Core/src/config.cpp: calls that log, step by step, and the constructor's two failures.
use ocserver.Common.{ℕ, ◌≡◌, refl, ap, ◌∙◌, false, List, [], ◌∷◌, ◌++◌, none, some, ◌==◌, codes}
use ocserver.Log.{Log, thrown, debug_message, d_error, d_main}
use ocserver.Log.Filter.{debug_message-logged, debug_message-thrown}
use ocserver.Config.{
  M, Result, JsonLibrary, ok, runtime_error, json_error, null_pointer, and_then, from_json, report,
  configure, pure,
}

module _ {A B : Type 0} (m : Result A) where
  -- A step that gives a value, and what follows it.
  pub ran :
      (a : A) (log : Log) (f : A → M B) (x : Result B)
      → m ≡ ok a log
      → f a log ≡ x
      → and_then m f ≡ x
  ran a log f x e h = ap (λ r. and_then r f) e ∙ h

  -- A step that ends all.
  pub threw :
      (e : List ℕ) (log : Log) (f : A → M B)
      → m ≡ runtime_error e log
      → and_then m f ≡ runtime_error e log
  threw e log f h = ap (λ r. and_then r f) h

  pub ended_json : (log : Log) (f : A → M B) → m ≡ json_error log → and_then m f ≡ json_error log
  ended_json log f h = ap (λ r. and_then r f) h

  pub reached_null : (f : A → M B) → m ≡ null_pointer → and_then m f ≡ null_pointer
  reached_null f h = ap (λ r. and_then r f) h

module _ (now : List ℕ) (frames : List (List ℕ)) where
  pub report-ok :
      (lev cl : ℕ) (chunks : List (List ℕ)) (log : Log)
      → (lev == d_error) ≡ false
      → (s : Log) × (report now frames lev cl chunks log ≡ ok tt s)
  unfolding report
  report-ok lev cl chunks log q =
      let (s, p) = debug_message-logged now frames lev cl chunks log q in (s, rw (p, report) refl)

  -- An error's first piece is thrown.
  pub report-throws :
      (cl : ℕ) (v : List ℕ) (chunks : List (List ℕ)) (log : Log)
      → (s : Log) × (report now frames d_error cl (v ∷ chunks) log ≡ runtime_error v s)
  unfolding report
  report-throws cl v chunks log =
      let (s, p) = debug_message-thrown now frames cl v chunks log in (s, rw (p, report) refl)

  module _ (library : JsonLibrary) (strerror : List ℕ) where
    open library use {Json, parse}

    abbrev pub unopened_text : List ℕ → List ℕ
    unopened_text path =
        codes "Error: cannot open configure file: " ++ path ++ codes ": " ++ strerror

    -- With what DebugLog leaves in the log.
    pub configure_unopened :
        (path : List ℕ) (log : Log)
        → (s : Log) × (configure now frames library strerror path none log
            ≡ runtime_error (unopened_text path) s)
          × (debug_message now frames d_error d_main (unopened_text path ∷ []) log
              ≡ thrown s (unopened_text path))
    unfolding configure report
    configure_unopened path log =
        let (s, p) = debug_message-thrown now frames d_main (unopened_text path) [] log in
        (
          s,
          threw (report now frames d_error d_main (unopened_text path ∷ []) log) _ _ _
              (rw (p, report) refl),
          p,
        )

    pub configure_unparsed :
        (path bytes : List ℕ) (log : Log)
        → parse bytes ≡ none
        → configure now frames library strerror path (some bytes) log ≡ json_error log
    unfolding configure
    configure_unparsed path bytes log h =
        ap (λ o. and_then (from_json o log) (λ js. pure (record { config_path = path; js = js }))) h

    pub configure_parsed :
        (path bytes : List ℕ) (js : Json) (log : Log)
        → parse bytes ≡ some js
        → configure now frames library strerror path (some bytes) log
          ≡ ok (record { config_path = path; js = js }) log
    unfolding configure
    configure_parsed path bytes js log h =
        ap (λ o. and_then (from_json o log) (λ js. pure (record { config_path = path; js = js }))) h
