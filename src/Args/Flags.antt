-- ===== src/Args/Flags.antt =====
-- src/main.cpp: what the flags with a parameter do, with the parameter and without.
use ocserver.Common.{
  ℕ, suc, ◌≡◌, ◌<◌, refl, ap, ◌∙◌, Bool, List, [], ◌∷◌, ◌++◌, some, length, codes,
}
use ocserver.Paths.{ok, null_string, reads_null, ◌>>=◌, update_datadir, put}
use ocserver.Paths.Names.{lookup-put, update_pathname-ok}
use ocserver.Paths.Startup.{AreNamed, update_datadir-AreNamed}
use ocserver.Args.{Settings, handle_param, parse_args, on_userdir, continue, with_args, skip_args}

module _ (opens makes : List ℕ → Bool) (now : List ℕ) (frames : List (List ℕ)) (atoi : List ℕ → ℕ)
    (decimal : ℕ → List ℕ) where
  turn :
      (param : List ℕ) (args : List (List ℕ)) (fuel : ℕ) (s : Settings)
      → parse_args opens makes now frames atoi decimal
          (suc fuel)
          (codes "--userdir" ∷ param ∷ args)
          s
        ≡ continue
            (handle_param opens makes now frames atoi decimal on_userdir param s)
            (λ consumed.
              with_args
                (λ rest. parse_args opens makes now frames atoi decimal fuel rest consumed.1)
                (skip_args consumed.0 (param ∷ args)))
  unfolding parse_args
  turn param args fuel s = refl

  userdir-files :
      (base user param : List ℕ) (s : Settings)
      → 0 < length param
      → AreNamed base user s.files.filenames
      → (s' : Settings) × (handle_param opens makes now frames atoi decimal on_userdir param s
          ≡ ok (1, s'))
        × AreNamed base (param ++ (b'/' ∷ [])) s'.files.filenames
  unfolding handle_param
  userdir-files base user param s h n =
      let named = param ++ (b'/' ∷ []) in
      let f1 = record s.files { filenames = put (codes "userdir") named s.files.filenames } in
      let (f2, r, m) =
        update_datadir-AreNamed opens makes base named f1
          (lookup-put (codes "basedir") (codes "userdir") named s.files.filenames ∙ n.basedir)
          (lookup-put (codes "userdir") (codes "userdir") named s.files.filenames) in
      (
        record s { files = f2 },
        ap (λ r. r >>= λ f. update_datadir opens makes f >>= λ f'. ok (1, record s { files = f' }))
              (update_pathname-ok (codes "userdir") param s.files h)
            ∙ ap (λ r. r >>= λ f'. ok (1, record s { files = f' })) r,
        m,
      )

  -- With "--userdir" and a path that is not empty, the loop goes on behind both, with the directories
  -- named after the path (with a separator behind it) in place of the user's directory that they were
  -- named after before.
  pub parse_args-userdir :
      (base user param : List ℕ) (args : List (List ℕ)) (fuel : ℕ) (s : Settings)
      → 0 < length param
      → AreNamed base user s.files.filenames
      → (s' : Settings) × (parse_args opens makes now frames atoi decimal
            (suc fuel)
            (codes "--userdir" ∷ param ∷ args)
            s
          ≡ parse_args opens makes now frames atoi decimal fuel args s')
        × AreNamed base (param ++ (b'/' ∷ [])) s'.files.filenames
  parse_args-userdir base user param args fuel s h n =
      let (s', r, m) = userdir-files base user param s h n in
      (
        s',
        turn param args fuel s
            ∙ ap
                (λ r. continue r (λ consumed.
                  with_args
                    (λ rest. parse_args opens makes now frames atoi decimal fuel rest consumed.1)
                    (skip_args consumed.0 (param ∷ args))))
                r,
        m,
      )

  -- A flag that wants a parameter, as the last argument: main ends with an exception, or reads a null pointer.
  pub parse_args_missing :
      (fuel : ℕ) (s : Settings)
      → (parse_args opens makes now frames atoi decimal (suc fuel) (codes "--config" ∷ []) s
          ≡ some null_string)
        × (parse_args opens makes now frames atoi decimal (suc fuel) (codes "--port" ∷ []) s
            ≡ some reads_null)
        × (parse_args opens makes now frames atoi decimal (suc fuel) (codes "--log" ∷ []) s
            ≡ some null_string)
        × (parse_args opens makes now frames atoi decimal (suc fuel) (codes "--userdir" ∷ []) s
            ≡ some null_string)
        × (parse_args opens makes now frames atoi decimal (suc fuel) (codes "--loglevel" ∷ []) s
            ≡ some reads_null)
  unfolding parse_args
  parse_args_missing fuel s = (refl, refl, refl, refl, refl)
