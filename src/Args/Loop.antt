-- ===== src/Args/Loop.antt =====
-- src/main.cpp: the loop over the arguments ends, and consumes no more arguments than there are.
use ocserver.Common.{
  ℕ, zero, suc, ◌≤◌, ◌≡◌, ◌≢◌, refl, ap, subst, ◌∙◌, Bool, true, false, List, [], ◌∷◌, Option, none,
  some, length, drop, length-drop, arith, codes, same, ltb, leb, ◌&&◌, ◌^◌, if◌then◌else◌,
}
use ocserver.Paths.{
  Files, Result, ok, runtime_error, out_of_range, null_string, reads_null, ◌>>=◌, update_pathname,
  update_datadir,
}
use ocserver.Log.{Log, Logged, logged, thrown, set_bit, limit_debug_level}
use ocserver.Args.{
  Settings, Handler, Outcome, arg_proc, find_handler, handle_param, handle_null, handle, parse_args,
  on_daemon, on_config, on_port, on_log, on_userdir, on_loglevel, print_help_message, continue,
  helped, configured, reads_behind, skip_args, with_args,
}

abbrev AtMost : ℕ → Result (ℕ × Settings) → Type 0
AtMost m (ok consumed) = consumed.0 ≤ m
AtMost m runtime_error = Unit
AtMost m out_of_range = Unit
AtMost m null_string = Unit
AtMost m reads_null = Unit

one_file : (r : Result Files) (k : Files → Settings) → AtMost 1 (r >>= λ files'. ok (1, k files'))
one_file (ok f) k = omega arith
one_file runtime_error k = tt
one_file out_of_range k = tt
one_file null_string k = tt
one_file reads_null k = tt

two_files :
    (r : Result Files) (f : Files → Result Files) (k : Files → Settings)
    → AtMost 1 (r >>= λ files1. f files1 >>= λ files2. ok (1, k files2))
two_files (ok a) f k = one_file (f a) k
two_files runtime_error f k = tt
two_files out_of_range f k = tt
two_files null_string f k = tt
two_files reads_null f k = tt

one_level :
    (r : Logged) (k : Log → Settings)
    → AtMost 1 (elim r [ logged l ↦ ok (1, k l) | thrown l e ↦ runtime_error ])
one_level (logged l) k = omega arith
one_level (thrown l e) k = tt

one_if :
    (b : Bool) (r : Result (ℕ × Settings)) → AtMost 1 r → AtMost 1 (if b then r else runtime_error)
one_if true r h = h
one_if false r h = tt

module _ (opens makes : List ℕ → Bool) (now : List ℕ) (frames : List (List ℕ)) (atoi : List ℕ → ℕ)
    (decimal : ℕ → List ℕ) where
  param-AtMost :
      (h : Handler) (param : List ℕ) (s : Settings)
      → AtMost 1 (handle_param opens makes now frames atoi decimal h param s)
  unfolding handle_param
  param-AtMost on_daemon param s = omega arith
  param-AtMost on_config param s = omega arith
  param-AtMost on_port param s = omega arith
  param-AtMost on_log param s = one_file (update_pathname (codes "logdir") param s.files) _
  param-AtMost on_userdir param s =
      two_files (update_pathname (codes "userdir") param s.files) (update_datadir opens makes) _
  param-AtMost on_loglevel param s =
      one_if (ltb (atoi param) (2 ^ 31) && leb (atoi param) 15) _
        (one_level (limit_debug_level now frames decimal (set_bit 3 (atoi param)) s.log) _)

  null-AtMost :
      (h : Handler) (s : Settings) → AtMost 0 (handle_null opens makes now frames atoi decimal h s)
  unfolding handle_null
  null-AtMost on_daemon s = omega arith
  null-AtMost on_config s = tt
  null-AtMost on_port s = tt
  null-AtMost on_log s = tt
  null-AtMost on_userdir s = tt
  null-AtMost on_loglevel s = tt

  more : (m : ℕ) (r : Result (ℕ × Settings)) → AtMost 1 r → AtMost (suc m) r
  more m (ok consumed) h = omega arith
  more m runtime_error h = tt
  more m out_of_range h = tt
  more m null_string h = tt
  more m reads_null h = tt

  handle-AtMost :
      (h : Handler) (args : List (List ℕ)) (s : Settings)
      → AtMost (length args) (handle opens makes now frames atoi decimal h args s)
  unfolding handle
  handle-AtMost h [] s = null-AtMost h s
  handle-AtMost h (param ∷ params) s = more (length params) _ (param-AtMost h param s)

  -- The number of arguments is at most the number of those that are left, so that argc stays nonnegative.
  pub handle_bounded :
      (h : Handler) (args : List (List ℕ)) (s s' : Settings) (n : ℕ)
      → handle opens makes now frames atoi decimal h args s ≡ ok (n, s')
      → n ≤ length args
  unfolding handle
  handle_bounded h args s s' n e = subst (AtMost (length args)) e (handle-AtMost h args s)

  -- There is one result for every fuel that is at least `m`, and it is not that argc became negative.
  abbrev Ends : ℕ → (ℕ → Option (Result Outcome)) → Type 0
  Ends m f =
      (r : Result Outcome) × ((fuel : ℕ) → m ≤ fuel → f fuel ≡ some r) × (r ≢ ok reads_behind)

  now-Ends : (m : ℕ) (r : Result Outcome) → r ≢ ok reads_behind → Ends m (λ fuel. some r)
  now-Ends m r n = (r, (λ fuel h. refl), n)

  -- Arguments that are taken while there are enough.
  skip_args-drop :
      (n : ℕ) (args : List (List ℕ)) → n ≤ length args → skip_args n args ≡ some (drop n args)
  skip_args-drop zero args h = refl
  skip_args-drop (suc n) [] h = absurd (omega arith)
  skip_args-drop (suc n) (arg ∷ args) h = skip_args-drop n args (omega arith)

  -- The turns behind this one.
  abbrev turns : ℕ → List (List ℕ) → ℕ × Settings → Option (Result Outcome)
  turns fuel args consumed =
      with_args (λ rest. parse_args opens makes now frames atoi decimal fuel rest consumed.1)
        (skip_args consumed.0 args)

  abbrev AllEnd : ℕ → List (List ℕ) → Type 0
  AllEnd m args =
      (n : ℕ) (s : Settings)
      → Ends m (λ fuel. parse_args opens makes now frames atoi decimal fuel (drop n args) s)

  handled-Ends :
      (m : ℕ) (args : List (List ℕ)) (r : Result (ℕ × Settings))
      → AtMost (length args) r
      → AllEnd m args
      → Ends m (λ fuel. continue r (turns fuel args))
  handled-Ends m args (ok (n, s)) a k =
      let (r, e, q) = k n s in
      (
        r,
        (λ fuel h.
            ap (with_args (λ rest. parse_args opens makes now frames atoi decimal fuel rest s))
              (skip_args-drop n args a)
            ∙ e fuel h),
        q,
      )
  handled-Ends m args runtime_error a k = now-Ends m runtime_error (λ e. cc)
  handled-Ends m args out_of_range a k = now-Ends m out_of_range (λ e. cc)
  handled-Ends m args null_string a k = now-Ends m null_string (λ e. cc)
  handled-Ends m args reads_null a k = now-Ends m reads_null (λ e. cc)

  found-Ends :
      (m : ℕ) (args : List (List ℕ)) (s : Settings) (o : Option Handler)
      → AllEnd m args
      → Ends m (λ fuel. elim o [
        | none ↦ parse_args opens makes now frames atoi decimal fuel args s
        | some h ↦ continue (handle opens makes now frames atoi decimal h args s) (turns fuel args)
      ])
  found-Ends m args s none k = k 0 s
  found-Ends m args s (some h) k =
      handled-Ends m args (handle opens makes now frames atoi decimal h args s)
        (handle-AtMost h args s) k

  turn-Ends :
      (m : ℕ) (args : List (List ℕ)) (s : Settings) (o : Option Handler) (b : Bool) (text : List ℕ)
      → AllEnd m args
      → Ends m (λ fuel. elim b [
        | true ↦ some (ok (helped text))
        | false ↦ elim o [
          | none ↦ parse_args opens makes now frames atoi decimal fuel args s
          | some h ↦
              continue (handle opens makes now frames atoi decimal h args s) (turns fuel args)
        ]
      ])
  turn-Ends m args s o true text k = now-Ends m (ok (helped text)) (λ e. cc)
  turn-Ends m args s o false text k = found-Ends m args s o k

  -- With one turn more.
  suc-Ends :
      (m : ℕ) (f g : ℕ → Option (Result Outcome))
      → Ends m g
      → ((fuel : ℕ) → f (suc fuel) ≡ g fuel)
      → Ends (suc m) f
  suc-Ends m f g (r, k, n) e = (r, suc_only, n)
    where
      suc_only : (fuel : ℕ) → suc m ≤ fuel → f fuel ≡ some r
      suc_only zero h = absurd (omega arith)
      suc_only (suc fuel) h = e fuel ∙ k fuel (omega arith)

  weaker : (m n : ℕ) (f : ℕ → Option (Result Outcome)) → n ≤ m → Ends n f → Ends m f
  weaker m n f h (r, k, q) = (r, (λ fuel g. k fuel (omega arith)), q)

  within-Ends :
      (b : ℕ) (args : List (List ℕ)) (s : Settings)
      → length args ≤ b
      → Ends (length args) (λ fuel. parse_args opens makes now frames atoi decimal fuel args s)
  unfolding parse_args
  within-Ends b [] s h = now-Ends 0 (ok (configured s)) (λ e. cc)
  within-Ends zero (arg ∷ args) s h = absurd (omega arith)
  within-Ends (suc b) (arg ∷ args) s h =
      suc-Ends (length args) _ _
        (turn-Ends (length args) args s (find_handler arg_proc arg) (same arg (codes "--help"))
          (print_help_message arg_proc)
          (λ n s'.
            weaker (length args) (length (drop n args)) _ (omega (arith, length-drop n args))
              (within-Ends b (drop n args) s' (omega (arith, length-drop n args)))))
        (λ fuel. refl)

  -- The loop ends on any command line, after as many turns as there are arguments at most, and more fuel
  -- changes nothing: there is one result for every fuel that is at least the number of arguments. No
  -- handler takes more arguments than there are: argc never becomes negative, so that the loop does not
  -- read behind the arguments.
  pub parse_args_returns :
      (args : List (List ℕ)) (s : Settings)
      → (r : Result Outcome) × ((fuel : ℕ)
          → length args ≤ fuel
          → parse_args opens makes now frames atoi decimal fuel args s ≡ some r)
        × (r ≢ ok reads_behind)
  parse_args_returns args s = within-Ends (length args) args s (omega arith)
