-- ===== src/Paths/Startup.antt =====
-- Core/src/mfilesystem.cpp: the directories that init_user_dir and update_datadir name at the start.
use ocserver.Common.{
  ℕ, ◌<◌, ◌≡◌, refl, ap, ◌∙◌, Bool, List, [], ◌∷◌, ◌++◌, some, length, if◌then◌else◌, codes, same,
  lookup, store, lookup-store, arith, append_assoc, length-append,
}
use ocserver.Paths.{
  FileMap, Files, ok, ◌>>=◌, put, assure_dir_exist, user_dir, init_user_dir, update_found,
  update_below, update_datadir,
}
use ocserver.Paths.Names.{
  with_separator-nonempty, lookup-put, update_pathname-ok, get_pathname-found,
}

-- What the program's directories are, given the base and the user's directory.
pub record AreNamed (base user : List ℕ) (m : FileMap) : Type 0 where
  pub basedir : lookup (codes "basedir") m ≡ some base
  pub userdir : lookup (codes "userdir") m ≡ some user
  pub librarydir : lookup (codes "librarydir") m ≡ some (base ++ codes "modules/")
  pub logdir : lookup (codes "logdir") m ≡ some (user ++ codes "logs/")
  pub javadir : lookup (codes "javadir") m ≡ some (base ++ codes "Java/")

-- The user's directory.
abbrev pub chosen : List ℕ → List ℕ → List ℕ
chosen [] home = home ++ codes "/.OCServer/"
chosen (c ∷ cs) home = c ∷ cs

module _ (opens makes : List ℕ → Bool) where
  assure-filenames :
      (path : List ℕ) (s : Files) → (assure_dir_exist opens makes path s).1.filenames ≡ s.filenames
  unfolding assure_dir_exist
  assure-filenames path s = ground arith

  -- A directory below a named one.
  update_found-ok :
      (below name path : List ℕ) (s : Files)
      → 0 < length below
      → (s' : Files) × (update_found opens makes below name (path, s) ≡ ok s')
        × (s'.filenames ≡ put name ((path ++ below) ++ (b'/' ∷ [])) s.filenames)
  unfolding update_found
  update_found-ok below name path s h = (
    _,
    update_pathname-ok name (path ++ below) (assure_dir_exist opens makes (path ++ below) s).1
        (omega (arith, length-append path below)),
    ap (put name ((path ++ below) ++ (b'/' ∷ []))) (assure-filenames (path ++ below) s),
  )

  update_below-ok :
      (base below name path : List ℕ) (s : Files)
      → 0 < length below
      → lookup base s.filenames ≡ some path
      → (s' : Files) × (update_below opens makes base below name s ≡ ok s')
        × (s'.filenames ≡ put name ((path ++ below) ++ (b'/' ∷ [])) s.filenames)
  unfolding update_below
  update_below-ok base below name path s h e =
      let (s', r, f) = update_found-ok below name path s h in
      (s', ap (update_found opens makes below name) (get_pathname-found base path s e) ∙ r, f)

  -- One name more.
  lookup-below :
      (other name path : List ℕ) (s s' : Files)
      → s'.filenames ≡ put name path s.filenames
      → lookup other s'.filenames
        ≡ (if same other name then some path else lookup other s.filenames)
  lookup-below other name path s s' e = ap (lookup other) e ∙ lookup-put other name path s.filenames

  -- A name that none of the three steps sets, and those that they set.
  all_named :
      (base user : List ℕ) (s s1 s2 s3 : Files)
      → lookup (codes "basedir") s.filenames ≡ some base
      → lookup (codes "userdir") s.filenames ≡ some user
      → s1.filenames
        ≡ put (codes "librarydir") ((base ++ codes "modules") ++ (b'/' ∷ [])) s.filenames
      → s2.filenames ≡ put (codes "logdir") ((user ++ codes "logs") ++ (b'/' ∷ [])) s1.filenames
      → s3.filenames ≡ put (codes "javadir") ((base ++ codes "Java") ++ (b'/' ∷ [])) s2.filenames
      → AreNamed base user s3.filenames
  all_named base user s s1 s2 s3 b e f1 f2 f3 =
      let on1 = λ (n : List ℕ).
        lookup-below n (codes "librarydir") ((base ++ codes "modules") ++ (b'/' ∷ [])) s s1 f1 in
      let on2 = λ (n : List ℕ).
        lookup-below n (codes "logdir") ((user ++ codes "logs") ++ (b'/' ∷ [])) s1 s2 f2 in
      let on3 = λ (n : List ℕ).
        lookup-below n (codes "javadir") ((base ++ codes "Java") ++ (b'/' ∷ [])) s2 s3 f3 in
      record {
        basedir = on3 (codes "basedir") ∙ on2 (codes "basedir") ∙ on1 (codes "basedir") ∙ b;
        userdir = on3 (codes "userdir") ∙ on2 (codes "userdir") ∙ on1 (codes "userdir") ∙ e;
        librarydir =
            on3 (codes "librarydir")
            ∙ on2 (codes "librarydir")
            ∙ on1 (codes "librarydir")
            ∙ ap some (append_assoc base (codes "modules") (b'/' ∷ []));
        logdir =
            on3 (codes "logdir")
            ∙ on2 (codes "logdir")
            ∙ ap some (append_assoc user (codes "logs") (b'/' ∷ []));
        javadir = on3 (codes "javadir") ∙ ap some (append_assoc base (codes "Java") (b'/' ∷ []));
      }

  pub update_datadir-AreNamed :
      (base user : List ℕ) (s : Files)
      → lookup (codes "basedir") s.filenames ≡ some base
      → lookup (codes "userdir") s.filenames ≡ some user
      → (s' : Files) × (update_datadir opens makes s ≡ ok s') × AreNamed base user s'.filenames
  unfolding update_datadir
  update_datadir-AreNamed base user s b e =
      let (s1, r1, f1) =
        update_below-ok (codes "basedir") (codes "modules") (codes "librarydir") base s
          (omega arith) b in
      let e1 =
        lookup-below (codes "userdir") (codes "librarydir")
          ((base ++ codes "modules") ++ (b'/' ∷ [])) s s1 f1
        ∙ e in
      let (s2, r2, f2) =
        update_below-ok (codes "userdir") (codes "logs") (codes "logdir") user s1 (omega arith)
          e1 in
      let b1 =
        lookup-below (codes "basedir") (codes "librarydir")
          ((base ++ codes "modules") ++ (b'/' ∷ [])) s s1 f1
        ∙ b in
      let b2 =
        lookup-below (codes "basedir") (codes "logdir") ((user ++ codes "logs") ++ (b'/' ∷ [])) s1
          s2 f2
        ∙ b1 in
      let (s3, r3, f3) =
        update_below-ok (codes "basedir") (codes "Java") (codes "javadir") base s2 (omega arith)
          b2 in
      (
        s3,
        ap
              (λ r. r >>= λ s1.
                update_below opens makes (codes "userdir") (codes "logs") (codes "logdir") s1
                >>= λ s2.
                    update_below opens makes (codes "basedir") (codes "Java") (codes "javadir") s2)
              r1
            ∙ ap
                (λ r. r >>= λ s2.
                  update_below opens makes (codes "basedir") (codes "Java") (codes "javadir") s2)
                r2
            ∙ r3,
        all_named base user s s1 s2 s3 b e f1 f2 f3,
      )

  -- Both calls of the start, once the user's directory is known.
  startup-chosen :
      (ud cwd home user : List ℕ) (s : Files)
      → 0 < length cwd
      → user_dir ud (some home) ≡ ok user
      → (s' : Files) × ((init_user_dir opens makes ud (some cwd) (some home) s
            >>= update_datadir opens makes)
          ≡ ok s')
        × AreNamed (cwd ++ (b'/' ∷ [])) user s'.filenames
  unfolding init_user_dir
  startup-chosen ud cwd home user s h u =
      let named = λ (bdir udir : List ℕ). record (assure_dir_exist opens makes udir s).1 {
        filenames = store (codes "userdir") udir (store (codes "basedir") bdir s.filenames);
      } in
      let base = cwd ++ (b'/' ∷ []) in
      let m = store (codes "basedir") base s.filenames in
      let (s', r, a) =
        update_datadir-AreNamed base user (named base user)
          (lookup-store (codes "basedir") (codes "userdir") user m
            ∙ lookup-store (codes "basedir") (codes "basedir") base s.filenames)
          (lookup-store (codes "userdir") (codes "userdir") user m) in
      (
        s',
        ap
              (λ r.
                r
                >>= (λ bdir. user_dir ud (some home) >>= λ udir. ok (named bdir udir))
                >>= update_datadir opens makes)
              (with_separator-nonempty cwd h)
            ∙ ap (λ r. r >>= (λ udir. ok (named base udir)) >>= update_datadir opens makes) u
            ∙ r,
        a,
      )

  user_dir-chosen : (ud home : List ℕ) → user_dir ud (some home) ≡ ok (chosen ud home)
  unfolding user_dir
  user_dir-chosen [] home = refl
  user_dir-chosen (c ∷ cs) home = refl

  -- At the start the directories are named after the working directory, which gets a separator, and
  -- the user's directory: the one that is given, or else the one in HOME. Conditions: getcwd
  -- succeeds with a path that is not empty, and HOME is set.
  pub startup-AreNamed :
      (ud cwd home : List ℕ) (s : Files)
      → 0 < length cwd
      → (s' : Files) × ((init_user_dir opens makes ud (some cwd) (some home) s
            >>= update_datadir opens makes)
          ≡ ok s')
        × AreNamed (cwd ++ (b'/' ∷ [])) (chosen ud home) s'.filenames
  startup-AreNamed ud cwd home s h =
      startup-chosen ud cwd home (chosen ud home) s h (user_dir-chosen ud home)
