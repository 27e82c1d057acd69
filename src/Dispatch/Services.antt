-- ===== src/Dispatch/Services.antt =====
-- Core/src/jImpl.cpp: the services of JCommChannel. Classes and objects of the Java machine are numbers, and what
-- the machine answers is an argument.
use ocserver.Common.{
  ℕ, zero, suc, Bool, true, false, List, [], ◌∷◌, ◌++◌, Option, none, some, length, take, get_elem?,
  codes, lookup,
}

pub record CommChannel : Type 0 where
  pub ava_srvs : List (List ℕ)
  pub reg_srvs : List (List ℕ × ℕ)

-- The text behind "Available Java apps:", and the services that the configuration names.
abbrev pub apps_text : List (List ℕ) → List ℕ
apps_text [] = []
apps_text (a ∷ apps) = (b' ' ∷ a) ++ apps_text apps

unfoldable pub load_java_srv_conf : List (List ℕ) → CommChannel → List ℕ × CommChannel
load_java_srv_conf apps s =
    (codes "Available Java apps:" ++ apps_text apps, record s { ava_srvs = apps })

-- `insert`, which keeps an entry that is there.
abbrev pub insert : List ℕ → ℕ → List (List ℕ × ℕ) → List (List ℕ × ℕ)
insert name app m = elim (lookup name m) [ none ↦ (name, app) ∷ m | some old ↦ m ]

unfoldable pub get_service : List ℕ → CommChannel → Option ℕ
get_service cmd s = lookup cmd s.reg_srvs

-- `find_class` gives a class or a null pointer, `new_object` what its constructor makes; the names of
-- classes begin with `base`.
module _ (base : List ℕ) (find_class : List ℕ → Option ℕ) (new_object : ℕ → ℕ) where
  unfoldable pub load_java_srv : List ℕ → CommChannel → Bool × CommChannel
  load_java_srv classpath s = elim (find_class (base ++ classpath)) [
    | none ↦ (false, s)
    | some cls ↦ (false, record s { reg_srvs = insert classpath (new_object cls) s.reg_srvs })
  ]

  unfoldable pub load_each : List (List ℕ) → CommChannel → Bool × CommChannel
  unfolding load_java_srv
  load_each [] s = (true, s)
  load_each (a ∷ apps) s = elim (load_java_srv a s).0 [
    | true ↦ load_each apps (load_java_srv a s).1
    | false ↦ (false, (load_java_srv a s).1)
  ]

  unfoldable pub load_all_ava_java_srvs : CommChannel → Bool × CommChannel
  unfolding load_each
  load_all_ava_java_srvs s = load_each s.ava_srvs s

-- `while( !fromsrv.empty() && fromsrv.back() == '\0' ) fromsrv.pop_back();`
unfoldable pub pop_zeros : ℕ → List ℕ → Option (List ℕ)
pop_zeros fuel [] = some []
pop_zeros zero (c ∷ cs) = none
pop_zeros (suc fuel) (c ∷ cs) = elim (get_elem? (c ∷ cs) (length cs)) [
  | some zero ↦ pop_zeros fuel (take (length cs) (c ∷ cs))
  | some (suc n) ↦ some (c ∷ cs)
  | none ↦ some (c ∷ cs)
]

-- `call` is the service's method: its result and the bytes that are then in the buffer of 512 bytes, or
-- none if its address is null.
unfoldable pub exec_transact :
    (ℕ → List ℕ → ℕ → Bool × Option (List ℕ)) → ℕ → List ℕ → List ℕ → ℕ → Option (Bool × List ℕ)
unfolding pop_zeros
exec_transact call obj tosrv fromsrv flags = elim (call obj tosrv flags).1 [
  | none ↦ some ((call obj tosrv flags).0, fromsrv)
  | some buf ↦ elim (pop_zeros (length buf) buf) [
    | none ↦ none
    | some text ↦ some ((call obj tosrv flags).0, text)
  ]
]
