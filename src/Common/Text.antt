-- ===== src/Common/Text.antt =====
-- Text as a list of character codes, its equality, and dictionaries with text as keys.
use Prim.Native.Char.{code}
use Prim.Native.String.{String}
use Prim.Native.Nat.{ℕ}
use mathlib.Core.Path.{◌≡◌, refl}
use mathlib.Core.Logic.{◌↔◌}
use mathlib.Core.Bool.{Bool, true, false}
use mathlib.Core.Option.{Option, none, some}
use mathlib.Core.List.{List, [], ◌∷◌}
use native.Mathlib.Omega.{arith}
use ocserver.Common.Tests.{◌==◌, if◌then◌else◌}

-- The codes of an ASCII text.
abbrev pub codes : String → List ℕ
codes String.[] = []
codes (String.◌∷◌ c s) = code c ∷ codes s

abbrev pub same : List ℕ → List ℕ → Bool
same [] [] = true
same [] (y ∷ ys) = false
same (x ∷ xs) [] = false
same (x ∷ xs) (y ∷ ys) = if x == y then same xs ys else false

pub same_self : (xs : List ℕ) → same xs xs ≡ true
same_self [] = refl
same_self (x ∷ xs) = ground (arith, same_self xs)

eq_of_same : (xs ys : List ℕ) → same xs ys ≡ true → xs ≡ ys
eq_of_same [] [] h = refl
eq_of_same [] (y ∷ ys) h = absurd (cc)
eq_of_same (x ∷ xs) [] h = absurd (cc)
eq_of_same (x ∷ xs) (y ∷ ys) h = ground (arith, eq_of_same xs ys)

pub same_iff : (xs ys : List ℕ) → (same xs ys ≡ true) ↔ (xs ≡ ys)
same_iff xs ys = (eq_of_same xs ys, λ e. rw e (same_self ys))

module _ {ℓ} {V : Type ℓ} where
  abbrev pub lookup : List ℕ → List (List ℕ × V) → Option V
  lookup k [] = none
  lookup k ((i, v) ∷ m) = if same k i then some v else lookup k m

  -- `m[k] = v`.
  abbrev pub store : List ℕ → V → List (List ℕ × V) → List (List ℕ × V)
  store k v [] = (k, v) ∷ []
  store k v ((i, w) ∷ m) = if same k i then (i, v) ∷ m else (i, w) ∷ store k v m

  pub lookup-store :
      (j k : List ℕ) (v : V) (m : List (List ℕ × V))
      → lookup j (store k v m) ≡ (if same j k then some v else lookup j m)
  lookup-store j k v [] = refl
  lookup-store j k v ((i, w) ∷ m) =
      ground (arith, same_iff k i, same_iff j i, same_iff j k, lookup-store j k v m)
