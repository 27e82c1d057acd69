-- ===== src/Proto/RoundTrip/Reads.antt =====
-- Core/src/proto.cpp: reads that take exactly some bytes from the stream, and their composition.
use ocserver.Common.{
  ℕ, ◌+◌, ◌≡◌, refl, ap, ◌∙◌, subst, List, [], ◌∷◌, ◌++◌, length, length-append, arith,
  append_assoc,
}
use mathlib.Core.Path.{ap₂}
use ocserver.Proto.Stream.{Stream, length_error, ok, P, ◌>>=◌, continue, return, get, at}

-- The read `m` takes the bytes `bs` and returns `v`, whatever follows.
pub record Reads {ℓ} {A : Type ℓ} (m : P A) (bs : List ℕ) (v : A) : Type ℓ where
  pub run :
      (w : List ℕ) (p : ℕ) (xs : List ℕ) → m (at w p (bs ++ xs)) ≡ ok v (at w (p + length bs) xs)

-- Two results with the same value and position.
pub ok_at {ℓ} :
    {A : Type ℓ} {v v' : A} {w xs : List ℕ} {p q : ℕ}
    → v ≡ v'
    → p ≡ q
    → ok v (at w p xs) ≡ ok v' (at w q xs)
ok_at {w = w} {xs = xs} e d = ap₂ (λ x r. ok x (at w r xs)) e d

-- The same bytes and value, in other words.
pub as_Reads {ℓ} :
    {A : Type ℓ} {m : P A} {bs cs : List ℕ} {v v' : A}
    → bs ≡ cs
    → v ≡ v'
    → Reads m bs v
    → Reads m cs v'
as_Reads {m = m} {bs = bs} {v' = v'} d e r = subst (λ cs. Reads m cs v') d (subst (Reads m bs) e r)

pub return-Reads {ℓ} : {A : Type ℓ} (v : A) → Reads (return v) [] v
return-Reads v = record { run = λ w p xs. ap (λ q. ok v (at w q xs)) (omega arith) }

pub get-Reads : (old c : ℕ) → Reads (get old) (c ∷ []) c
unfolding get
get-Reads old c = record { run = λ w p xs. refl }

module _ {ℓ κ} {A : Type ℓ} {B : Type κ} {m : P A} {bs : List ℕ} {a : A} where
  pub bind-Reads :
      (f : A → P B) {cs : List ℕ} {b : B}
      → Reads m bs a
      → Reads (f a) cs b
      → Reads (m >>= f) (bs ++ cs) b
  bind-Reads f {cs = cs} {b = b} h k = record {
    run = λ w p xs.
        ap (λ ys. continue f (m (at w p ys))) (append_assoc bs cs xs)
        ∙ ap (continue f) (h.run w p (cs ++ xs))
        ∙ k.run w (p + length bs) xs
        ∙ ap (λ q. ok b (at w q xs)) (omega (arith, length-append bs cs));
  }

  -- A read that a `return` follows.
  pub map-Reads : (f : A → B) → Reads m bs a → Reads (m >>= λ x. return (f x)) bs (f a)
  map-Reads f h = record { run = λ w p xs. ap (continue (λ x. return (f x))) (h.run w p xs) }

  -- Exceptions behind such a read.
  pub bind-throws :
      (f : A → P B) (w xs : List ℕ) (p : ℕ)
      → Reads m bs a
      → f a (at w (p + length bs) xs) ≡ length_error
      → (m >>= f) (at w p (bs ++ xs)) ≡ length_error
  bind-throws f w xs p h e = ap (continue f) (h.run w p xs) ∙ e

pub throws {ℓ κ} :
    {A : Type ℓ} {B : Type κ} (m : P A) (f : A → P B) (s : Stream)
    → m s ≡ length_error
    → (m >>= f) s ≡ length_error
throws m f s e = ap (continue f) e
