-- ===== src/Dispatch/Trimming.antt =====
-- Core/src/jImpl.cpp: execTransact takes the zeros from the end of what a service wrote.
use ocserver.Common.{
  ℕ, zero, suc, ◌≤◌, ◌≡◌, refl, ap, subst, ◌∙◌, sym, Bool, List, [], ◌∷◌, ◌++◌, append_assoc,
  append-nil, Option, none, some, length, take, get_elem?, arith, length-take, get_elem?_lt, inl,
  inr, ◌⊎◌, ◌≢◌,
}
use ocserver.Dispatch.Services.{pop_zeros, exec_transact}

abbrev pub zeros : ℕ → List ℕ
zeros zero = []
zeros (suc k) = 0 ∷ zeros k

-- Bytes that are empty or end with one that is not zero.
pub EndsNonzero : List ℕ → Type 0
EndsNonzero xs = (xs ≡ []) ⊎ ((ys : List ℕ) × (c : ℕ) × (xs ≡ ys ++ (c ∷ [])) × (c ≢ 0))

zeros_snoc : (k : ℕ) → zeros k ++ (0 ∷ []) ≡ zeros (suc k)
zeros_snoc zero = refl
zeros_snoc (suc k) = ap (λ xs. 0 ∷ xs) (zeros_snoc k)

-- The last element behind the others.
take-get_elem? :
    (xs : List ℕ) (c : ℕ) (n : ℕ)
    → length xs ≡ suc n
    → get_elem? xs n ≡ some c
    → xs ≡ take n xs ++ (c ∷ [])
take-get_elem? [] c n h e = absurd (omega arith)
take-get_elem? (x ∷ []) c zero h e = ap (λ o. elim o [ none ↦ [] | some d ↦ d ∷ [] ]) e
take-get_elem? (x ∷ []) c (suc n) h e = absurd (omega arith)
take-get_elem? (x ∷ y ∷ xs) c zero h e = absurd (omega arith)
take-get_elem? (x ∷ y ∷ xs) c (suc n) h e =
    ap (λ t. x ∷ t) (take-get_elem? (y ∷ xs) c n (omega arith) e)

-- What the loop leaves, with the zeros that it took.
Trimmed : Option (List ℕ) → List ℕ → Type 0
Trimmed o xs = (ys : List ℕ) × (k : ℕ) × (o ≡ some ys) × (xs ≡ ys ++ zeros k) × EndsNonzero ys

-- One turn, with the last byte.
turn-Trimmed :
    (xs : List ℕ) (n d : ℕ) (next : Option (List ℕ))
    → xs ≡ take n xs ++ (d ∷ [])
    → Trimmed next (take n xs)
    → Trimmed (elim d [ zero ↦ next | suc m ↦ some xs ]) xs
unfolding Trimmed EndsNonzero
turn-Trimmed xs n zero next e (ys, k, r, t, z) = (
  ys,
  suc k,
  r,
  e
      ∙ ap (λ l. l ++ (0 ∷ [])) t
      ∙ append_assoc ys (zeros k) (0 ∷ [])
      ∙ ap (λ l. ys ++ l) (zeros_snoc k),
  z,
)
turn-Trimmed xs n (suc m) next e h =
    (xs, 0, refl, sym (append-nil xs), inr (take n xs, suc m, e, omega arith))

pop_zeros-Trimmed : (fuel : ℕ) (xs : List ℕ) → length xs ≤ fuel → Trimmed (pop_zeros fuel xs) xs
unfolding pop_zeros Trimmed EndsNonzero
pop_zeros-Trimmed fuel [] h = ([], 0, refl, refl, inl refl)
pop_zeros-Trimmed zero (c ∷ cs) h = absurd (omega arith)
pop_zeros-Trimmed (suc fuel) (c ∷ cs) h =
    let (d, e) = get_elem?_lt (c ∷ cs) (length cs) (omega arith) in
    subst
      (λ o.
        Trimmed
          (elim o [
            | some zero ↦ pop_zeros fuel (take (length cs) (c ∷ cs))
            | some (suc n) ↦ some (c ∷ cs)
            | none ↦ some (c ∷ cs)
          ])
          (c ∷ cs))
      (sym e)
      (turn-Trimmed (c ∷ cs) (length cs) d (pop_zeros fuel (take (length cs) (c ∷ cs)))
        (take-get_elem? (c ∷ cs) d (length cs) refl e)
        (pop_zeros-Trimmed fuel (take (length cs) (c ∷ cs))
          (omega (arith, length-take (length cs) (c ∷ cs)))))

-- The text that is left of a buffer, or the old one if there is no buffer.
abbrev pub Leaves : Option (List ℕ) → List ℕ → List ℕ → Type 0
Leaves none fromsrv text = text ≡ fromsrv
Leaves (some buf) fromsrv text = (k : ℕ) × (buf ≡ text ++ zeros k) × EndsNonzero text

leave :
    (r : Bool) (o : Option (List ℕ)) (fromsrv : List ℕ)
    → (text : List ℕ) × (◌≡◌ {A = Option (Bool × List ℕ)}
        (elim o [
          | none ↦ some (r, fromsrv)
          | some buf ↦ elim (pop_zeros (length buf) buf) [ none ↦ none | some t ↦ some (r, t) ]
        ])
        (some (r, text)))
      × Leaves o fromsrv text
unfolding Trimmed
leave r none fromsrv = (fromsrv, refl, refl)
leave r (some buf) fromsrv =
    let (ys, k, e, t, z) = pop_zeros-Trimmed (length buf) buf (omega arith) in
    (ys, ap (λ o. elim o [ none ↦ none | some t ↦ some (r, t) ]) e, (k, t, z))

-- The loop ends, and fromsrv is what the service wrote into the buffer without the zeros at its end: it is
-- empty or ends with another byte. Without a buffer fromsrv is left alone. The result is the service's.
pub exec_transact-EndsNonzero :
    (call : ℕ → List ℕ → ℕ → Bool × Option (List ℕ)) (obj : ℕ) (tosrv fromsrv : List ℕ) (flags : ℕ)
    → (text : List ℕ) × (exec_transact call obj tosrv fromsrv flags
        ≡ some ((call obj tosrv flags).0, text))
      × Leaves (call obj tosrv flags).1 fromsrv text
unfolding exec_transact
exec_transact-EndsNonzero call obj tosrv fromsrv flags =
    leave (call obj tosrv flags).0 (call obj tosrv flags).1 fromsrv
