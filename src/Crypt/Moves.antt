-- ===== src/Crypt/Moves.antt =====
-- Core/src/cryptoutils.cpp: rules for what the steps of a function leave allocated.
use ocserver.Common.{
  ◌+◌, ℕ, subst, ◌≡◌, ◌≢◌, refl, ap, ◌∙◌, sym, Bool, true, false, List, [], ◌∷◌, Option, none, some,
  ◌==◌, arith, Bool-cases, inl, inr,
}
use ocserver.Util.{Formats, string_to_buffer}
use ocserver.Log.{Log, d_warning, d_crypt, d_error}
use ocserver.Log.Filter.{debug_message-logged}
use ocserver.Crypt.{
  M, World, and_then, Outcome, Object, returned, exits, threw, undefined, not_allocated, allocate,
  free, without, non_null, non_null_object, minus, in_array, hex_bytes, message, fail_if, ◌>>=◌,
}

pub allocate-true :
    (allocates : ℕ → Bool) (o : Object) (w : World)
    → allocates w.requests ≡ true
    → allocate allocates o w
      ≡ returned true (record w { live = o ∷ w.live; requests = w.requests + 1 })
unfolding allocate
allocate-true allocates o w e = rw e refl

pub allocate-false :
    (allocates : ℕ → Bool) (o : Object) (w : World)
    → allocates w.requests ≡ false
    → allocate allocates o w ≡ returned false (record w { requests = w.requests + 1 })
unfolding allocate
allocate-false allocates o w e = rw e refl

pub message-returned :
    (now : List ℕ) (frames : List (List ℕ)) (lev : ℕ) (chunks : List (List ℕ)) (w : World)
    → (lev == d_error) ≡ false
    → (s : Log) × (message now frames lev chunks w ≡ returned tt (record w { log = s }))
unfolding message
message-returned now frames lev chunks w q =
    let (s, p) = debug_message-logged now frames lev d_crypt chunks w.log q in
    (s, rw (p, message) refl)

pub free_lem :
    (o : Object) (w : World) (after : List Object)
    → without o w.live ≡ some after
    → free o w ≡ returned tt (record w { live = after })
unfolding free
free_lem o w after e = rw (e, free) refl

-- A part of a function ends with `after` allocated, or returns early; nothing is thrown, and only what is
-- allocated is freed. `Q` is what holds of an early return's code and objects.
module _ (Q : ℕ → List Object → Type 0) where
  abbrev pub Within : {A : Type 0} → List Object → Outcome A → Type 0
  Within after (returned a w) = w.live ≡ after
  Within after (exits c w) = Q c w.live
  Within after (threw e w) = ⊥
  Within after (undefined x) = x ≢ not_allocated

  abbrev pub Moves : {A : Type 0} → List Object → List Object → M A → Type 0
  Moves before after m = (w : World) → w.live ≡ before → Within after (m w)

  Within-and_then :
      {A B : Type 0} (mid after : List Object) (r : Outcome A) (f : A → M B)
      → Within mid r
      → ((a : A) → Moves mid after (f a))
      → Within after (and_then r f)
  Within-and_then mid after (returned a w) f h k = k a w h
  Within-and_then mid after (exits c w) f h k = h
  Within-and_then mid after (threw e w) f h k = h
  Within-and_then mid after (undefined x) f h k = h

  pub Moves-bind :
      {A B : Type 0} (before mid after : List Object) (m : M A) (f : A → M B)
      → Moves before mid m
      → ((a : A) → Moves mid after (f a))
      → Moves before after (m >>= f)
  Moves-bind before mid after m f h k w e = Within-and_then mid after (m w) f (h w e) k

  -- An allocation, and what follows in either case.
  pub Moves-allocate :
      {B : Type 0} (before after : List Object) (allocates : ℕ → Bool) (o : Object) (f : Bool → M B)
      → Moves (o ∷ before) after (f true)
      → Moves before after (f false)
      → Moves before after (allocate allocates o >>= f)
  Moves-allocate before after allocates o f h k w e = elim (Bool-cases (allocates w.requests)) [
    | inl y ↦
        subst (λ r. Within after (and_then r f)) (sym (allocate-true allocates o w y))
          (h (record w { live = o ∷ w.live; requests = w.requests + 1 }) (ap (λ l. o ∷ l) e))
    | inr n ↦
        subst (λ r. Within after (and_then r f)) (sym (allocate-false allocates o w n))
          (k (record w { requests = w.requests + 1 }) e)
  ]

  -- A step that leaves the objects alone and does not end the function early.
  abbrev pub Keeps : {A : Type 0} → M A → Type 0
  Keeps m = (l : List Object) → Moves l l m

  pub Keeps-message :
      (now : List ℕ) (frames : List (List ℕ)) (lev : ℕ) (chunks : List (List ℕ))
      → (lev == d_error) ≡ false
      → Keeps (message now frames lev chunks)
  Keeps-message now frames lev chunks q l w e =
      let (s, p) = message-returned now frames lev chunks w q in subst (λ r. Within l r) (sym p) e

  pub Moves-fail_if :
      (now : List ℕ) (frames : List (List ℕ)) (failed : Bool) (text : List ℕ) (code : ℕ)
      (l : List Object)
      → Q (minus code) l
      → Moves l l (fail_if now frames failed text code)
  Moves-fail_if now frames true text code l q w e =
      Moves-bind l l l (message now frames d_warning (text ∷ [])) (λ _ v. exits (minus code) v)
        (Keeps-message now frames d_warning (text ∷ []) refl l)
        (λ _ v p. subst (Q (minus code)) (sym p) q) w e
  Moves-fail_if now frames false text code l q w e = e

  pub Moves-free :
      (o : Object) (l after : List Object) → without o l ≡ some after → Moves l after (free o)
  Moves-free o l after h w e =
      subst (λ r. Within after r) (sym (free_lem o w after (ap (without o) e ∙ h))) refl

  pub Keeps-in_array : (bytes : List ℕ) → Keeps (in_array bytes)
  Keeps-in_array bytes l w e = ground arith

  pub Keeps-hex_bytes : (formats : Formats) (text : List ℕ) → Keeps (hex_bytes formats text)
  unfolding hex_bytes
  Keeps-hex_bytes formats text = Keeps-in_array (string_to_buffer formats text)

  pub Keeps-non_null : {A : Type 0} (o : Option A) → Keeps (non_null o)
  Keeps-non_null none l w e = λ p. cc p
  Keeps-non_null (some a) l w e = e

  pub Keeps-non_null_object : (b : Bool) → Keeps (non_null_object b)
  Keeps-non_null_object true l w e = e
  Keeps-non_null_object false l w e = λ p. cc p

  -- A failure that is certain: what follows it is not reached.
  pub Moves-fail :
      {A : Type 0} (now : List ℕ) (frames : List (List ℕ)) (text : List ℕ) (code : ℕ)
      (l after : List Object) (f : Unit {0} → M A)
      → Q (minus code) l
      → Moves l after (fail_if now frames true text code >>= f)
  Moves-fail now frames text code l after f q w e =
      let (s, p) = message-returned now frames d_warning (text ∷ []) w refl in
      subst (λ r. Within after (and_then (and_then r (λ _ v. exits (minus code) v)) f)) (sym p)
        (subst (Q (minus code)) (sym e) q)
