-- ===== src/Log/Written.antt =====
-- Core/src/debug.cpp: which messages are logged, told by the bits of their level and class.
use native.Mathlib.Nat.{div-div-eq-div-mul}
use ocserver.Common.{
  ℕ, zero, suc, ◌/◌, ◌%◌, ◌^◌, ◌<◌, ◌≡◌, ◌⊎◌, refl, ap, sym, ◌∙◌, Bool, true, false, ◌&&◌, ◌||◌,
  ◌==◌, arith, Bool-cases, inl, inr,
}
use ocserver.Log.{bit, meets, Log, is_logged}

or_end : (b : Bool) → (b || true) ≡ true
or_end true = refl
or_end false = refl

and_parts : (a b : Bool) → (a && b) ≡ true → (a ≡ true) × (b ≡ true)
and_parts true b e = (refl, e)
and_parts false b e = absurd (cc)

-- Two words have a bit in common.
abbrev pub ShareBit : ℕ → ℕ → Type 0
ShareBit a b = (k : ℕ) × (k < 32) × (bit k a ≡ true) × (bit k b ≡ true)

-- The words' bits below `w`, by their halves.
abbrev ShareBelow : ℕ → ℕ → ℕ → Type 0
ShareBelow w a b = (k : ℕ) × (k < w) × (bit k a ≡ true) × (bit k b ≡ true)

bit-half : (k n : ℕ) → bit k (n / 2) ≡ bit (suc k) n
bit-half k n = ap (λ m. m % 2 == 1) (div-div-eq-div-mul n 2 (2 ^ k) ∙ ap (λ d. n / d) (omega arith))

bit-zero : (n : ℕ) → bit 0 n ≡ (n % 2 == 1)
bit-zero n = ap (λ m. m % 2 == 1) (omega arith)

meets-ShareBelow : (w a b : ℕ) → meets w a b ≡ true → ShareBelow w a b
meets-ShareBelow zero a b e = absurd (cc)
meets-ShareBelow (suc w) a b e = elim (Bool-cases (bit 0 a && bit 0 b)) [
  | inl y ↦ let (p, q) = and_parts _ _ y in (0, omega arith, p, q)
  | inr n ↦
      let (k, h, p, q) =
        meets-ShareBelow w (a / 2) (b / 2) (sym (ap (λ c. c || meets w (a / 2) (b / 2)) n) ∙ e) in
      (suc k, omega arith, sym (bit-half k a) ∙ p, sym (bit-half k b) ∙ q)
]

ShareBelow-meets : (w a b : ℕ) → ShareBelow w a b → meets w a b ≡ true
ShareBelow-meets zero a b (k, h, p, q) = absurd (omega arith)
ShareBelow-meets (suc w) a b (zero, h, p, q) =
    ap (λ c. (c && bit 0 b) || meets w (a / 2) (b / 2)) p ∙ ap (λ c. c || meets w (a / 2) (b / 2)) q
ShareBelow-meets (suc w) a b (suc k, h, p, q) =
    ap (λ c. (bit 0 a && bit 0 b) || c)
      (ShareBelow-meets w (a / 2) (b / 2) (k, omega arith, bit-half k a ∙ p, bit-half k b ∙ q))
    ∙ or_end (bit 0 a && bit 0 b)

-- What is to be written: what the level and the class of the log let pass, errors, and what is of D_MAIN.
abbrev pub IsWritten : ℕ → ℕ → Log → Type 0
IsWritten lev cl s =
    (ShareBit lev s.debug_level × ShareBit cl s.debug_class)
    ⊎ ((bit 3 lev ≡ true) ⊎ (bit 0 cl ≡ true))

pub is_logged-IsWritten : (lev cl : ℕ) (s : Log) → is_logged lev cl s ≡ true → IsWritten lev cl s
unfolding is_logged
is_logged-IsWritten lev cl s e =
    elim (Bool-cases (meets 32 lev s.debug_level && meets 32 cl s.debug_class)) [
      | inl y ↦
          let (p, q) = and_parts _ _ y in
          inl (meets-ShareBelow 32 lev s.debug_level p, meets-ShareBelow 32 cl s.debug_class q)
      | inr n ↦ elim (Bool-cases (bit 3 lev)) [
        | inl y ↦ inr (inl y)
        | inr m ↦
            inr
              (inr (sym (ap (λ c. (c || bit 3 lev) || bit 0 cl) n ∙ ap (λ c. c || bit 0 cl) m) ∙ e))
      ]
    ]

written_logged :
    (a b c d : Bool)
    → ((a ≡ true) × (b ≡ true)) ⊎ ((c ≡ true) ⊎ (d ≡ true))
    → (((a && b) || c) || d) ≡ true
written_logged a b c d h = ground (arith, h)

pub not_logged : (lev cl : ℕ) (s : Log) → is_logged lev cl s ≡ false → ¬ (IsWritten lev cl s)
unfolding is_logged
not_logged lev cl s e (inl (p, q)) = cc (
    written_logged _ _ (bit 3 lev) (bit 0 cl)
      (inl (ShareBelow-meets 32 lev s.debug_level p, ShareBelow-meets 32 cl s.debug_class q)))
not_logged lev cl s e (inr h) = cc (
    written_logged (meets 32 lev s.debug_level) (meets 32 cl s.debug_class) (bit 3 lev) (bit 0 cl)
      (inr h))
