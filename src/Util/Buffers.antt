-- ===== src/Util/Buffers.antt =====
-- Core/src/util.cpp: int8_to_buf and its likes, which write an integer into a buffer from the index `i` on, its highest
-- byte first. The integer is its word; none is a write behind the end of the buffer.
use ocserver.Common.{
  ℕ, zero, suc, ◌+◌, ◌/◌, ◌%◌, ◌^◌, ◌≡◌, refl, ap, ◌∙◌, List, [], ◌∷◌, ◌++◌, Option, none, some,
  length, arith,
}
use ocserver.Wire.{int32_to_char, int64_to_char}

-- `buf[i] = ( char ) value`
unfoldable pub poke : List ℕ → ℕ → ℕ → Option (List ℕ)
poke [] i value = none
poke (b ∷ buf) zero value = some (value % 256 ∷ buf)
poke (b ∷ buf) (suc i) value = elim (poke buf i value) [ none ↦ none | some rest ↦ some (b ∷ rest) ]

infixl 5 ◌then◌
abbrev ◌then◌ : Option (List ℕ) → (List ℕ → Option (List ℕ)) → Option (List ℕ)
none then f = none
some buf then f = f buf

unfoldable pub int8_to_buf : List ℕ → ℕ → ℕ → Option (List ℕ)
unfolding poke
int8_to_buf buf i value = poke buf i value

unfoldable pub int16_to_buf : List ℕ → ℕ → ℕ → Option (List ℕ)
unfolding poke
int16_to_buf buf i value = poke buf (i + 1) value then λ b. poke b (i + 0) (value / 2 ^ 8)

unfoldable pub int32_to_buf : List ℕ → ℕ → ℕ → Option (List ℕ)
unfolding poke
int32_to_buf buf i value = poke buf (i + 3) value then λ b. poke b (i + 2) (value / 2 ^ 8) then λ b.
    poke b (i + 1) (value / 2 ^ 16) then λ b. poke b (i + 0) (value / 2 ^ 24)

unfoldable pub int64_to_buf : List ℕ → ℕ → ℕ → Option (List ℕ)
unfolding poke
int64_to_buf buf i value = poke buf (i + 7) value then λ b. poke b (i + 6) (value / 2 ^ 8) then λ b.
    poke b (i + 5) (value / 2 ^ 16) then λ b. poke b (i + 4) (value / 2 ^ 24) then λ b.
    poke b (i + 3) (value / 2 ^ 32) then λ b. poke b (i + 2) (value / 2 ^ 40) then λ b.
    poke b (i + 1) (value / 2 ^ 48) then λ b. poke b (i + 0) (value / 2 ^ 56)

-- A write behind some bytes.
poke-append :
    (before buf after : List ℕ) (k i value : ℕ)
    → i ≡ length before + k
    → poke buf k value ≡ some after
    → poke (before ++ buf) i value ≡ some (before ++ after)
unfolding poke
poke-append [] buf after k i value e h =
    let d : i ≡ k = omega arith in ap (λ j. poke buf j value) d ∙ h
poke-append (b ∷ before) buf after k zero value e h = absurd (omega arith)
poke-append (b ∷ before) buf after k (suc i) value e h =
    ap (λ o. elim o [ none ↦ none | some rest ↦ some (b ∷ rest) ])
      (poke-append before buf after k i value (omega arith) h)

-- A write, and those behind it.
poke_then :
    (before buf after : List ℕ) (k i value : ℕ) (f : List ℕ → Option (List ℕ))
    → i ≡ length before + k
    → poke buf k value ≡ some after
    → (poke (before ++ buf) i value then f) ≡ f (before ++ after)
poke_then before buf after k i value f e h =
    ap (λ o. o then f) (poke-append before buf after k i value e h)

-- int32_to_buf writes the four bytes that Int32ToChar gives, and no others.
pub int32_to_buf-int32_to_char :
    (before behind : List ℕ) (a b c d value : ℕ)
    → int32_to_buf (before ++ (a ∷ b ∷ c ∷ d ∷ behind)) (length before) value
      ≡ some (before ++ (int32_to_char value ++ behind))
unfolding int32_to_buf int32_to_char
int32_to_buf-int32_to_char before behind a b c d value =
    poke_then before _ _ 3 (length before + 3) value _ refl refl
    ∙ poke_then before _ _ 2 (length before + 2) (value / 2 ^ 8) _ refl refl
    ∙ poke_then before _ _ 1 (length before + 1) (value / 2 ^ 16) _ refl refl
    ∙ poke-append before _ _ 0 (length before + 0) (value / 2 ^ 24) refl refl

-- int64_to_buf writes the eight bytes that Int64ToChar gives, and no others.
pub int64_to_buf-int64_to_char :
    (before behind : List ℕ) (a b c d e f g h value : ℕ)
    → int64_to_buf (before ++ (a ∷ b ∷ c ∷ d ∷ e ∷ f ∷ g ∷ h ∷ behind)) (length before) value
      ≡ some (before ++ (int64_to_char value ++ behind))
unfolding int64_to_buf int64_to_char
int64_to_buf-int64_to_char before behind a b c d e f g h value =
    poke_then before _ _ 7 (length before + 7) value _ refl refl
    ∙ poke_then before _ _ 6 (length before + 6) (value / 2 ^ 8) _ refl refl
    ∙ poke_then before _ _ 5 (length before + 5) (value / 2 ^ 16) _ refl refl
    ∙ poke_then before _ _ 4 (length before + 4) (value / 2 ^ 24) _ refl refl
    ∙ poke_then before _ _ 3 (length before + 3) (value / 2 ^ 32) _ refl refl
    ∙ poke_then before _ _ 2 (length before + 2) (value / 2 ^ 40) _ refl refl
    ∙ poke_then before _ _ 1 (length before + 1) (value / 2 ^ 48) _ refl refl
    ∙ poke-append before _ _ 0 (length before + 0) (value / 2 ^ 56) refl refl
