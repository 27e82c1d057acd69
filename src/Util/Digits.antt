-- ===== src/Util/Digits.antt =====
-- Core/src/util.cpp: the formats as functions, the lower-case digits without leading zeros.
use ocserver.Common.{
  ℕ, ◌+◌, ◌*◌, ◌-◌, ◌/◌, ◌%◌, ◌<◌, ◌≡◌, ◌≢◌, List, [], ◌∷◌, All, ltb, if◌then◌else◌, arith,
  Bool-cases, inl, inr,
}
use ocserver.Util.{Formats}
use ocserver.Util.RoundTrip.{IsHex, IsText}

abbrev digit : ℕ → ℕ
digit d = if ltb d 10 then d + 48 else d + 87

abbrev value : ℕ → ℕ
value c = if ltb c 58 then c - 48 else c - 87

abbrev scan : List ℕ → ℕ
scan (x ∷ y ∷ []) = value x * 16 + value y
scan _ = 0

abbrev pub formats : Formats
formats = record {
  print_hex = λ b. if ltb b 16 then digit b ∷ [] else digit (b / 16) ∷ digit (b % 16) ∷ [];
  scan_hex = scan;
}

value-digit : (d : ℕ) → d < 16 → value (digit d) ≡ d
value-digit d h = ground arith

pub formats-IsHex : IsHex formats
formats-IsHex = record {
  one_digit = λ b h. (digit b, ground arith, omega (arith, value-digit b h));
  two_digits = λ b h k. (
    digit (b / 16),
    digit (b % 16),
    ground arith,
    omega (arith, value-digit (b / 16) (omega arith), value-digit (b % 16) (omega arith)),
  );
}

digit-ne-zero : (d : ℕ) → digit d ≢ 0
digit-ne-zero d = λ e. ground arith

digits_nonzero : (b : ℕ) → b < 256 → All (λ c. c ≢ 0) (formats.print_hex b)
digits_nonzero b h = elim (Bool-cases (ltb b 16)) [
  | inl y ↦ rw y (digit-ne-zero b, tt)
  | inr n ↦ rw n (digit-ne-zero (b / 16), (digit-ne-zero (b % 16), tt))
]

pub formats-IsText : IsText formats
formats-IsText = record { no_zero = digits_nonzero }
