-- ===== src/Charsets/Tests.antt =====
-- Core/src/charutils.cpp: a locale of few texts.
use mathlib.Core.Option.{some-injective, none-ne-some}
use ocserver.Common.{
  ℕ, zero, suc, subst, ◌+◌, ◌≤◌, ◌≡◌, refl, List, [], ◌∷◌, Option, none, some, length, codes, arith,
}
use ocserver.Charsets.{Locale, utf8_to_wstr, strip_trailing_nulls}
use ocserver.Charsets.Laws.{IsNonzero, IsBounded, and_back, wstr_to_utf8-utf8_to_wstr}

-- Only the empty text and those of one character are converted.
abbrev wide : List ℕ → Option (List ℕ)
wide [] = some []
wide (zero ∷ []) = none
wide (suc c ∷ []) = some (suc c ∷ [])
wide (c ∷ d ∷ cs) = none

abbrev short_texts : Locale
short_texts = record {
  to_wide = wide;
  to_bytes = wide;
  split = λ regex input. some (input ∷ []);
  max_wide = 100;
  max_bytes = 100;
}

abbrev Fits : List ℕ → Type 0
Fits cs = IsNonzero cs × (length cs + 1 ≤ 100)

wide-IsBounded : IsBounded 100 wide
wide-IsBounded [] cs e = subst Fits (some-injective _ _ e) (tt, omega arith)
wide-IsBounded (zero ∷ []) cs e = absurd (none-ne-some _ e)
wide-IsBounded (suc c ∷ []) cs e =
    subst Fits (some-injective _ _ e) (((λ z. omega (arith, z)), tt), omega arith)
wide-IsBounded (c ∷ d ∷ s) cs e = absurd (none-ne-some _ e)

wstr_to_utf8-utf8_to_wstr_example :
    and_back short_texts (utf8_to_wstr short_texts (codes "h")) ≡ some (codes "h")
wstr_to_utf8-utf8_to_wstr_example =
    wstr_to_utf8-utf8_to_wstr short_texts (codes "h") (omega arith) (omega arith) wide-IsBounded
      wide-IsBounded ((λ e. omega (arith, e)), tt)

strip_run : strip_trailing_nulls (0 ∷ 5 ∷ 0 ∷ 0 ∷ []) ≡ 0 ∷ 5 ∷ []
unfolding strip_trailing_nulls
strip_run = refl
