-- ===== src/Charsets.antt =====
-- Core/src/charutils.cpp: the conversions between UTF-8 and wide strings, as they are compiled on Linux, and
-- str_split. The standard library's mbstowcs, wcstombs and regular expressions are arguments.
mod Laws
mod Tests
use ocserver.Common.{
  ℕ, zero, suc, ◌+◌, ◌-◌, ◌%◌, ◌^◌, Bool, List, [], ◌∷◌, ◌++◌, Option, none, some, length, take,
  leb, ◌==◌, if◌then◌else◌,
}
use ocserver.Util.{c_string}

-- The characters of a C string in the other encoding, or none if it cannot be converted; `split` gives the
-- pieces between the matches of an expression, or none if that is none; the longest strings that can be
-- made.
pub record Locale : Type 0 where
  pub to_wide : List ℕ → Option (List ℕ)
  pub to_bytes : List ℕ → Option (List ℕ)
  pub split : List ℕ → List ℕ → Option (List (List ℕ))
  pub max_wide : ℕ
  pub max_bytes : ℕ

-- A character in front of what is left of the others.
abbrev pub keep : ℕ → List ℕ → List ℕ
keep c [] = if c == 0 then [] else c ∷ []
keep c (d ∷ ds) = c ∷ d ∷ ds

-- strip_trailing_nulls, of both kinds of strings: the loop takes zeros from the end.
unfoldable pub strip_trailing_nulls : List ℕ → List ℕ
strip_trailing_nulls [] = []
strip_trailing_nulls (c ∷ cs) = keep c (strip_trailing_nulls cs)

abbrev pub nulls : ℕ → List ℕ
nulls zero = []
nulls (suc n) = 0 ∷ nulls n

-- What mbstowcs and wcstombs return: the number of characters, or -1 as a size_t.
abbrev pub returned : Option (List ℕ) → ℕ
returned none = 2 ^ 64 - 1
returned (some cs) = length cs

-- A string of `sz` zeros, into which at most `sz` characters are converted, the terminating zero included.
abbrev pub converted : ℕ → Option (List ℕ) → List ℕ
converted sz none = nulls sz
converted sz (some cs) = take sz (cs ++ (0 ∷ []))

-- A string of `sz` zeros is made, which throws if it is too long (none), and converted into.
abbrev pub filled : ℕ → ℕ → Option (List ℕ) → Option (List ℕ)
filled max_size sz r =
    if leb sz max_size then some (strip_trailing_nulls (converted sz r)) else none

-- The two conversions, from a C string.
unfoldable pub convert : ℕ → (List ℕ → Option (List ℕ)) → List ℕ → Option (List ℕ)
unfolding strip_trailing_nulls
convert max_size f str = let r = f (c_string str) in filled max_size ((returned r + 1) % 2 ^ 64) r

module _ (locale : Locale) where
  open locale use {to_wide, to_bytes, split, max_wide, max_bytes}

  unfoldable pub utf8_to_wstr : List ℕ → Option (List ℕ)
  unfolding convert
  utf8_to_wstr str = convert max_wide to_wide str

  unfoldable pub wstr_to_utf8 : List ℕ → Option (List ℕ)
  unfolding convert
  wstr_to_utf8 wstr = convert max_bytes to_bytes wstr

  -- none is the exception of std::regex.
  unfoldable pub str_split : List ℕ → List ℕ → Option (List (List ℕ))
  str_split input regex = split regex input
