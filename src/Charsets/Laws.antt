-- ===== src/Charsets/Laws.antt =====
-- Core/src/charutils.cpp: a text that is converted and back.
use ocserver.Common.{
  ℕ, ◌+◌, ◌%◌, ◌^◌, ◌<◌, ◌≤◌, ◌≡◌, ◌≢◌, refl, ap, ◌∙◌, true, List, [], ◌∷◌, ◌++◌, Option, none,
  some, length, take_all, length-append, All, ==_iff, arith, leb, le→leb, if◌then◌else◌,
}
use ocserver.Util.{c_string}
use ocserver.Charsets.{
  Locale, keep, strip_trailing_nulls, returned, converted, filled, convert, utf8_to_wstr,
  wstr_to_utf8,
}

-- No character is zero.
abbrev pub IsNonzero : List ℕ → Type 0
IsNonzero cs = All (λ c. c ≢ 0) cs

c_string-IsNonzero : (cs : List ℕ) → IsNonzero cs → c_string cs ≡ cs
c_string-IsNonzero [] a = refl
c_string-IsNonzero (c ∷ cs) (n, a) = ground (arith, ==_iff c 0, c_string-IsNonzero cs a)

keep-nonzero : (c : ℕ) (cs : List ℕ) → c ≢ 0 → keep c cs ≡ c ∷ cs
keep-nonzero c [] n = ground (arith, ==_iff c 0)
keep-nonzero c (d ∷ cs) n = refl

strip-append_zero : (cs : List ℕ) → IsNonzero cs → strip_trailing_nulls (cs ++ (0 ∷ [])) ≡ cs
unfolding strip_trailing_nulls
strip-append_zero [] a = refl
strip-append_zero (c ∷ cs) (n, a) = ap (keep c) (strip-append_zero cs a) ∙ keep-nonzero c cs n

-- What a conversion is to give: the characters, and of a text that cannot be converted none.
abbrev pub characters : Option (List ℕ) → List ℕ
characters none = []
characters (some cs) = cs

-- The characters end at the terminating zero, and a string has room for both.
abbrev pub IsBounded : ℕ → (List ℕ → Option (List ℕ)) → Type 0
IsBounded max_size f =
    (str cs : List ℕ) → f str ≡ some cs → IsNonzero cs × (length cs + 1 ≤ max_size)

characters-IsNonzero :
    (max_size : ℕ) (f : List ℕ → Option (List ℕ)) (str : List ℕ) (r : Option (List ℕ))
    → IsBounded max_size f
    → f str ≡ r
    → IsNonzero (characters r)
characters-IsNonzero max_size f str none b e = tt
characters-IsNonzero max_size f str (some cs) b e = (b str cs e).0

-- The string that is made of a result has its characters.
filled-characters :
    (max_size : ℕ) (r : Option (List ℕ))
    → max_size < 2 ^ 64
    → ((cs : List ℕ) → r ≡ some cs → IsNonzero cs × (length cs + 1 ≤ max_size))
    → filled max_size ((returned r + 1) % 2 ^ 64) r ≡ some (characters r)
unfolding strip_trailing_nulls
filled-characters max_size none m b =
    let e : leb 0 max_size ≡ true = le→leb 0 max_size (omega arith) in
    ap (λ b. if b then some [] else none) e
filled-characters max_size (some cs) m b =
    let (n, l) = b cs refl in
    let e : (length cs + 1) % 2 ^ 64 ≡ length cs + 1 = omega arith in
    let room : leb (length cs + 1) max_size ≡ true = le→leb _ _ l in
    ap (λ sz. filled max_size sz (some cs)) e
    ∙ ap
        (λ b. if b then some (strip_trailing_nulls (converted (length cs + 1) (some cs))) else none)
        room
    ∙ ap (λ l. some (strip_trailing_nulls l))
        (take_all (length cs + 1) (cs ++ (0 ∷ [])) (omega (arith, length-append cs (0 ∷ []))))
    ∙ ap some (strip-append_zero cs n)

convert-characters :
    (max_size : ℕ) (f : List ℕ → Option (List ℕ)) (str : List ℕ)
    → max_size < 2 ^ 64
    → IsBounded max_size f
    → IsNonzero str
    → convert max_size f str ≡ some (characters (f str))
unfolding convert
convert-characters max_size f str m b a =
    ap (λ s. filled max_size ((returned (f s) + 1) % 2 ^ 64) (f s)) (c_string-IsNonzero str a)
    ∙ filled-characters max_size (f str) m (b str)

-- What is left of a text that is converted to wide characters and back.
abbrev pub and_back : Locale → Option (List ℕ) → Option (List ℕ)
and_back locale none = none
and_back locale (some wstr) = wstr_to_utf8 locale wstr

-- utf8_to_wstr and wstr_to_utf8, one after the other, throw nothing and give all the characters that
-- the locale makes of the text and of the wide text, whichever of the two conversions fails: of a text that
-- cannot be converted the empty string is left. Conditions: the text has no zero character, and neither
-- have converted texts, for which a string has room with the terminating zero.
pub wstr_to_utf8-utf8_to_wstr :
    (locale : Locale) (str : List ℕ)
    → locale.max_wide < 2 ^ 64
    → locale.max_bytes < 2 ^ 64
    → IsBounded locale.max_wide locale.to_wide
    → IsBounded locale.max_bytes locale.to_bytes
    → IsNonzero str
    → and_back locale (utf8_to_wstr locale str)
      ≡ some (characters (locale.to_bytes (characters (locale.to_wide str))))
unfolding wstr_to_utf8 utf8_to_wstr
wstr_to_utf8-utf8_to_wstr locale str mw mb bw bb a =
    ap (and_back locale) (convert-characters locale.max_wide locale.to_wide str mw bw a)
    ∙ convert-characters locale.max_bytes locale.to_bytes (characters (locale.to_wide str)) mb bb
        (characters-IsNonzero locale.max_wide locale.to_wide str (locale.to_wide str) bw refl)
