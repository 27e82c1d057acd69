-- ===== src/Util/RoundTrip.antt =====
-- Core/src/util.cpp: String2Buffer reads back what Buffer2String wrote.
use ocserver.Common.{
  ℕ, subst, ◌≢◌, ◌*◌, ◌%◌, ◌<◌, ◌≤◌, ◌≡◌, refl, ap, ◌∙◌, sym, List, [], ◌∷◌, ◌++◌, length,
  length-append, All, arith, append_assoc, append-nil, ==_iff, ltb, ltb→lt, not_ltb→le, Bool-cases,
  inl, inr,
}
use ocserver.Wire.{IsByte}
use ocserver.Util.{
  Formats, zero_char, byte_text, buffer_to_string, scan_pairs, string_to_buffer, chars_to_string,
  string_to_string, string_to_vector, vector_to_string, c_string,
}

-- `%x` prints the digits without leading zeros, and reads digits with or without them.
pub record IsHex (formats : Formats) : Type 0 where
  pub one_digit :
      (b : ℕ)
      → b < 16
      → (c : ℕ) × (formats.print_hex b ≡ c ∷ []) × (formats.scan_hex (zero_char ∷ c ∷ []) ≡ b)
  pub two_digits :
      (b : ℕ)
      → 16 ≤ b
      → b < 256
      → (c : ℕ) × (d : ℕ) × (formats.print_hex b ≡ c ∷ d ∷ []) × (formats.scan_hex (c ∷ d ∷ []) ≡ b)

-- `%x` prints no zero character.
pub record IsText (formats : Formats) : Type 0 where
  pub no_zero : (b : ℕ) → b < 256 → All (λ c. c ≢ 0) (formats.print_hex b)

module _ (formats : Formats) (h : IsHex formats) where
  byte_text-scan :
      (b : ℕ)
      → IsByte b
      → (c : ℕ) × (d : ℕ) × (byte_text formats b ≡ c ∷ d ∷ []) × (formats.scan_hex (c ∷ d ∷ []) ≡ b)
  unfolding byte_text
  byte_text-scan b k = elim (Bool-cases (ltb b 16)) [
    | inl y ↦ let (c, e, f) = h.one_digit b (ltb→lt _ _ y) in (zero_char, c, rw e refl, f)
    | inr n ↦ let (c, d, e, f) = h.two_digits b (not_ltb→le _ _ n) k in (c, d, rw e refl, f)
  ]

  abbrev texts : List ℕ → List ℕ
  texts [] = []
  texts (b ∷ bs) = byte_text formats b ++ texts bs

  buffer_to_string-texts :
      (src dest : List ℕ) → buffer_to_string formats src dest ≡ dest ++ texts src
  unfolding buffer_to_string
  buffer_to_string-texts [] dest = sym (append-nil dest)
  buffer_to_string-texts (b ∷ src) dest =
      buffer_to_string-texts src (dest ++ byte_text formats b)
      ∙ append_assoc dest (byte_text formats b) (texts src)

  scan_pairs-texts : (src : List ℕ) → All IsByte src → scan_pairs formats (texts src) ≡ src
  unfolding scan_pairs
  scan_pairs-texts [] a = refl
  scan_pairs-texts (b ∷ src) (k, a) =
      let (c, d, e, f) = byte_text-scan b k in
      ap (λ t. scan_pairs formats (t ++ texts src)) e
      ∙ ap (λ n. n % 256 ∷ scan_pairs formats (texts src)) f
      ∙ ap (λ xs. b % 256 ∷ xs) (scan_pairs-texts src a)
      ∙ ap (λ n. n ∷ src) (omega arith)

  length-texts : (src : List ℕ) → All IsByte src → length (texts src) ≡ 2 * length src
  length-texts [] a = refl
  length-texts (b ∷ src) (k, a) =
      let (c, d, e, f) = byte_text-scan b k in
      omega
        (arith, length-append (byte_text formats b) (texts src), ap length e, length-texts src a)

  string_to_buffer-texts :
      (src : List ℕ) → All IsByte src → string_to_buffer formats (texts src) ≡ src
  unfolding string_to_buffer
  string_to_buffer-texts src a =
      let t = (==_iff (length (texts src) % 2) 0).1 (omega (arith, length-texts src a)) in
      rw t (scan_pairs-texts src a)

  -- Bytes written as text by Buffer2String are read back by the String2Buffer that stores a vector,
  -- if the formats are the hexadecimal digits.
  pub string_to_vector-vector_to_string :
      (src : List ℕ)
      → All IsByte src
      → string_to_vector formats (vector_to_string formats src) ≡ src
  unfolding string_to_vector vector_to_string
  string_to_vector-vector_to_string src a =
      ap (string_to_buffer formats) (buffer_to_string-texts src []) ∙ string_to_buffer-texts src a

  -- Of bytes written as text, the String2Buffer that stores a string gives those up to the first zero
  -- only, if the formats are the hexadecimal digits.
  pub string_to_string-vector_to_string :
      (src : List ℕ)
      → All IsByte src
      → string_to_string formats (vector_to_string formats src) ≡ c_string src
  unfolding string_to_string vector_to_string
  string_to_string-vector_to_string src a =
      ap (λ t. c_string (string_to_buffer formats t)) (buffer_to_string-texts src [])
      ∙ ap (c_string) (string_to_buffer-texts src a)

  module _ (t : IsText formats) where
    byte_text-nonzero : (b : ℕ) → IsByte b → All (λ c. c ≢ 0) (byte_text formats b)
    unfolding byte_text
    byte_text-nonzero b k = elim (Bool-cases (ltb b 16)) [
      | inl y ↦
          let (c, e, f) = h.one_digit b (ltb→lt _ _ y) in
          let z = subst (All (λ c. c ≢ 0)) e (t.no_zero b k) in
          rw e ((λ p. absurd (omega arith)), (z.0, tt))
      | inr n ↦
          let (c, d, e, f) = h.two_digits b (not_ltb→le _ _ n) k in
          let z = subst (All (λ c. c ≢ 0)) e (t.no_zero b k) in rw e z
    ]

    c_string-append :
        (xs ys : List ℕ) → All (λ c. c ≢ 0) xs → c_string (xs ++ ys) ≡ xs ++ c_string ys
    c_string-append [] ys a = refl
    c_string-append (x ∷ xs) ys (n, a) = ground (arith, c_string-append xs ys a, ==_iff x 0)

    c_string-texts : (src : List ℕ) → All IsByte src → c_string (texts src) ≡ texts src
    c_string-texts [] a = refl
    c_string-texts (b ∷ src) (k, a) =
        c_string-append (byte_text formats b) (texts src) (byte_text-nonzero b k)
        ∙ ap (λ s. byte_text formats b ++ s) (c_string-texts src a)

    chars_to_string-texts :
        (src : List ℕ) → All IsByte src → chars_to_string formats src ≡ texts src
    unfolding chars_to_string
    chars_to_string-texts src a =
        ap (c_string) (buffer_to_string-texts src []) ∙ c_string-texts src a

    -- Bytes that the Buffer2String for char pointers and strings wrote are read back by String2Buffer.
    pub string_to_buffer-chars_to_string :
        (src : List ℕ)
        → All IsByte src
        → string_to_buffer formats (chars_to_string formats src) ≡ src
    string_to_buffer-chars_to_string src a =
        ap (string_to_buffer formats) (chars_to_string-texts src a) ∙ string_to_buffer-texts src a

    -- Two characters for each byte.
    pub length-chars_to_string :
        (src : List ℕ) → All IsByte src → length (chars_to_string formats src) ≡ 2 * length src
    length-chars_to_string src a = ap length (chars_to_string-texts src a) ∙ length-texts src a
