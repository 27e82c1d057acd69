-- ===== src/Util.antt =====
-- Core/src/util.cpp: bytes as hexadecimal text and back.
-- `sprintf( tmp, "%x", b )` and `sscanf( tmp, "%x", &out )` are the standard library's.
pub mod RoundTrip
pub mod Digits
pub mod Buffers
mod Tests
use ocserver.Common.{
  ℕ, zero, suc, ◌+◌, ◌*◌, ◌%◌, List, [], ◌∷◌, ◌++◌, length, take, ◌==◌, if◌then◌else◌,
}

pub record Formats : Type 0 where
  pub print_hex : ℕ → List ℕ
  pub scan_hex : List ℕ → ℕ

abbrev pub zero_char : ℕ
zero_char = 48

-- The C string at the start of a buffer that zeros follow.
abbrev pub c_string : List ℕ → List ℕ
c_string [] = []
c_string (c ∷ cs) = if c == 0 then [] else c ∷ c_string cs

module _ (formats : Formats) where
  open formats use {print_hex, scan_hex}

  -- The two characters of a byte.
  unfoldable pub byte_text : ℕ → List ℕ
  byte_text b =
      if length (print_hex b) == 1
      then zero_char ∷ take 1 (print_hex b)
      else if length (print_hex b) == 2
      then take 2 (print_hex b)
      else zero_char ∷ zero_char ∷ []

  -- Buffer2String appends to the text in `dest`.
  unfoldable pub buffer_to_string : List ℕ → List ℕ → List ℕ
  unfolding byte_text
  buffer_to_string [] dest = dest
  buffer_to_string (b ∷ src) dest = buffer_to_string src (dest ++ byte_text b)

  -- The loop of String2Buffer, two characters a round.
  unfoldable pub scan_pairs : List ℕ → List ℕ
  scan_pairs (x ∷ y ∷ src) = scan_hex (x ∷ y ∷ []) % 256 ∷ scan_pairs src
  scan_pairs _ = []

  -- String2Buffer: what it writes to `dest`; nothing if the length is odd.
  unfoldable pub string_to_buffer : List ℕ → List ℕ
  unfolding scan_pairs
  string_to_buffer src = if length src % 2 == 0 then scan_pairs src else []

  -- The overload that stores a `std::string`, made of the buffer as a C string.
  unfoldable pub string_to_string : List ℕ → List ℕ
  unfolding string_to_buffer
  string_to_string src = c_string (string_to_buffer src)

  -- The overload that stores a `std::vector<char>`, and the one that reads it.
  unfoldable pub string_to_vector : List ℕ → List ℕ
  unfolding string_to_buffer
  string_to_vector src = string_to_buffer src

  unfoldable pub vector_to_string : List ℕ → List ℕ
  unfolding buffer_to_string
  vector_to_string src = buffer_to_string src []

  -- The overloads that store the text of a buffer, and of a string.
  unfoldable pub chars_to_string : List ℕ → List ℕ
  unfolding buffer_to_string
  chars_to_string src = c_string (buffer_to_string src [])

  unfoldable pub string_to_text : List ℕ → List ℕ
  unfolding chars_to_string
  string_to_text src = chars_to_string src
