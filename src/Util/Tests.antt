-- ===== src/Util/Tests.antt =====
-- Core/src/util.cpp: hexadecimal text of concrete bytes.
use ocserver.Common.{◌≡◌, [], ◌∷◌, arith}
use ocserver.Util.{string_to_string, string_to_vector, vector_to_string}
use ocserver.Util.Digits.{formats, formats-IsHex}
use ocserver.Util.RoundTrip.{string_to_vector-vector_to_string, string_to_string-vector_to_string}

string_to_vector-vector_to_string_run :
    string_to_vector formats (vector_to_string formats (0 ∷ 10 ∷ 255 ∷ [])) ≡ 0 ∷ 10 ∷ 255 ∷ []
string_to_vector-vector_to_string_run =
    string_to_vector-vector_to_string formats formats-IsHex (0 ∷ 10 ∷ 255 ∷ [])
      (omega arith, (omega arith, (omega arith, tt)))

string_to_string-vector_to_string_run :
    string_to_string formats (vector_to_string formats (7 ∷ 0 ∷ 255 ∷ [])) ≡ 7 ∷ []
string_to_string-vector_to_string_run =
    string_to_string-vector_to_string formats formats-IsHex (7 ∷ 0 ∷ 255 ∷ [])
      (omega arith, (omega arith, (omega arith, tt)))
