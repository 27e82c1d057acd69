-- ===== src/Proto/In/Values.antt =====
-- Core/src/proto.h and Core/src/proto.cpp, class ProtoIn: one `read` for each type.
use ocserver.Common.{
  ℕ, zero, suc, ◌+◌, ◌-◌, ◌^◌, Bool, not, List, [], ◌∷◌, ltb, ◌==◌, if◌then◌else◌, ◌&&◌, ◌*◌,
}
use ocserver.Proto.Types.{
  proto_byte, proto_short, proto_int, proto_long, proto_float, proto_double, proto_string1,
  proto_string4, proto_map, proto_list, proto_zero_tag, proto_simple_list, proto_max_string_length,
}
use ocserver.Proto.Stream.{length_error, P, ◌>>=◌, return, error, get, read_chars}
use ocserver.Proto.In.{
  ProtoHead, read_head, get_char, get_short, get_int, get_long, get_float, get_double,
}

-- A value of the head's type, with the head's tag.
abbrev pub tagged {ℓ} : {A : Type ℓ} → (ProtoHead → P A) → P (ℕ × A)
tagged value = do head ← read_head; v ← value head; return (head.tag, v)

-- The chains of tests on the type, each longer by one; `u` is what an uninitialised `char` holds.
module _ (u : ℕ) where
  unfoldable pub char_value : ProtoHead → P ℕ
  unfolding get_char
  char_value head =
      if head.type == proto_zero_tag
      then return 0
      else if head.type == proto_byte
      then get_char u
      else error

  unfoldable pub short_value : ProtoHead → P ℕ
  unfolding get_char get_short
  short_value head =
      if head.type == proto_zero_tag
      then return 0
      else if head.type == proto_byte
      then get_char u
      else if head.type == proto_short
      then get_short u
      else error

  unfoldable pub int_value : ProtoHead → P ℕ
  unfolding get_char get_short get_int
  int_value head =
      if head.type == proto_zero_tag
      then return 0
      else if head.type == proto_byte
      then get_char u
      else if head.type == proto_short
      then get_short u
      else if head.type == proto_int
      then get_int u
      else error

  unfoldable pub long_value : ProtoHead → P ℕ
  unfolding get_char get_short get_int get_long
  long_value head =
      if head.type == proto_zero_tag
      then return 0
      else if head.type == proto_byte
      then get_char u
      else if head.type == proto_short
      then get_short u
      else if head.type == proto_int
      then get_int u
      else if head.type == proto_long
      then get_long u
      else error

  unfoldable pub float_value : ProtoHead → P ℕ
  unfolding get_float
  float_value head =
      if head.type == proto_zero_tag
      then return 0
      else if head.type == proto_float
      then get_float u
      else error

module _ (u : ℕ) where
  unfoldable pub read_char : P (ℕ × ℕ)
  unfolding char_value read_head
  read_char = tagged (char_value u)

  -- The code returns `true`, whatever the tag.
  unfoldable pub read_bool : P (ℕ × Bool)
  unfolding char_value read_head
  read_bool = do (tag, a) ← tagged (char_value u); return (1, not (a == 0))

  unfoldable pub read_short : P (ℕ × ℕ)
  unfolding short_value read_head
  read_short = tagged (short_value u)

  unfoldable pub read_unsigned_short : P (ℕ × ℕ)
  unfolding short_value read_head
  read_unsigned_short = tagged (short_value u)

  unfoldable pub read_int : P (ℕ × ℕ)
  unfolding int_value read_head
  read_int = tagged (int_value u)

  unfoldable pub read_unsigned : P (ℕ × ℕ)
  unfolding int_value read_head
  read_unsigned = tagged (int_value u)

  unfoldable pub read_long : P (ℕ × ℕ)
  unfolding long_value read_head
  read_long = tagged (long_value u)

  unfoldable pub read_float : P (ℕ × ℕ)
  unfolding float_value read_head
  read_float = tagged (float_value u)

-- `double` of a `float` is the hardware's conversion of bit patterns.
module _ (u : ℕ) (to_double : ℕ → ℕ) where
  unfoldable pub double_value : ProtoHead → P ℕ
  unfolding get_float get_double
  double_value head =
      if head.type == proto_zero_tag
      then return 0
      else if head.type == proto_float
      then (do f ← get_float u; return (to_double f))
      else if head.type == proto_double
      then get_double u
      else error

  unfoldable pub read_double : P (ℕ × ℕ)
  unfolding double_value read_head
  read_double = tagged double_value

-- `get_string` of an `int`: a negative length becomes a huge one, and the string throws.
unfoldable pub get_string : ℕ → P (List ℕ)
unfolding read_chars
get_string length s = if ltb length (2 ^ 31) then read_chars length s else length_error

-- A `char` as an `int`: the sign is extended.
abbrev pub char_to_int : ℕ → ℕ
char_to_int c = if ltb c 128 then c else c + 2 ^ 32 - 256

-- `len > Proto_MAX_STRING_LENGTH`, of an `int`.
unfoldable pub limited_string : ℕ → P (List ℕ)
unfolding get_string
limited_string len =
    if ltb proto_max_string_length len && ltb len (2 ^ 31) then error else get_string len

-- How `operator<<` prints an unsigned number, a `float` and a `double`: the standard library's.
pub record Printer : Type 0 where
  pub print_unsigned : ℕ → List ℕ
  pub print_float : ℕ → List ℕ
  pub print_double : ℕ → List ℕ

module _ (u : ℕ) (printer : Printer) where
  open printer use {print_unsigned, print_float, print_double}

  -- A number is read as its text, and a value of any other type as the empty string.
  unfoldable pub number_text : ProtoHead → P (List ℕ)
  unfolding get_char get_short get_int get_long get_float get_double
  number_text head =
      if head.type == proto_byte
      then (do c ← get_char u; return (c ∷ []))
      else if head.type == proto_short
      then (do n ← get_short u; return (print_unsigned n))
      else if head.type == proto_int
      then (do n ← get_int u; return (print_unsigned n))
      else if head.type == proto_long
      then (do n ← get_long u; return (print_unsigned n))
      else if head.type == proto_float
      then (do f ← get_float u; return (print_float f))
      else if head.type == proto_double
      then (do f ← get_double u; return (print_double f))
      else return []

  -- The four bytes of a long string's length are stored into a zero `int` one by one.
  unfoldable pub string_value : ProtoHead → P (List ℕ)
  unfolding get limited_string number_text
  string_value head =
      if head.type == proto_zero_tag
      then return []
      else if head.type == proto_string1
      then (do a ← get u; limited_string (char_to_int a))
      else if head.type == proto_string4
      then (do
        a ← get 0
        b ← get 0
        c ← get 0
        d ← get 0
        limited_string (a * 2 ^ 24 + b * 2 ^ 16 + c * 2 ^ 8 + d))
      else number_text head

  unfoldable pub read_string : P (ℕ × List ℕ)
  unfolding string_value read_head
  read_string = tagged string_value

-- The rounds of `for( int i = 0; i < len; i++ )`.
abbrev pub rounds : ℕ → ℕ
rounds len = if ltb len (2 ^ 31) then len else 0

unfoldable pub get_chars : ℕ → ℕ → P (List ℕ)
unfolding get
get_chars zero a = return []
get_chars (suc n) a = do a' ← get a; cs ← get_chars n a'; return (a' ∷ cs)

-- `std::vector<char>`: a value of another type than SIMPLE_LIST is no error, and read as one.
abbrev pub element_head : ProtoHead → P ProtoHead
element_head head = if head.type == proto_simple_list then read_head else return head

unfoldable pub bytes_body : ℕ → P (List ℕ)
unfolding read_int get_chars
bytes_body u = do (tag, len) ← read_int u; get_chars (rounds len) u

unfoldable pub read_bytes : ℕ → P (ℕ × List ℕ)
unfolding read_head bytes_body
read_bytes u = do
  head ← read_head
  ihead ← element_head head
  bl ←
      if head.type == proto_simple_list && not (ihead.type == proto_byte)
      then error
      else bytes_body u
  return (head.tag, bl)

-- The loop over the elements of a vector.
unfoldable pub read_each {ℓ} : {A : Type ℓ} → P (ℕ × A) → ℕ → P (List A)
read_each element zero = return []
read_each element (suc n) = do (tag, x) ← element; xs ← read_each element n; return (x ∷ xs)

-- The code returns `true`, whatever the tag.
unfoldable pub list_body {ℓ} : {A : Type ℓ} → ℕ → P (ℕ × A) → P (ℕ × List A)
unfolding read_int read_each
list_body u element = do
  (tag, len) ← read_int u
  v ← if ltb len (2 ^ 31) then read_each element len else error
  return (1, v)

unfoldable pub read_list {ℓ} : {A : Type ℓ} → ℕ → P (ℕ × A) → P (ℕ × List A)
unfolding read_head list_body
read_list u element = do
  head ← read_head
  if head.type == proto_list then list_body u element else error

-- A key whose tag is not 0 has no value behind it; a value whose tag is not 1 is dropped. `store` is
-- the map's `operator[]` and assignment.
module _ {ℓ κ μ} {K : Type ℓ} {V : Type κ} {M : Type μ} (key : P (ℕ × K)) (value : P (ℕ × V))
    (store : K → V → M → M) where
  unfoldable pub read_value : K → M → P M
  read_value k m = do (tag, v) ← value; return (if tag == 1 then store k v m else m)

  unfoldable pub read_entries : ℕ → M → P M
  unfolding read_value
  read_entries zero m = return m
  read_entries (suc n) m = do
    (tag, k) ← key
    m' ← if tag == 0 then read_value k m else return m
    read_entries n m'

  unfoldable pub map_body : ℕ → M → P M
  unfolding read_int read_entries
  map_body u empty = do (tag, len) ← read_int u; read_entries (rounds len) empty

  unfoldable pub read_map : ℕ → M → P (ℕ × M)
  unfolding read_head map_body
  read_map u empty = do
    head ← read_head
    m ← if head.type == proto_map then map_body u empty else error
    return (head.tag, m)
