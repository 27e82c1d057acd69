-- ===== src/Proto/Out.antt =====
-- Core/src/proto.h and Core/src/proto.cpp, class ProtoOut: the bytes that each `write` puts on the
-- stream. The host is little-endian, so the loops over `p[j]` put the highest byte first.
-- A signed value is its bit pattern: the negative ones are the upper half of the range.
use ocserver.Common.{
  ℕ, ◌+◌, ◌-◌, ◌*◌, ◌/◌, ◌%◌, ◌^◌, Bool, false, ◌||◌, List, [], ◌∷◌, ◌++◌, Option, none, some,
  length, take, ltb, leb, ◌==◌, if◌then◌else◌,
}
use mathlib.Core.Option
use ocserver.Proto.Types.{
  proto_byte, proto_short, proto_int, proto_long, proto_float, proto_double, proto_string1,
  proto_string4, proto_map, proto_list, proto_struct_begin, proto_struct_end, proto_zero_tag,
  proto_simple_list, proto_max_string_length,
}

-- `tag < 15` holds of the negative tags too. A type is below 16, so `|` adds it.
unfoldable pub write_head : ℕ → ℕ → List ℕ
write_head type tag =
    if ltb tag 15 || leb 128 tag then (tag * 16 % 256 + type) ∷ [] else (type + 240) ∷ tag ∷ []

unfoldable pub write_char : ℕ → ℕ → List ℕ
unfolding write_head
write_char c tag =
    if c == 0 then write_head proto_zero_tag tag else write_head proto_byte tag ++ (c ∷ [])

unfoldable pub write_bool : Bool → ℕ → List ℕ
unfolding write_char
write_bool b tag = write_char (if b then 1 else 0) tag

-- `s < SCHAR_MIN || s > SCHAR_MAX`, and its likes for the wider types.
abbrev pub is_wide : ℕ → ℕ → ℕ → Bool
is_wide bits narrow n =
    if ltb n (2 ^ (narrow - 1)) then false else ltb n (2 ^ bits - 2 ^ (narrow - 1))

abbrev pub put_short : ℕ → List ℕ
put_short n = n / 2 ^ 8 % 256 ∷ n % 256 ∷ []

abbrev pub put_int : ℕ → List ℕ
put_int n = n / 2 ^ 24 % 256 ∷ n / 2 ^ 16 % 256 ∷ n / 2 ^ 8 % 256 ∷ n % 256 ∷ []

abbrev pub put_long : ℕ → List ℕ
put_long n = n / 2 ^ 56 % 256 ∷ n / 2 ^ 48 % 256 ∷ n / 2 ^ 40 % 256 ∷ n / 2 ^ 32 % 256 ∷ put_int n

unfoldable pub write_short : ℕ → ℕ → List ℕ
unfolding write_char
write_short n tag =
    if is_wide 16 8 n then write_head proto_short tag ++ put_short n else write_char (n % 2 ^ 8) tag

unfoldable pub write_int : ℕ → ℕ → List ℕ
unfolding write_short
write_int n tag =
    if is_wide 32 16 n then write_head proto_int tag ++ put_int n else write_short (n % 2 ^ 16) tag

unfoldable pub write_unsigned_short : ℕ → ℕ → List ℕ
unfolding write_int
write_unsigned_short n tag = write_int n tag

unfoldable pub write_long : ℕ → ℕ → List ℕ
unfolding write_int
write_long n tag =
    if is_wide 64 32 n then write_head proto_long tag ++ put_long n else write_int (n % 2 ^ 32) tag

unfoldable pub write_unsigned : ℕ → ℕ → List ℕ
unfolding write_long
write_unsigned n tag = write_long n tag

-- A `float` and a `double` are their bit patterns.
unfoldable pub write_float : ℕ → ℕ → List ℕ
unfolding write_head
write_float n tag = write_head proto_float tag ++ put_int n

unfoldable pub write_double : ℕ → ℕ → List ℕ
unfolding write_head
write_double n tag = write_head proto_double tag ++ put_long n

-- The length as an int, which is cut to 32 bits. `none` is the `ProtoError`, and also a negative length, for
-- which the stream is asked to write a negative number of characters: it writes none and goes bad,
-- so that nothing behind it is written either.
unfoldable pub write_string : List ℕ → ℕ → Option (List ℕ)
unfolding write_head
write_string s tag =
    let len = length s % 2 ^ 32 in
    if ltb len (2 ^ 31)
    then (if ltb proto_max_string_length len
        then none
        else if ltb 255 len
        then some (write_head proto_string4 tag ++ (put_int len ++ take len s))
        else some (write_head proto_string1 tag ++ ((len % 256) ∷ take len s)))
    else none

-- `std::vector<char>`: the size is cast to a `char`.
unfoldable pub write_bytes : List ℕ → ℕ → List ℕ
unfolding write_head write_char
write_bytes v tag =
    write_head proto_simple_list tag
    ++ (write_head proto_byte 0 ++ (write_char (length v % 256) 0 ++ v))

-- Writes one after the other; an element that throws ends them all.
infixr 5 ◌then_write◌
abbrev pub ◌then_write◌ : Option (List ℕ) → Option (List ℕ) → Option (List ℕ)
none then_write ys = none
some xs then_write ys = Option.map (λ zs. xs ++ zs) ys

-- The loop over the elements of a vector.
unfoldable pub write_each {ℓ} : {A : Type ℓ} → (A → ℕ → Option (List ℕ)) → List A → Option (List ℕ)
write_each write [] = some []
write_each write (x ∷ xs) = write x 0 then_write write_each write xs

unfoldable pub write_list {ℓ} :
    {A : Type ℓ} → (A → ℕ → Option (List ℕ)) → List A → ℕ → Option (List ℕ)
unfolding write_head write_int write_each
write_list write v tag =
    some (write_head proto_list (tag % 256) ++ write_int (length v % 2 ^ 32) 0)
    then_write write_each write v

-- The loop over the entries of a map.
unfoldable pub write_entries {ℓ κ} :
    {K : Type ℓ} {V : Type κ}
    → (K → ℕ → Option (List ℕ))
    → (V → ℕ → Option (List ℕ))
    → List (K × V)
    → Option (List ℕ)
write_entries write_key write_value [] = some []
write_entries write_key write_value ((k, v) ∷ m) =
    write_key k 0 then_write write_value v 1 then_write write_entries write_key write_value m

unfoldable pub write_map {ℓ κ} :
    {K : Type ℓ} {V : Type κ}
    → (K → ℕ → Option (List ℕ))
    → (V → ℕ → Option (List ℕ))
    → List (K × V)
    → ℕ
    → Option (List ℕ)
unfolding write_head write_int write_entries
write_map write_key write_value m tag =
    some (write_head proto_map (tag % 256) ++ write_int (length m % 2 ^ 32) 0)
    then_write write_entries write_key write_value m

-- A structure writes its own fields between two heads.
unfoldable pub write_struct : List ℕ → ℕ → List ℕ
unfolding write_head
write_struct fields tag =
    write_head proto_struct_begin tag ++ (fields ++ write_head proto_struct_end tag)
