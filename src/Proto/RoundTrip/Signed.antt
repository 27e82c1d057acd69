-- ===== src/Proto/RoundTrip/Signed.antt =====
-- Core/src/proto.cpp: the signed numbers and the truth values, written and read back.
use ocserver.Common.{ℕ, ◌+◌, ◌^◌, ◌<◌, ◌≡◌, ap, Bool, true, false, List, ◌++◌, length}
use ocserver.Proto.Stream.{ok, at, continue}
use ocserver.Proto.Out.{write_bool, write_short, write_int, write_long}
use ocserver.Proto.In.Values.{read_bool, read_short, read_int, read_long}
use ocserver.Proto.RoundTrip.Integers.{
  zero_extended, char_value-ReadsChar, short_value-ReadsShort, int_value-ReadsInt,
  long_value-ReadsLong, write_char-Reads, write_short-Reads, write_int-Reads, write_long-Reads,
}

module _ (u tag : ℕ) (k : tag < 128) (w xs : List ℕ) (p : ℕ) where
  -- A truth value is read back, but the tag that is returned is 1, whatever it was.
  -- The tag is below 128.
  pub read_bool-write_bool :
      (b : Bool)
      → read_bool u (at w p (write_bool b tag ++ xs))
        ≡ ok (1, b) (at w (p + length (write_bool b tag)) xs)
  unfolding read_bool write_bool
  read_bool-write_bool true =
      ap (continue _) ((write_char-Reads tag k 1 (char_value-ReadsChar u)).run w p xs)
  read_bool-write_bool false =
      ap (continue _) ((write_char-Reads tag k 0 (char_value-ReadsChar u)).run w p xs)

  -- A `short` is read back with its tag if it is not negative; a negative one of a byte's range comes
  -- back as the byte, its sign not extended.
  -- The tag is below 128.
  pub read_short-write_short :
      (n : ℕ)
      → n < 2 ^ 16
      → read_short u (at w p (write_short n tag ++ xs))
        ≡ ok (tag, zero_extended 16 n) (at w (p + length (write_short n tag)) xs)
  unfolding read_short
  read_short-write_short n h = (write_short-Reads tag k n h (short_value-ReadsShort u)).run w p xs

  -- An `int` is read back with its tag if it is not negative or needs all four bytes; a shorter
  -- negative one comes back as the bit pattern of a byte or a `short`.
  -- The tag is below 128.
  pub read_int-write_int :
      (n : ℕ)
      → n < 2 ^ 32
      → read_int u (at w p (write_int n tag ++ xs))
        ≡ ok (tag, zero_extended 32 n) (at w (p + length (write_int n tag)) xs)
  unfolding read_int
  read_int-write_int n h = (write_int-Reads tag k n h (int_value-ReadsInt u)).run w p xs

  -- A `long` is read back with its tag if it is not negative or needs all eight bytes; a shorter
  -- negative one comes back as the bit pattern of a byte, a `short` or an `int`.
  -- The tag is below 128.
  pub read_long-write_long :
      (n : ℕ)
      → n < 2 ^ 64
      → read_long u (at w p (write_long n tag ++ xs))
        ≡ ok (tag, zero_extended 64 n) (at w (p + length (write_long n tag)) xs)
  unfolding read_long
  read_long-write_long n h = (write_long-Reads tag k n h (long_value-ReadsLong u)).run w p xs
