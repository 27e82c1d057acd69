-- ===== src/Proto/Tests.antt =====
-- Core/src/proto.cpp: runs of reads on written bytes, and the theorems at concrete values.
use ocserver.Common.{
  ℕ, ◌+◌, ◌-◌, ◌%◌, ◌^◌, ◌≡◌, refl, true, List, [], ◌∷◌, ◌++◌, some, length, drop, take, inl, arith,
}
use ocserver.Proto.Types.{proto_long, proto_int}
use ocserver.Proto.Stream.{ok, proto_error, displayed, at}
use ocserver.Proto.Out.{
  write_head, write_bool, write_short, write_int, write_long, write_unsigned, write_unsigned_short,
  write_string, write_bytes, write_list, write_map, put_int, put_long,
}
use ocserver.Proto.In.Values.{
  Printer, read_bool, read_short, read_int, read_long, read_unsigned, read_unsigned_short,
  read_bytes, read_list, read_map,
}
use ocserver.Proto.RoundTrip.Signed.{
  read_bool-write_bool, read_short-write_short, read_int-write_int, read_long-write_long,
}
use ocserver.Proto.RoundTrip.Unsigned.{
  read_unsigned_short-write_unsigned_short, read_unsigned-write_unsigned,
}
use ocserver.Proto.RoundTrip.Lists.{read_list-write_list}
use ocserver.Proto.RoundTrip.Maps.{read_map-write_map}
use ocserver.Proto.RoundTrip.Bytes.{read_bytes-write_bytes}
use ocserver.Proto.Out.{write_float, write_double}
use ocserver.Proto.In.Values.{read_float, read_double}
use ocserver.Proto.RoundTrip.Floats.{read_floats}
use ocserver.Proto.RoundTrip.Codecs.{int_codec, string_codec}

abbrev no_digits : Printer
no_digits = record { print_unsigned = λ n. []; print_float = λ n. []; print_double = λ n. [] }

-- The `int` -1 is written as a byte, and comes back as 255.
minus_one : read_int 0 (at [] 0 (write_int (2 ^ 32 - 1) 3)) ≡ ok (3, 255) (at [] 2 [])
unfolding read_int write_int
minus_one = refl

read_bool-write_bool_run :
    read_bool 0 (at [] 0 (write_bool true 4 ++ []))
    ≡ ok (1, true) (at [] (0 + length (write_bool true 4)) [])
read_bool-write_bool_run = read_bool-write_bool 0 4 (omega arith) [] [] 0 true

read_short-write_short_run :
    read_short 0 (at [] 5 (write_short 300 20 ++ (1 ∷ [])))
    ≡ ok (20, 300) (at [] (5 + length (write_short 300 20)) (1 ∷ []))
read_short-write_short_run =
    read_short-write_short 0 20 (omega arith) [] (1 ∷ []) 5 300 (omega arith)

read_int-write_int_run :
    read_int 0 (at [] 0 (write_int (2 ^ 32 - 1) 3 ++ []))
    ≡ ok (3, 255) (at [] (0 + length (write_int (2 ^ 32 - 1) 3)) [])
read_int-write_int_run = read_int-write_int 0 3 (omega arith) [] [] 0 (2 ^ 32 - 1) (omega arith)

read_long-write_long_example :
    read_long 0 (at [] 0 (write_long (2 ^ 64 - 300) 3 ++ []))
    ≡ ok (3, 2 ^ 16 - 300) (at [] (0 + length (write_long (2 ^ 64 - 300) 3)) [])
read_long-write_long_example =
    read_long-write_long 0 3 (omega arith) [] [] 0 (2 ^ 64 - 300) (omega arith)

read_unsigned_short-write_unsigned_short_run :
    read_unsigned_short 0 (at [] 0 (write_unsigned_short 40000 3 ++ []))
    ≡ proto_error (displayed (at [] (0 + length (write_head proto_int 3)) (put_int 40000 ++ [])))
read_unsigned_short-write_unsigned_short_run =
    read_unsigned_short-write_unsigned_short 0 3 (omega arith) [] [] 0 40000 (omega arith)

read_unsigned-write_unsigned_run :
    read_unsigned 0 (at [] 0 (write_unsigned (2 ^ 31) 3 ++ []))
    ≡ proto_error
        (displayed (at [] (0 + length (write_head proto_long 3)) (put_long (2 ^ 31) ++ [])))
read_unsigned-write_unsigned_run =
    read_unsigned-write_unsigned 0 3 (omega arith) [] [] 0 (2 ^ 31) (omega arith)

abbrev word : List ℕ
word = 104 ∷ 105 ∷ []

abbrev three : List ℕ
three = 7 ∷ 0 ∷ 300 ∷ []

abbrev three_bytes : List ℕ
three_bytes = 0x19 ∷ 0x00 ∷ 3 ∷ 0x00 ∷ 7 ∷ 0x0C ∷ 0x01 ∷ 1 ∷ 44 ∷ []

three_written : write_list (int_codec 0).write three 1 ≡ some three_bytes
unfolding write_list write_int
three_written = refl

read_list-write_list_example :
    read_list 0 (int_codec 0).read (at [] 0 (three_bytes ++ []))
    ≡ ok (1, three) (at [] (0 + length three_bytes) [])
read_list-write_list_example =
    read_list-write_list (int_codec 0) 0 1 three three_bytes [] [] 0 (omega arith) (omega arith)
      (omega arith, (omega arith, (omega arith, tt))) three_written

abbrev numbered : List (ℕ × List ℕ)
numbered = (1, word) ∷ []

abbrev numbered_bytes : List ℕ
numbered_bytes = 0x58 ∷ 0x00 ∷ 1 ∷ 0x00 ∷ 1 ∷ 0x16 ∷ 2 ∷ 104 ∷ 105 ∷ []

numbered_written :
    write_map (int_codec 0).write (string_codec 0 no_digits).write numbered 5 ≡ some numbered_bytes
unfolding write_map write_int write_string
numbered_written = refl

read_map-write_map_example :
    read_map
      (int_codec 0).read
      (string_codec 0 no_digits).read
      (λ k v m. (k, v) ∷ m)
      0
      []
      (at [] 0 (numbered_bytes ++ []))
    ≡ ok (5, numbered) (at [] (0 + length numbered_bytes) [])
read_map-write_map_example =
    read_map-write_map (int_codec 0) (string_codec 0 no_digits) (λ k v m. (k, v) ∷ m) refl refl 0 5
      numbered [] numbered_bytes [] [] 0 (omega arith) (omega arith)
      ((omega arith, inl (omega arith)), tt) numbered_written

read_bytes-write_bytes_run :
    read_bytes 0 (at [] 0 (write_bytes (5 ∷ 6 ∷ []) 2 ++ []))
    ≡ ok
        (2, take 2 (5 ∷ 6 ∷ []))
        (at []
          (0 + (length (write_bytes (5 ∷ 6 ∷ []) 2) - (2 - 2 % 256)))
          (drop (2 % 256) (5 ∷ 6 ∷ []) ++ []))
read_bytes-write_bytes_run = read_bytes-write_bytes 0 2 (5 ∷ 6 ∷ []) [] [] 0 (omega arith)

read_floats_run :
    (read_float 0 (at [] 0 (write_float 9 1 ++ []))
      ≡ ok (1, 9) (at [] (0 + length (write_float 9 1)) []))
    × (read_double 0 (λ n. n) (at [] 0 (write_double 8 1 ++ []))
        ≡ ok (1, 8) (at [] (0 + length (write_double 8 1)) []))
    × (read_double 0 (λ n. n) (at [] 0 (write_float 9 1 ++ []))
        ≡ ok (1, 9) (at [] (0 + length (write_float 9 1)) []))
read_floats_run = read_floats 0 (λ n. n) 1 9 8 [] [] 0 (omega arith) (omega arith) (omega arith)
