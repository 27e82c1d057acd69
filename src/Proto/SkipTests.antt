-- ===== src/Proto/SkipTests.antt =====
-- Core/src/proto.cpp: skipping and displaying concrete bytes.
use ocserver.Common.{
  ℕ, ◌+◌, ◌^◌, ◌<◌, ◌≡◌, refl, true, false, none, some, List, [], ◌∷◌, ◌++◌, length, codes, arith,
}
use ocserver.Proto.Types.{proto_struct_end}
use ocserver.Proto.Stream.{Stream, ok, at}
use ocserver.Proto.Out.{write_head, write_int, write_string}
use ocserver.Proto.In.Skip.{skip_to_struct_end}
use ocserver.Proto.Endless.{IsScalar, skip_to_struct_end_endless}
use ocserver.Proto.Out.{write_struct}
use ocserver.Proto.In.Skip.{read_struct}
use ocserver.Proto.In.Values.{read_int}
use ocserver.Proto.RoundTrip.Reads.{Reads}
use ocserver.Proto.RoundTrip.Integers.{write_int-Reads, int_value-ReadsInt}
use ocserver.Proto.Display.{Printers, Mode, do_display}
use ocserver.Proto.Display.Stuck.{at_head, do_display_stuck}
use ocserver.Proto.RoundTrip.Fields.{IsField, of_int, of_string}
use ocserver.Proto.RoundTrip.Structs.{
  AreFields, no_fields, one_more, skip_to_struct_end-AreFields, read_struct-write_struct,
}

abbrev greeting : List ℕ
greeting = 22 ∷ 2 ∷ codes "hi"

greeting-IsField : IsField 1 greeting
unfolding write_string write_head
greeting-IsField = of_string (codes "hi") greeting refl

-- An int and a string.
abbrev two_fields : List ℕ
two_fields = write_int 300 0 ++ (greeting ++ [])

two_fields-AreFields : AreFields 2 two_fields
two_fields-AreFields =
    one_more 1 0 (write_int 300 0) (greeting ++ []) (omega arith) (of_int 300)
      (one_more 0 1 greeting [] (omega arith) greeting-IsField no_fields)

two_fields-short :
    length ((1 ∷ []) ++ ((two_fields ++ write_head proto_struct_end 0) ++ (9 ∷ []))) < 2 ^ 31
unfolding write_int write_head
two_fields-short = omega arith

skip_to_struct_end-AreFields_run :
    let w = (1 ∷ []) ++ ((two_fields ++ write_head proto_struct_end 0) ++ (9 ∷ [])) in
    skip_to_struct_end 0 0 3 (at w 1 ((two_fields ++ write_head proto_struct_end 0) ++ (9 ∷ [])))
    ≡ ok true (at w (1 + length (two_fields ++ write_head proto_struct_end 0)) (9 ∷ []))
skip_to_struct_end-AreFields_run =
    skip_to_struct_end-AreFields 0 0 0 2 (1 ∷ []) two_fields (9 ∷ []) (omega arith)
      two_fields-AreFields two_fields-short

-- A structure whose readFrom reads the int only.
abbrev written : List ℕ
written = write_struct (write_int 300 0 ++ (greeting ++ [])) 5

int-Reads : Reads (read_int 0) (write_int 300 0) (0, 300)
unfolding read_int
int-Reads = write_int-Reads 0 (omega arith) 300 (omega arith) (int_value-ReadsInt 0)

written-short : length ((1 ∷ []) ++ (written ++ (9 ∷ []))) < 2 ^ 31
unfolding write_struct write_int write_head
written-short = omega arith

read_struct-write_struct_example :
    read_struct 0 (read_int 0) 0 2 (at ((1 ∷ []) ++ (written ++ (9 ∷ []))) 1 (written ++ (9 ∷ [])))
    ≡ ok (some (0, 300)) (at ((1 ∷ []) ++ (written ++ (9 ∷ []))) (1 + length written) (9 ∷ []))
read_struct-write_struct_example =
    read_struct-write_struct 0 0 5 1 (read_int 0) (0, 300) (write_int 300 0) (greeting ++ [])
      (1 ∷ []) (9 ∷ []) (omega arith) int-Reads
      (one_more 0 1 greeting [] (omega arith) greeting-IsField no_fields) written-short

-- Two zeros.
abbrev two_zeros : Stream
two_zeros = at (0 ∷ 0 ∷ []) 0 (0 ∷ 0 ∷ [])

zero_byte : IsScalar 0
zero_byte = record { tag = omega arith; type = omega arith }

skip_to_struct_end_endless_example :
    (s' : Stream) × (skip_to_struct_end 0 0 1000 two_zeros ≡ ok false s')
skip_to_struct_end_endless_example =
    skip_to_struct_end_endless 0 0 1000 two_zeros
      (record { whole = (zero_byte, (zero_byte, tt)); ahead = (zero_byte, (zero_byte, tt)) })

abbrev no_text : ℕ → List ℕ
no_text n = []

abbrev plain : Printers
plain = record {
  print_short = no_text;
  print_int = no_text;
  print_long = no_text;
  float_to_double = λ n. n;
  printer = record { print_unsigned = no_text; print_float = no_text; print_double = no_text };
  formats = record { print_hex = no_text; scan_hex = λ cs. 0 };
}

abbrev lines : Mode
lines = record { is_simple = false; b_sep = true; level = 0 }

stuck-short : length ((0 ∷ []) ++ (write_head 14 3 ++ (5 ∷ []))) < 2 ^ 31
unfolding write_head
stuck-short = omega arith

do_display_stuck_example :
    do_display 0 plain 1000 lines (at_head 14 3 (0 ∷ []) (5 ∷ []))
    ≡ ok none (at_head 14 3 (0 ∷ []) (5 ∷ []))
do_display_stuck_example =
    do_display_stuck 0 plain 1000 lines 14 3 (0 ∷ []) (5 ∷ []) (omega arith) (omega arith)
      (omega arith) stuck-short
