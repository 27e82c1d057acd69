-- ===== src/Proto/Types.antt =====
-- Core/src/proto.h: the types of a tagged value.
use ocserver.Common.{ℕ}

abbrev pub proto_byte : ℕ
proto_byte = 0

abbrev pub proto_short : ℕ
proto_short = 1

abbrev pub proto_int : ℕ
proto_int = 2

abbrev pub proto_long : ℕ
proto_long = 3

abbrev pub proto_float : ℕ
proto_float = 4

abbrev pub proto_double : ℕ
proto_double = 5

abbrev pub proto_string1 : ℕ
proto_string1 = 6

abbrev pub proto_string4 : ℕ
proto_string4 = 7

abbrev pub proto_map : ℕ
proto_map = 8

abbrev pub proto_list : ℕ
proto_list = 9

abbrev pub proto_struct_begin : ℕ
proto_struct_begin = 10

abbrev pub proto_struct_end : ℕ
proto_struct_end = 11

abbrev pub proto_zero_tag : ℕ
proto_zero_tag = 12

abbrev pub proto_simple_list : ℕ
proto_simple_list = 13

abbrev pub proto_max_string_length : ℕ
proto_max_string_length = 104857600
