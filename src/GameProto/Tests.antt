-- ===== src/GameProto/Tests.antt =====
-- src/gameproto.cpp: ParsePacket on concrete data.
use ocserver.Common.{ℕ, zero, suc, ◌≡◌, refl, List, [], ◌∷◌, ◌++◌, some, inl, arith}
use ocserver.Wire.{NetPacket}
use ocserver.Proto.Out.{write_unsigned, write_string, write_map}
use ocserver.Proto.In.Values.{Printer}
use ocserver.GameProto.{HashMap, new_msg, posted, thrown, parse_packet}
use ocserver.GameProto.Messages.{
  message_bytes, message, parse_packet-message_bytes, parse_packet_throws,
}

abbrev printer : Printer
printer = record { print_unsigned = λ n. n ∷ []; print_float = λ n. []; print_double = λ n. [] }

abbrev command : List ℕ
command = 104 ∷ 105 ∷ []

abbrev attributes : HashMap
attributes = (107 ∷ [], 118 ∷ []) ∷ []

abbrev data_bytes : List ℕ
data_bytes =
    0x00 ∷ 7 ∷ 0x16 ∷ 2 ∷ 104 ∷ 105 ∷ 0x20 ∷ 1 ∷ 0x38 ∷ 0x00 ∷ 1 ∷ 0x06 ∷ 1 ∷ 107 ∷ 0x16 ∷ 1 ∷ 118
    ∷ []

abbrev packet_of : ℕ → NetPacket
packet_of n = record { version = 1; header = 0x0C; tail = 0xEA; type = 2; datalen = n }

data_written : message_bytes 7 command 1 attributes ≡ some data_bytes
unfolding write_unsigned write_string write_map
data_written = refl

parse_packet-message_bytes_example :
    parse_packet 0 printer 5 (packet_of 17) (data_bytes ++ (0xEA ∷ []))
    ≡ posted (
        message 0 printer
          (new_msg 5 (packet_of 17) (data_bytes ++ (0xEA ∷ [])))
          7
          command
          1
          attributes)
parse_packet-message_bytes_example =
    parse_packet-message_bytes 0 printer 5 (packet_of 17) 7 command 1 attributes data_bytes
      (0xEA ∷ []) (omega arith) (inl (omega arith)) (omega arith) (omega arith)
      ((inl (omega arith), inl (omega arith)), tt) data_written refl

abbrev repeated : ℕ → List ℕ
repeated zero = []
repeated (suc n) = 65 ∷ repeated n

abbrev long_command : List ℕ
long_command = repeated 128

abbrev long_bytes : List ℕ
long_bytes = 0x00 ∷ 7 ∷ 0x16 ∷ 128 ∷ (long_command ++ (0x20 ∷ 1 ∷ 0x38 ∷ 0x0C ∷ []))

long_written : message_bytes 7 long_command 1 [] ≡ some long_bytes
unfolding write_unsigned write_string write_map
long_written = refl

parse_packet_throws_example :
    parse_packet 0 printer 5 (packet_of 136) (long_bytes ++ (0xEA ∷ [])) ≡ thrown
parse_packet_throws_example =
    parse_packet_throws 0 printer 5 (packet_of 136) 7 long_command 1 [] long_bytes (0xEA ∷ [])
      (omega arith) (omega arith) (omega arith) long_written refl
