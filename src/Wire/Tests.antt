-- ===== src/Wire/Tests.antt =====
-- The theorems on headers at concrete values.
use ocserver.Common.{◌^◌, ◌*◌, ◌+◌, ◌≡◌, [], ◌∷◌, ◌++◌, some, arith}
use ocserver.Wire.{NetPacket, int64_to_char, net_packet_to_char, char_to_net_packet}
use ocserver.Wire.RoundTrip.{
  char_to_int64-int64_to_char, char_to_net_packet-net_packet_to_char, decode_int64,
}

-- A number whose bit 31 is set is not read back.
char_to_int64-int64_to_char_example :
    decode_int64 (int64_to_char (5 * 2 ^ 32 + 2 ^ 31)) ≡ some (4 * 2 ^ 32 + 2 ^ 31)
char_to_int64-int64_to_char_example =
    char_to_int64-int64_to_char (5 * 2 ^ 32 + 2 ^ 31) (omega arith)

abbrev small_packet : NetPacket
small_packet = record { version = 1; header = 12; tail = 234; type = 3; datalen = 70000 }

char_to_net_packet-net_packet_to_char_run :
    char_to_net_packet (net_packet_to_char small_packet ++ (9 ∷ [])) ≡ some small_packet
char_to_net_packet-net_packet_to_char_run =
    char_to_net_packet-net_packet_to_char small_packet (9 ∷ []) (omega arith)
