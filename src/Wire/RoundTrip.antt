-- ===== src/Wire/RoundTrip.antt =====
-- src/net_base.h: decoding what was encoded.
use ocserver.Common.{
  ℕ, ◌+◌, ◌/◌, ◌%◌, ◌^◌, ◌-◌, ◌<◌, ◌≡◌, refl, ap, List, [], ◌∷◌, ◌++◌, Option, none, some, length,
  ltb, arith, if◌then◌else◌,
}
use ocserver.Wire.{
  int32_to_char, char_to_int32, int64_to_char, char_to_int64, int_to_uint64, NetPacket, IsNetPacket,
  net_package_headlen, net_packet_to_char, char_to_net_packet,
}

pub char_to_int32-int32_to_char :
    (n : ℕ)
    → n < 2 ^ 32
    → char_to_int32 (n / 2 ^ 24 % 256) (n / 2 ^ 16 % 256) (n / 2 ^ 8 % 256) (n % 256) ≡ n
unfolding char_to_int32
char_to_int32-int32_to_char n h = omega arith

-- Encoding a 64-bit number and decoding it again, the bytes taken in order.
abbrev pub decode_int64 : List ℕ → Option ℕ
decode_int64 (c0 ∷ c1 ∷ c2 ∷ c3 ∷ c4 ∷ c5 ∷ c6 ∷ c7 ∷ []) =
    some (char_to_int64 c0 c1 c2 c3 c4 c5 c6 c7)
decode_int64 _ = none

-- Of a number below 2 ^ 64, `char_to_int64` reads back what `int64_to_char` wrote if bit 31 of the number is clear; if it is
-- set, the result is too small by 2 ^ 32 (modulo 2 ^ 64), because byte 4 is shifted as an `int`.
pub char_to_int64-int64_to_char :
    (n : ℕ)
    → n < 2 ^ 64
    → decode_int64 (int64_to_char n)
      ≡ some (if ltb (n / 2 ^ 24 % 256) 128 then n else (n + 2 ^ 64 - 2 ^ 32) % 2 ^ 64)
unfolding char_to_int64 int64_to_char int_to_uint64
char_to_int64-int64_to_char n h = ground arith

-- `char_to_net_packet` reads a packet back from the bytes of its header, whatever follows, if its
-- fields are in the ranges of their types.
pub char_to_net_packet-net_packet_to_char :
    (p : NetPacket) (rest : List ℕ)
    → IsNetPacket p
    → char_to_net_packet (net_packet_to_char p ++ rest) ≡ some p
unfolding char_to_net_packet net_packet_to_char int32_to_char
char_to_net_packet-net_packet_to_char p rest h =
    ap (λ d. some (record p { datalen = d })) (char_to_int32-int32_to_char p.datalen h.datalen_word)

pub length-net_packet_to_char :
    (p : NetPacket) → length (net_packet_to_char p) ≡ net_package_headlen
unfolding net_packet_to_char int32_to_char
length-net_packet_to_char p = refl
