-- ===== src/Wire.antt =====
-- src/net_base.h: integers in network byte order, and the header of a packet.
-- A byte is a number below 256, and `( x & ( 0xff << k ) ) >> k` is `x / 2 ^ k % 256`.
pub mod RoundTrip
pub mod Header
mod Tests
use ocserver.Common.{
  ℕ, ◌+◌, ◌*◌, ◌/◌, ◌%◌, ◌^◌, ◌-◌, ◌<◌, List, [], ◌∷◌, Option, none, some, ltb, if◌then◌else◌,
}

abbrev pub IsByte : ℕ → Type 0
IsByte b = b < 256

unfoldable pub int32_to_char : ℕ → List ℕ
int32_to_char n = n / 2 ^ 24 % 256 ∷ n / 2 ^ 16 % 256 ∷ n / 2 ^ 8 % 256 ∷ n % 256 ∷ []

-- The four bytes are promoted to `int`, and the sum is stored in a `uint32_t`.
unfoldable pub char_to_int32 : ℕ → ℕ → ℕ → ℕ → ℕ
char_to_int32 c0 c1 c2 c3 = (c0 * 2 ^ 24 + c1 * 2 ^ 16 + c2 * 2 ^ 8 + c3) % 2 ^ 32

unfoldable pub int64_to_char : ℕ → List ℕ
int64_to_char n =
    n / 2 ^ 56 % 256
    ∷ n / 2 ^ 48 % 256
    ∷ n / 2 ^ 40 % 256
    ∷ n / 2 ^ 32 % 256
    ∷ n / 2 ^ 24 % 256
    ∷ n / 2 ^ 16 % 256
    ∷ n / 2 ^ 8 % 256
    ∷ n % 256
    ∷ []

-- An `int`, given by its bit pattern, converted to `uint64_t`: the sign is extended.
unfoldable pub int_to_uint64 : ℕ → ℕ
int_to_uint64 w = if ltb w (2 ^ 31) then w else w + 2 ^ 64 - 2 ^ 32

-- The four upper bytes are cast to `uint64_t` before the shift, the four lower are not:
-- `charnum[4] << 24` is an `int`.
unfoldable pub char_to_int64 : ℕ → ℕ → ℕ → ℕ → ℕ → ℕ → ℕ → ℕ → ℕ
unfolding int_to_uint64
char_to_int64 c0 c1 c2 c3 c4 c5 c6 c7 =
    (c0 * 2 ^ 56
      + c1 * 2 ^ 48
      + c2 * 2 ^ 40
      + c3 * 2 ^ 32
      + int_to_uint64 (c4 * 2 ^ 24)
      + c5 * 2 ^ 16
      + c6 * 2 ^ 8
      + c7)
    % 2 ^ 64

pub record NetPacket : Type 0 where
  pub version : ℕ
  pub header : ℕ
  pub tail : ℕ
  pub type : ℕ
  pub datalen : ℕ

abbrev pub net_package_headlen : ℕ
net_package_headlen = 8

unfoldable pub net_packet_to_char : NetPacket → List ℕ
unfolding int32_to_char
net_packet_to_char p = p.version ∷ p.header ∷ p.tail ∷ p.type ∷ int32_to_char p.datalen

-- The pointer is the list of the bytes from there to the end of the data; `none` is a read behind it.
unfoldable pub char_to_net_packet : List ℕ → Option NetPacket
unfolding char_to_int32
char_to_net_packet (c0 ∷ c1 ∷ c2 ∷ c3 ∷ c4 ∷ c5 ∷ c6 ∷ c7 ∷ rest) = some (record {
  version = c0;
  header = c1;
  tail = c2;
  type = c3;
  datalen = char_to_int32 c4 c5 c6 c7;
})
char_to_net_packet _ = none

-- The ranges of the fields' types.
pub record IsNetPacket (p : NetPacket) : Type 0 where
  pub version_byte : IsByte p.version
  pub header_byte : IsByte p.header
  pub tail_byte : IsByte p.tail
  pub type_byte : IsByte p.type
  pub datalen_word : p.datalen < 2 ^ 32
