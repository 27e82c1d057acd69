-- ===== src/PacketSync.antt =====
-- src/PacketSync.h and src/PacketSync.cpp: the packets in a stream of bytes that arrives in pieces.
-- `thread_readdata` is its first `truepacketlen` bytes and its capacity, `thread_packetdata` its
-- first `getdatalen` bytes and its capacity: what lies behind them is never read.
-- The bytes of `data` from `iret` on are the second argument of each step.
pub mod Frames
pub mod Refinement
pub mod Streams
mod Tests
use ocserver.Common.{
  ℕ, zero, suc, ◌+◌, ◌-◌, ◌*◌, ◌%◌, ◌^◌, min, Bool, true, false, ◌&&◌, ◌||◌, Option, none, some,
  List, [], ◌∷◌, ◌++◌, length, take, drop, get_elem?, ltb, leb, ◌==◌, if◌then◌else◌,
}
use ocserver.Wire.{NetPacket, net_package_headlen, net_packet_to_char, char_to_net_packet}

pub data ParseType : Type 0 where
  parse_head parse_nothing : ParseType

pub record PacketSync : Type 0 where
  pub packet_cb : Bool
  pub parsetype : ParseType
  pub read_len : ℕ
  pub readdata : List ℕ
  pub packet_len : ℕ
  pub packetdata : List ℕ
  pub headpos : ℕ
  pub head : ℕ
  pub tail : ℕ
  pub packet : NetPacket

abbrev pub buffer_size : ℕ
buffer_size = 1024 * 10

abbrev pub empty_packet : NetPacket
empty_packet = record { version = 0; header = 0; tail = 0; type = 0; datalen = 0 }

-- The constructor. `headpos` is `(size_t)-1`; `theNexPacket` is not initialised, and not read before
-- it is written.
unfoldable pub new : PacketSync
new = record {
  packet_cb = false;
  parsetype = parse_nothing;
  read_len = buffer_size;
  readdata = [];
  packet_len = buffer_size;
  packetdata = [];
  headpos = 2 ^ 64 - 1;
  head = 0x0C;
  tail = 0xEA;
  packet = empty_packet;
}

unfoldable pub set_hat : PacketSync → ℕ → ℕ → PacketSync
set_hat s packhead packtail = record s { head = packhead % 256; tail = packtail % 256 }

-- The callback itself is the environment's; the flag says whether one is set.
unfoldable pub set_packet_cb : PacketSync → Bool → PacketSync
set_packet_cb s fun = record s { packet_cb = fun }

-- What one round of the loop leads to: the next round, the next round after a call of the callback
-- with the packet and `thread_packetdata`, a return, or an access outside the buffers.
pub data Next : Type 0 where
  again : PacketSync → List ℕ → Next
  called : NetPacket → List ℕ → PacketSync → List ℕ → Next
  returned : PacketSync → Next
  fault : Next

unfoldable pub memchr : ℕ → List ℕ → Option ℕ
memchr c [] = none
memchr c (x ∷ xs) =
    if x == c then some 0 else elim (memchr c xs) [ none ↦ none | some i ↦ some (suc i) ]

-- `theNexPacket.datalen + 1`, a `uint32_t`.
abbrev pub body_len : NetPacket → ℕ
body_len p = (p.datalen + 1) % 2 ^ 32

-- `(std::min)( (int)avail, (int)want )` as the length of a copy. A negative one becomes a `size_t`
-- near 2 ^ 64, and the copy runs out of both buffers.
unfoldable pub copy_len : ℕ → ℕ → Option ℕ
copy_len avail want =
    if ltb (avail % 2 ^ 32) (2 ^ 31) && ltb (want % 2 ^ 32) (2 ^ 31)
    then some (min (avail % 2 ^ 32) (want % 2 ^ 32))
    else none

-- The bytes of `thread_readdata` behind the header.
abbrev pub available : PacketSync → ℕ
available s = length s.readdata - s.headpos - 1 - net_package_headlen

-- The read buffer when the last byte is not TAIL: what follows HEAD, if the packet stood in the
-- buffer whole; otherwise the header and the bytes of `thread_packetdata`, put together again.
unfoldable pub resync_data : PacketSync → List ℕ
resync_data s =
    if leb (body_len s.packet) (available s)
    then drop (s.headpos + 1) s.readdata
    else (take net_package_headlen (drop (s.headpos + 1) s.readdata)
        ++ take (body_len s.packet) s.packetdata)

unfoldable pub resync_len : PacketSync → ℕ
resync_len s =
    if leb (body_len s.packet) (available s)
    then s.read_len
    else if ltb s.read_len (net_package_headlen + s.packet.datalen + 1)
    then net_package_headlen + s.packet.datalen + 1
    else s.read_len

-- The last byte is not TAIL: parse again one byte behind HEAD.
unfoldable pub resync : PacketSync → List ℕ → Next
resync s data' =
    again
      (record s { read_len = resync_len s; readdata = resync_data s; parsetype = parse_nothing })
      data'

-- The read buffer without the packet.
unfoldable pub after_packet : PacketSync → List ℕ
after_packet s =
    if leb (body_len s.packet) (available s)
    then drop (s.headpos + net_package_headlen + s.packet.datalen + 2) s.readdata
    else []

-- The packet is whole: take it out of the read buffer and hand it to the callback.
unfoldable pub deliver : PacketSync → List ℕ → Next
deliver s data' =
    let s' : PacketSync = record s { readdata = after_packet s; parsetype = parse_nothing } in
    if s.packet_cb then called s.packet s.packetdata s' data' else again s' data'

unfoldable pub finish : PacketSync → List ℕ → Next
unfolding resync deliver
finish s data' = elim (get_elem? s.packetdata s.packet.datalen) [
  | none ↦ fault
  | some b ↦ if b == s.tail then deliver s data' else resync s data'
]

-- Copy what the packet still lacks from the data; return if that is not all there.
unfoldable pub collect : PacketSync → List ℕ → Next
unfolding finish
collect s data' =
    let missing : ℕ = body_len s.packet - length s.packetdata in
    if ltb (length s.packetdata) (body_len s.packet)
    then (if ltb (length s.packetdata + length data') (body_len s.packet)
        then returned (record s { packetdata = s.packetdata ++ data' })
        else finish (record s { packetdata = s.packetdata ++ take missing data' })
            (drop missing data'))
    else finish s data'

-- A header is found: make room for the body and copy what the read buffer has of it.
unfoldable pub begin_packet : PacketSync → List ℕ → Next
unfolding collect copy_len
begin_packet s data' = elim (copy_len (available s) (body_len s.packet)) [
  | none ↦ fault
  | some n ↦
      collect
        (record s {
          parsetype = parse_head;
          packet_len =
              if ltb s.packet_len (s.packet.datalen + 1) then body_len s.packet else s.packet_len;
          packetdata = take n (drop (s.headpos + 1 + net_package_headlen) s.readdata);
        })
        data'
]

-- HEAD is found at `headpos`.
unfoldable pub check_header : PacketSync → List ℕ → Next
unfolding begin_packet
check_header s data' =
    if ltb (length s.readdata - s.headpos - 1) net_package_headlen
    then again (if s.headpos == 0 then s else record s { readdata = drop s.headpos s.readdata })
        data'
    else elim (char_to_net_packet (drop (s.headpos + 1) s.readdata)) [
      | none ↦ fault
      | some p ↦
          if p.header == s.head && p.tail == s.tail
          then begin_packet (record s { packet = p }) data'
          else again (record s { packet = p; readdata = drop (s.headpos + 1) s.readdata }) data'
    ]

-- Fill the read buffer and look for HEAD.
unfoldable pub find_head : PacketSync → List ℕ → Next
unfolding check_header memchr
find_head s data' =
    let room : ℕ = s.read_len - length s.readdata in
    let s' : PacketSync = record s { readdata = s.readdata ++ take room data' } in
    elim (memchr s'.head s'.readdata) [
      | none ↦ again (record s' { readdata = [] }) (drop room data')
      | some i ↦ check_header (record s' { headpos = i }) (drop room data')
    ]

-- One round of the loop.
unfoldable pub round_of : ParseType → PacketSync → List ℕ → Next
unfolding find_head collect
round_of parse_nothing s data' = find_head s data'
round_of parse_head s data' = collect s data'

unfoldable pub recv_round : PacketSync → List ℕ → Next
unfolding round_of resync_data resync_len after_packet
recv_round s data' = round_of s.parsetype s data'

-- The loop's condition.
unfoldable pub more : PacketSync → List ℕ → Bool
more s data' = ltb 0 (length data') || leb (net_package_headlen + 2) (length s.readdata)

-- `thread_packetdata` as the callback receives it, one call after the other.
abbrev pub Frame : Type 0
Frame = NetPacket × List ℕ

-- `stuck` is no behaviour of the code: the fuel of the model ran out.
pub data Outcome : Type 0 where
  done : List Frame → PacketSync → Outcome
  crashed : List Frame → Outcome
  stuck : Outcome

abbrev pub after_call : Frame → Outcome → Outcome
after_call f (done fs s) = done (f ∷ fs) s
after_call f (crashed fs) = crashed (f ∷ fs)
after_call f stuck = stuck

unfoldable pub recv_loop : ℕ → PacketSync → List ℕ → Outcome
recv_loop zero s data' = stuck
recv_loop (suc fuel) s data' = elim (more s data') [
  | false ↦ done [] s
  | true ↦ elim (recv_round s data') [
    | again s' rest ↦ recv_loop fuel s' rest
    | called p body s' rest ↦ after_call (p, body) (recv_loop fuel s' rest)
    | returned s' ↦ done [] s'
    | fault ↦ crashed []
  ]
]

unfoldable pub recvdata : PacketSync → List ℕ → Outcome
unfolding recv_loop recv_round more
recvdata s data' = recv_loop (length s.readdata + length s.packetdata + length data' + 10) s data'

-- `data` holds `packet.datalen` bytes at least.
unfoldable pub packet_data : NetPacket → List ℕ → List ℕ
packet_data packet data' =
    packet.header ∷ (net_packet_to_char packet ++ (take packet.datalen data' ++ (packet.tail ∷ [])))
