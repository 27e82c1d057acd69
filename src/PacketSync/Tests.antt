-- ===== src/PacketSync/Tests.antt =====
-- Runs of `recvdata`, and the theorems at concrete streams.
use ocserver.Common.{ℕ, ◌≡◌, refl, true, List, [], ◌∷◌, ◌++◌, take, drop, arith, ◌^◌}
use ocserver.Wire.{NetPacket, char_to_net_packet, net_packet_to_char}
use ocserver.PacketSync.{
  PacketSync, done, crashed, recvdata, packet_data, new, set_packet_cb, set_hat, fault,
  begin_packet,
}
use ocserver.PacketSync.Frames.{waits, rest, classify, wait}
use ocserver.PacketSync.Refinement.Invariant.{IsValid, pending}
use ocserver.PacketSync.Refinement.Begin.{HasHeader, begin_packet_oversize}
use ocserver.PacketSync.Refinement.Loop.{Ends, recvdata-Ends}
use ocserver.PacketSync.Streams.{
  recv_all, recv_all-Ends, recv_all_chunks, recv_all-packet_data, new-IsValid, IsDrained,
  AllSendable, joined, frames,
}

abbrev ready : PacketSync
ready = set_hat (set_packet_cb new true) 0x0C 0xEA

abbrev hello : NetPacket
hello = record { version = 1; header = 0x0C; tail = 0xEA; type = 2; datalen = 3 }

abbrev hello_data : List ℕ
hello_data = 7 ∷ 0x0C ∷ 9 ∷ []

abbrev hello_bytes : List ℕ
hello_bytes = 0x0C ∷ 1 ∷ 0x0C ∷ 0xEA ∷ 2 ∷ 0 ∷ 0 ∷ 0 ∷ 3 ∷ 7 ∷ 0x0C ∷ 9 ∷ 0xEA ∷ []

hello_sent : packet_data hello hello_data ≡ hello_bytes
unfolding packet_data net_packet_to_char
hello_sent = refl

ready-IsValid : IsValid 0x0C 0xEA ready × (pending ready ≡ [])
ready-IsValid = new-IsValid 0x0C 0xEA (omega arith) (omega arith)

nothing_waits : classify 0x0C 0xEA [] ≡ wait
unfolding classify
nothing_waits = refl

ready-IsDrained : IsDrained 0x0C 0xEA ready
ready-IsDrained = rw (ready-IsValid.1) (waits nothing_waits)

-- Junk, then a packet in two pieces: one call of the callback.
pieces :
    frames (recv_all ready ((5 ∷ take 6 hello_bytes) ∷ drop 6 hello_bytes ∷ []))
    ≡ (hello, hello_data ++ (0xEA ∷ [])) ∷ []
unfolding recv_all recvdata new set_packet_cb set_hat char_to_net_packet
pieces = refl

hello-IsSendable : AllSendable 0x0C 0xEA ((hello, hello_data) ∷ [])
hello-IsSendable = (
  record {
    ranges = omega arith;
    header_eq = refl;
    tail_eq = refl;
    body_len = refl;
    fits = omega arith;
  },
  tt,
)

recvdata-Ends_example : Ends 0x0C 0xEA (pending ready ++ hello_bytes) (recvdata ready hello_bytes)
recvdata-Ends_example = recvdata-Ends 0x0C 0xEA ready hello_bytes (ready-IsValid.0)

recv_all-Ends_example :
    Ends 0x0C 0xEA
      (pending ready ++ joined ((5 ∷ take 6 hello_bytes) ∷ drop 6 hello_bytes ∷ []))
      (recv_all ready ((5 ∷ take 6 hello_bytes) ∷ drop 6 hello_bytes ∷ []))
recv_all-Ends_example =
    recv_all-Ends 0x0C 0xEA ready ((5 ∷ take 6 hello_bytes) ∷ drop 6 hello_bytes ∷ [])
      (ready-IsValid.0) (rest [], ready-IsDrained)

recv_all_chunks_example :
    frames (recv_all ready (hello_bytes ∷ []))
    ≡ frames (recv_all ready (take 6 hello_bytes ∷ drop 6 hello_bytes ∷ []))
recv_all_chunks_example =
    recv_all_chunks 0x0C 0xEA ready (hello_bytes ∷ [])
      (take 6 hello_bytes ∷ drop 6 hello_bytes ∷ []) (ready-IsValid.0) (rest [], ready-IsDrained)
      refl

recv_all-packet_data_example :
    (s' : PacketSync) × (recv_all ready (take 6 hello_bytes ∷ drop 6 hello_bytes ∷ [])
      ≡ done ((hello, hello_data ++ (0xEA ∷ [])) ∷ []) s')
    × IsValid 0x0C 0xEA s'
    × IsDrained 0x0C 0xEA s'
unfolding packet_data net_packet_to_char
recv_all-packet_data_example =
    recv_all-packet_data 0x0C 0xEA ready (take 6 hello_bytes ∷ drop 6 hello_bytes ∷ [])
      ((hello, hello_data) ∷ []) (ready-IsValid.0) ready-IsDrained hello-IsSendable refl

new-IsValid_run : IsValid 0x0C 0xEA ready × (pending ready ≡ [])
new-IsValid_run = new-IsValid 0x0C 0xEA (omega arith) (omega arith)

-- The header of a packet of 2 ^ 31 bytes.
abbrev huge : NetPacket
huge = record { version = 1; header = 0x0C; tail = 0xEA; type = 2; datalen = 2 ^ 31 }

abbrev huge_state : PacketSync
huge_state = record ready {
  readdata = 0x0C ∷ 1 ∷ 0x0C ∷ 0xEA ∷ 2 ∷ 0x80 ∷ 0 ∷ 0 ∷ 0 ∷ [];
  headpos = 0;
  packet = huge;
}

huge-HasHeader : HasHeader 0x0C 0xEA huge_state
unfolding new set_packet_cb set_hat char_to_net_packet
huge-HasHeader = record {
  head_eq = refl;
  tail_eq = refl;
  callback = refl;
  within = omega arith;
  large = omega arith;
  small = omega arith;
  parsed = refl;
  named = refl;
}

begin_packet_oversize_run : begin_packet huge_state [] ≡ fault
begin_packet_oversize_run = begin_packet_oversize huge_state [] huge-HasHeader (omega arith)

huge_crashes : recvdata ready (0x0C ∷ 1 ∷ 0x0C ∷ 0xEA ∷ 2 ∷ 0x80 ∷ 0 ∷ 0 ∷ 0 ∷ 0 ∷ []) ≡ crashed []
unfolding recvdata new set_packet_cb set_hat char_to_net_packet
huge_crashes = refl
