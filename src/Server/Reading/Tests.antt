-- ===== src/Server/Reading/Tests.antt =====
-- A packet in two reads, with one between them that brings nothing, and the end of the connection.
use ocserver.Common.{
  ℕ, zero, suc, append-nil, ◌++◌, ◌≡◌, refl, true, false, ◌⊎◌, All, List, [], ◌∷◌, Option, none,
  some, arith,
}
use ocserver.Wire.{NetPacket, net_packet_to_char}
use ocserver.GameProto.Messages.{message_bytes}
use ocserver.Proto.Out.{write_unsigned, write_string, write_map}
use ocserver.Server.Reading.Ended.{game_throws, read_all_ended}
use ocserver.Proto.In.Values.{Printer}
use ocserver.PacketSync.{Frame, PacketSync, new, set_packet_cb, set_hat, packet_data}
use ocserver.PacketSync.Frames.{waits, classify, wait}
use ocserver.PacketSync.Refinement.Invariant.{IsValid, pending}
use ocserver.PacketSync.Streams.{sent, AllSendable, IsDrained, new-IsValid}
use ocserver.Server.Reading.{open_handle, closing_handle, handled, thrown, read_all}
use ocserver.Server.Reading.Calls.{StopsAt}
use ocserver.Server.Reading.Tls.{handshake, pieces, secured, on_events, on_events-packet_data}
use ocserver.Server.Reading.Plain.{arrivals, plain, read_all-packet_data}

abbrev fresh : PacketSync
fresh = set_hat (set_packet_cb new true) 0x0C 0xEA

fresh-IsValid : IsValid 0x0C 0xEA fresh × (pending fresh ≡ [])
fresh-IsValid = new-IsValid 0x0C 0xEA (omega arith) (omega arith)

empty_waits : classify 0x0C 0xEA [] ≡ wait
unfolding classify
empty_waits = refl

fresh-IsDrained : IsDrained 0x0C 0xEA fresh
fresh-IsDrained = rw (fresh-IsValid.1) (waits empty_waits)

abbrev ping : NetPacket
ping = record { version = 1; header = 0x0C; tail = 0xEA; type = 2; datalen = 1 }

ping-IsSendable : AllSendable 0x0C 0xEA ((ping, 7 ∷ []) ∷ [])
ping-IsSendable = (
  record {
    ranges = omega arith;
    header_eq = refl;
    tail_eq = refl;
    body_len = refl;
    fits = omega arith;
  },
  tt,
)

abbrev ping_reads : List (Option (List ℕ))
ping_reads =
    some (0x0C ∷ 1 ∷ 0x0C ∷ 0xEA ∷ []) ∷ none ∷ some (2 ∷ 0 ∷ 0 ∷ 0 ∷ 1 ∷ 7 ∷ 0xEA ∷ []) ∷ []

abbrev no_digits : Printer
no_digits = record { print_unsigned = λ n. []; print_float = λ n. []; print_double = λ n. [] }

abbrev pong : List Frame
pong = (ping, 7 ∷ 0xEA ∷ []) ∷ []

read_all-packet_data_example :
    (All (λ f. game_throws 0 no_digits 5 f ≡ false) pong
      × ((s' : PacketSync) × (read_all
              (game_throws 0 no_digits 5)
              (arrivals ping_reads)
              (plain fresh [] 0 open_handle)
            ≡ handled pong (plain s' [] 1 closing_handle))
          × IsValid 0x0C 0xEA s'
          × IsDrained 0x0C 0xEA s'))
    ⊎ StopsAt
        (game_throws 0 no_digits 5)
        pong
        (read_all (game_throws 0 no_digits 5) (arrivals ping_reads) (plain fresh [] 0 open_handle))
unfolding packet_data net_packet_to_char
read_all-packet_data_example =
    read_all-packet_data (game_throws 0 no_digits 5) 0x0C 0xEA 0 [] open_handle fresh ping_reads
      ((ping, 7 ∷ []) ∷ []) (fresh-IsValid.0) fresh-IsDrained ping-IsSendable refl

on_events-packet_data_example :
    (All (λ f. game_throws 0 no_digits 5 f ≡ false) pong
      × ((s' : PacketSync) × (on_events
              (game_throws 0 no_digits 5)
              (handshake 1 ∷ pieces ping_reads)
              (secured false fresh [] 0 open_handle)
            ≡ handled pong (secured true s' [] 0 open_handle))
          × IsValid 0x0C 0xEA s'
          × IsDrained 0x0C 0xEA s'))
    ⊎ StopsAt (game_throws 0 no_digits 5) pong (
        on_events
          (game_throws 0 no_digits 5)
          (handshake 1 ∷ pieces ping_reads)
          (secured false fresh [] 0 open_handle))
unfolding packet_data net_packet_to_char
on_events-packet_data_example =
    on_events-packet_data (game_throws 0 no_digits 5) 0x0C 0xEA 0 [] open_handle false fresh
      ping_reads ((ping, 7 ∷ []) ∷ []) (fresh-IsValid.0) fresh-IsDrained ping-IsSendable refl

-- A command of 128 letters, and a packet behind it.
abbrev letters : ℕ → List ℕ
letters zero = []
letters (suc n) = 65 ∷ letters n

abbrev fatal_bytes : List ℕ
fatal_bytes = 0x00 ∷ 7 ∷ 0x16 ∷ 128 ∷ (letters 128 ++ (0x20 ∷ 1 ∷ 0x38 ∷ 0x0C ∷ []))

abbrev fatal : NetPacket
fatal = record { version = 1; header = 0x0C; tail = 0xEA; type = 2; datalen = 136 }

abbrev fatal_packets : List (NetPacket × List ℕ)
fatal_packets = (fatal, fatal_bytes) ∷ (ping, 7 ∷ []) ∷ []

fatal-IsSendable : AllSendable 0x0C 0xEA fatal_packets
fatal-IsSendable = (
  record {
    ranges = omega arith;
    header_eq = refl;
    tail_eq = refl;
    body_len = refl;
    fits = omega arith;
  },
  ping-IsSendable,
)

fatal_written : message_bytes 7 (letters 128) 1 [] ≡ some fatal_bytes
unfolding write_unsigned write_string write_map
fatal_written = refl

read_all_ended_example :
    read_all
      (game_throws 0 no_digits 5)
      (arrivals (some (sent 0x0C 0xEA fatal_packets) ∷ none ∷ []))
      (plain fresh [] 0 open_handle)
    ≡ thrown ((fatal, fatal_bytes ++ (0xEA ∷ [])) ∷ [])
read_all_ended_example =
    read_all_ended 0 no_digits 5 0x0C 0xEA 0 [] open_handle fresh
      (some (sent 0x0C 0xEA fatal_packets) ∷ none ∷ []) [] ((ping, 7 ∷ []) ∷ []) fatal 7
      (letters 128) 1 [] fatal_bytes (fresh-IsValid.0) fresh-IsDrained fatal-IsSendable
      (append-nil (sent 0x0C 0xEA fatal_packets)) tt (omega arith) (omega arith) (omega arith)
      fatal_written
