-- ===== src/GameProto/Messages.antt =====
-- src/gameproto.cpp: GameTCPProtocol::ParsePacket on the data that a client writes with ProtoOut.
use ocserver.Common.{
  store, ℕ, ◌+◌, ◌^◌, ◌≤◌, ◌<◌, ◌≡◌, refl, ap, ◌∙◌, sym, List, [], ◌++◌, Option, some, length,
  take-append_self, All, arith, append-nil, le→leb, le→not_ltb,
}
use mathlib.Core.Option.{some-injective}
use ocserver.Wire.{NetPacket}
use ocserver.Proto.Types.{proto_max_string_length}
use ocserver.Proto.Stream.{length_error, ◌>>=◌, return, at}
use ocserver.Proto.Out.{write_unsigned, write_string, write_map, ◌then_write◌}
use ocserver.Proto.In.Values.{Printer, read_unsigned, read_string, read_map}
use ocserver.Proto.RoundTrip.Reads.{Reads, as_Reads, bind-Reads, return-Reads, bind-throws, throws}
use ocserver.Proto.RoundTrip.Unsigned.{write_unsigned-Reads}
use ocserver.Proto.RoundTrip.Strings.{read_string-write_string, then_read, string_outcome}
use ocserver.Proto.RoundTrip.Lists.{then_write-some}
use ocserver.Proto.RoundTrip.Maps.{stored, IsReadableEntry, read_map-write_map}
use ocserver.Proto.RoundTrip.Codecs.{string_codec, string-Reads, IsShortOrLong}
use ocserver.GameProto.{
  HashMap, FromMsg, new_msg, posted, thrown, read_fields, parsed, buf_from_msg, parse_packet,
}

-- The data of a packet: the user, the command, the number of the message and its attributes.
abbrev pub message_bytes : ℕ → List ℕ → ℕ → HashMap → Option (List ℕ)
message_bytes uid cmd pack_seq attributes =
    some (write_unsigned uid 0)
    then_write write_string cmd 1
    then_write some (write_unsigned pack_seq 2)
    then_write write_map write_string write_string attributes 3

module _ (u : ℕ) (printer : Printer) where
  open printer use {print_unsigned}

  abbrev pub AreReadable : HashMap → Type 0
  AreReadable attributes =
      All (IsReadableEntry (string_codec u printer) (string_codec u printer) store) attributes

  abbrev pub message_of : FromMsg → ℕ → List ℕ → ℕ → HashMap → FromMsg
  message_of msg uid cmd pack_seq attributes = record msg {
    uin = print_unsigned uid;
    service_cmd = cmd;
    pack_seq = pack_seq;
    attributes = attributes;
  }

  -- The message with the fields as they were written; a key that comes twice keeps its last value.
  abbrev pub message : FromMsg → ℕ → List ℕ → ℕ → HashMap → FromMsg
  message msg uid cmd pack_seq attributes =
      message_of msg uid cmd pack_seq
        (stored (string_codec u printer) (string_codec u printer) store attributes [])

  map-Reads :
      (attributes : HashMap) (bs : List ℕ)
      → length attributes < 2 ^ 31
      → AreReadable attributes
      → write_map write_string write_string attributes 3 ≡ some bs
      → Reads
          (read_map (read_string u printer) (read_string u printer) store u [])
          bs
          (3, stored (string_codec u printer) (string_codec u printer) store attributes [])
  map-Reads attributes bs l a e = record {
    run = λ w p xs.
        read_map-write_map (string_codec u printer) (string_codec u printer) store refl refl u 3
          attributes [] bs w xs p (omega arith) l a e;
  }

  fields-Reads :
      (msg : FromMsg) (uid : ℕ) (cmd : List ℕ) (pack_seq : ℕ) (attributes : HashMap) (bs : List ℕ)
      → uid < 2 ^ 31
      → IsShortOrLong cmd
      → pack_seq < 2 ^ 31
      → length attributes < 2 ^ 31
      → AreReadable attributes
      → message_bytes uid cmd pack_seq attributes ≡ some bs
      → Reads (read_fields u printer msg) bs (message msg uid cmd pack_seq attributes)
  unfolding read_fields
  fields-Reads msg uid cmd pack_seq attributes bs h s k l a e =
      let (b0, r0, e0, f0, q0) =
        then_write-some (some (write_unsigned uid 0))
          (write_string cmd 1
            then_write some (write_unsigned pack_seq 2)
            then_write write_map write_string write_string attributes 3)
          bs e in
      let (b1, r1, e1, f1, q1) =
        then_write-some (write_string cmd 1)
          (some (write_unsigned pack_seq 2)
            then_write write_map write_string write_string attributes 3)
          r0 f0 in
      let (b2, r2, e2, f2, q2) =
        then_write-some (some (write_unsigned pack_seq 2))
          (write_map write_string write_string attributes 3) r1 f1 in
      as_Reads
        (ap (λ y. write_unsigned uid 0 ++ y)
            (ap (λ y. b1 ++ y)
                (ap (λ y. write_unsigned pack_seq 2 ++ y) (append-nil r2)
                  ∙ ap (λ y. y ++ r2) (some-injective _ _ e2)
                  ∙ q2)
              ∙ q1)
          ∙ ap (λ y. y ++ r0) (some-injective _ _ e0)
          ∙ q0)
        refl
        (bind-Reads _ (write_unsigned-Reads u 0 uid (omega arith) h) (
          bind-Reads _ (string-Reads u printer cmd 1 b1 s (omega arith) e1) (
            bind-Reads _ (write_unsigned-Reads u 2 pack_seq (omega arith) k)
              (bind-Reads _ (map-Reads attributes r2 l a f2) (return-Reads _)))))

  data_taken :
      (msg : FromMsg) (packet : NetPacket) (bs behind : List ℕ)
      → packet.datalen ≡ length bs
      → buf_from_msg u printer packet (bs ++ behind) msg
        ≡ parsed u printer (read_fields u printer msg (at bs 0 bs))
  unfolding buf_from_msg
  data_taken msg packet bs behind d =
      ap (λ (y : List ℕ). parsed u printer (read_fields u printer msg (at y 0 y)))
        (take-append_self packet.datalen bs behind (sym d))

  -- The data of a packet with the user and the message's number below 2 ^ 31, a command that is
  -- shorter than 128 or longer than 255 bytes (and below 2 ^ 32), and fewer than 2 ^ 31 readable attributes, all written with ProtoOut, is
  -- posted as a message with these fields, whatever follows the data in the buffer.
  pub parse_packet-message_bytes :
      (client : ℕ) (packet : NetPacket) (uid : ℕ) (cmd : List ℕ) (pack_seq : ℕ)
      (attributes : HashMap) (bs behind : List ℕ)
      → uid < 2 ^ 31
      → IsShortOrLong cmd
      → pack_seq < 2 ^ 31
      → length attributes < 2 ^ 31
      → AreReadable attributes
      → message_bytes uid cmd pack_seq attributes ≡ some bs
      → packet.datalen ≡ length bs
      → parse_packet u printer client packet (bs ++ behind)
        ≡ posted (message (new_msg client packet (bs ++ behind)) uid cmd pack_seq attributes)
  unfolding parse_packet
  parse_packet-message_bytes client packet uid cmd pack_seq attributes bs behind h s k l a e d =
      let msg = new_msg client packet (bs ++ behind) in
      data_taken msg packet bs behind d
      ∙ ap (λ (y : List ℕ). parsed u printer (read_fields u printer msg (at bs 0 y)))
          (sym (append-nil bs))
      ∙ ap (parsed u printer)
          ((fields-Reads msg uid cmd pack_seq attributes bs h s k l a e).run bs 0 [])

  middle_command :
      (cmd b w xs : List ℕ) (p : ℕ)
      → 128 ≤ length cmd
      → length cmd ≤ 255
      → write_string cmd 1 ≡ some b
      → read_string u printer (at w p (b ++ xs)) ≡ length_error
  middle_command cmd b w xs p h l e =
      let m = le→not_ltb proto_max_string_length (length cmd) (omega arith) in
      let y = le→not_ltb (length cmd) 128 h in
      let q = le→leb (length cmd) 255 l in
      let o : string_outcome cmd 1 w p xs ≡ some length_error = rw (m, y, q) refl in
      some-injective _ _ (
        sym (ap (then_read (read_string u printer) w p xs) e)
        ∙ read_string-write_string u printer 1 w xs p cmd (omega arith) (omega arith)
        ∙ o)

  -- If the command in the data of a packet, written with ProtoOut behind a user below 2 ^ 31, has 128
  -- to 255 bytes, an exception that is no ProtoError leaves ParsePacket.
  pub parse_packet_throws :
      (client : ℕ) (packet : NetPacket) (uid : ℕ) (cmd : List ℕ) (pack_seq : ℕ)
      (attributes : HashMap) (bs behind : List ℕ)
      → uid < 2 ^ 31
      → 128 ≤ length cmd
      → length cmd ≤ 255
      → message_bytes uid cmd pack_seq attributes ≡ some bs
      → packet.datalen ≡ length bs
      → parse_packet u printer client packet (bs ++ behind) ≡ thrown
  unfolding parse_packet read_fields
  parse_packet_throws client packet uid cmd pack_seq attributes bs behind h c l e d =
      let (b0, r0, e0, f0, q0) =
        then_write-some (some (write_unsigned uid 0))
          (write_string cmd 1
            then_write some (write_unsigned pack_seq 2)
            then_write write_map write_string write_string attributes 3)
          bs e in
      let (b1, r1, e1, f1, q1) =
        then_write-some (write_string cmd 1)
          (some (write_unsigned pack_seq 2)
            then_write write_map write_string write_string attributes 3)
          r0 f0 in
      let split : bs ≡ write_unsigned uid 0 ++ (b1 ++ r1) =
        sym (
          ap (λ y. write_unsigned uid 0 ++ y) q1
          ∙ ap (λ y. y ++ r0) (some-injective _ _ e0)
          ∙ q0) in
      data_taken (new_msg client packet (bs ++ behind)) packet bs behind d
      ∙ ap
          (λ (y : List ℕ).
            parsed u printer
              (read_fields u printer (new_msg client packet (bs ++ behind)) (at bs 0 y)))
          split
      ∙ ap (parsed u printer) (
          bind-throws _ bs (b1 ++ r1) 0 (write_unsigned-Reads u 0 uid (omega arith) h) (
            throws (read_string u printer)
              (λ cmd. read_unsigned u >>= λ n.
                read_map (read_string u printer) (read_string u printer) store u [] >>= λ m.
                return (message_of (new_msg client packet (bs ++ behind)) uid cmd.1 n.1 m.1))
              (at bs (0 + length (write_unsigned uid 0)) (b1 ++ r1))
              (middle_command cmd b1 bs r1 (0 + length (write_unsigned uid 0)) c l e1)))
