-- ===== src/Server/Reading/Ended.antt =====
-- src/uv_net.cpp and src/gameproto.cpp: a message that ends the program.
use ocserver.Common.{
  ℕ, ◌^◌, ◌<◌, ◌≤◌, ◌≡◌, refl, ap, ◌∙◌, sym, Bool, true, false, List, [], ◌∷◌, ◌++◌, Option, some,
  length, All,
}
use ocserver.Wire.{NetPacket}
use ocserver.Proto.In.Values.{Printer}
use ocserver.PacketSync.{Frame, PacketSync}
use ocserver.PacketSync.Refinement.Invariant.{IsValid}
use ocserver.PacketSync.Streams.{
  joined, sent, received, IsSendable, AllSendable, IsDrained, recv_all-packet_data,
}
use ocserver.GameProto.{HashMap, Parsed, posted, deleted, thrown, parse_packet}
use ocserver.GameProto.Messages.{message_bytes, parse_packet_throws}
use ocserver.Server.Reading.{Closing, Handled, handled, read_all, get_packets}
use ocserver.Server.Reading as Reading
use ocserver.Server.Reading.Calls.{get_packets-stop}
use ocserver.Server.Reading.Plain.{chunks, arrivals, plain, at_end, read_all-recv_all}

abbrev pub is_thrown : Parsed → Bool
is_thrown thrown = true
is_thrown deleted = false
is_thrown (posted msg) = false

-- Whether ParsePacket of the game's protocol throws for a packet of the client.
abbrev pub game_throws : ℕ → Printer → ℕ → Frame → Bool
game_throws u printer client f = is_thrown (parse_packet u printer client f.0 f.1)

module _ (h t : ℕ) where
  received-append :
      (ps qs : List (NetPacket × List ℕ))
      → received h t (ps ++ qs) ≡ received h t ps ++ received h t qs
  received-append [] qs = refl
  received-append ((p, body) ∷ ps) qs =
      ap (λ l. (p, body ++ (p.tail ∷ [])) ∷ l) (received-append ps qs)

  IsSendable-at :
      (ps : List (NetPacket × List ℕ)) (p : NetPacket) (body : List ℕ)
      (qs : List (NetPacket × List ℕ))
      → AllSendable h t (ps ++ ((p, body) ∷ qs))
      → IsSendable h t p body
  IsSendable-at [] p body qs (a, as') = a
  IsSendable-at ((q, b) ∷ ps) p body qs (a, as') = IsSendable-at ps p body qs as'

-- A client without TLS sends packets that `PacketData` wrote, one of which holds a message of ProtoOut whose
-- command has 128 to 255 bytes, and ParsePacket returns for each packet in front of it. However the bytes are
-- cut into reads: the packets up to that one are delivered, and an exception then ends the program, so
-- that neither the packets behind it nor the end of the connection are seen. Conditions: the marks,
-- lengths below 2 ^ 31 - 1, a user below 2 ^ 31, a valid state that kept no part of a packet.
pub read_all_ended :
    (u : ℕ) (printer : Printer) (client h t n : ℕ) (fed : List (List ℕ)) (c : Closing)
    (s : PacketSync) (as' : List (Option (List ℕ))) (ps qs : List (NetPacket × List ℕ))
    (p : NetPacket) (uid : ℕ) (cmd : List ℕ) (pack_seq : ℕ) (attributes : HashMap) (bs : List ℕ)
    → IsValid h t s
    → IsDrained h t s
    → AllSendable h t (ps ++ ((p, bs) ∷ qs))
    → joined (chunks as') ≡ sent h t (ps ++ ((p, bs) ∷ qs))
    → All (λ f. game_throws u printer client f ≡ false) (received h t ps)
    → uid < 2 ^ 31
    → 128 ≤ length cmd
    → length cmd ≤ 255
    → message_bytes uid cmd pack_seq attributes ≡ some bs
    → read_all (game_throws u printer client) (arrivals as') (plain s fed n c)
      ≡ Reading.thrown (received h t ps ++ ((p, bs ++ (p.tail ∷ [])) ∷ []))
read_all_ended u printer client h t n fed c s as' ps qs p uid cmd pack_seq attributes bs v d a e r k
      lo hi w =
    let throws = game_throws u printer client in
    let (s', q, v', d') = recv_all-packet_data h t s (chunks as') (ps ++ ((p, bs) ∷ qs)) v d a e in
    let sendable = IsSendable-at h t ps p bs qs a in
    let bad : throws (p, bs ++ (p.tail ∷ [])) ≡ true = ap is_thrown (
      parse_packet_throws u printer client p uid cmd pack_seq attributes bs (p.tail ∷ []) k lo hi w
        (sym sendable.body_len)) in
    read_all-recv_all throws fed n c as' s s' (received h t (ps ++ ((p, bs) ∷ qs))) q
    ∙ ap (λ fs. get_packets throws fs (handled [] (at_end throws fed n c s')))
        (received-append h t ps ((p, bs) ∷ qs))
    ∙ get_packets-stop throws (received h t ps) (p, bs ++ (p.tail ∷ [])) (received h t qs)
        (handled [] (at_end throws fed n c s')) r bad
