-- ===== src/Server/Reading/Tls.antt =====
-- src/uv_net.cpp: a client with TLS: on_hd_complete, evt_on_rd and uv_rd_cb, as the TLS library calls them while
-- read_header feeds it. What it decrypts is the environment's.
use ocserver.Common.{
  ℕ, ◌≡◌, ◌⊎◌, inl, inr, ap, ◌∙◌, sym, Bool, true, false, List, [], ◌∷◌, Option, none, some, All,
  ◌==◌, if◌then◌else◌, subst,
}
use ocserver.Wire.{NetPacket}
use ocserver.PacketSync.{Frame, PacketSync, done, recvdata}
use ocserver.PacketSync.Refinement.Invariant.{IsValid}
use ocserver.PacketSync.Streams.{
  recv_all, joined, sent, received, AllSendable, IsDrained, recv_all-packet_data,
}
use ocserver.Server.Reading.{
  Closing, Reader, Handled, handled, asserts, close, after_recvdata, then_handle, get_packets,
}
use ocserver.Server.Reading.Calls.{
  behind-nil, then_handle-get_packets, get_packets-append, get_packets-cases, recv_then-done,
  StopsAt,
}
use ocserver.Server.Reading.Plain.{chunks}

-- A client, and whether its `tls_rd_cb` is set.
pub record TlsReader : Type 0 where
  pub reader : Reader
  pub reads : Bool

-- A call of on_hd_complete with its status, or of evt_on_rd with bytes or with none.
pub data TlsEvent : Type 0 where
  handshake : ℕ → TlsEvent
  decrypted : Option (List ℕ) → TlsEvent

unfoldable pub on_hd_complete : ℕ → TlsReader → TlsReader
unfolding close
on_hd_complete status t =
    if status == 1 then record t { reads = true } else record t { reader = close t.reader }

-- `throws` is whether the protocol's ParsePacket ends with an exception on a packet.
module _ (throws : Frame → Bool) where
  unfoldable pub uv_rd_cb : Option (List ℕ) → TlsReader → Handled TlsReader
  unfolding get_packets
  uv_rd_cb none t = handled [] t
  uv_rd_cb (some data') t =
      after_recvdata throws (recvdata t.reader.packet data')
        (λ s. handled [] (record t { reader = record t.reader { packet = s } }))

  -- The assertion that there is a `tls_rd_cb` may fail.
  unfoldable pub evt_on_rd : Option (List ℕ) → TlsReader → Handled TlsReader
  unfolding uv_rd_cb
  evt_on_rd data' t = elim t.reads [ true ↦ uv_rd_cb data' t | false ↦ asserts [] ]

  unfoldable pub on_event : TlsEvent → TlsReader → Handled TlsReader
  unfolding on_hd_complete evt_on_rd
  on_event (handshake status) t = handled [] (on_hd_complete status t)
  on_event (decrypted data') t = evt_on_rd data' t

  -- The calls of the TLS library, one after the other.
  unfoldable pub on_events : List TlsEvent → TlsReader → Handled TlsReader
  unfolding on_event
  on_events [] t = handled [] t
  on_events (e ∷ es) t = then_handle (on_events es) (on_event e t)

abbrev pub pieces : List (Option (List ℕ)) → List TlsEvent
pieces [] = []
pieces (a ∷ as') = decrypted a ∷ pieces as'

-- A client with TLS.
abbrev pub secured : Bool → PacketSync → List (List ℕ) → ℕ → Closing → TlsReader
secured reads s fed n c = record {
  reader = record { need_tls = true; packet = s; fed = fed; buffers = n; closing = c };
  reads = reads;
}

module _ (throws : Frame → Bool) (fed : List (List ℕ)) (n : ℕ) (c : Closing) where
  abbrev pub at_rest : PacketSync → TlsReader
  at_rest s = secured true s fed n c

  -- A piece with bytes, and the pieces behind it.
  read_piece :
      (es : List TlsEvent) (d : List ℕ) (s s' : PacketSync) (gs : List Frame)
      → recvdata s d ≡ done gs s'
      → on_events throws (decrypted (some d) ∷ es) (at_rest s)
        ≡ get_packets throws gs (on_events throws es (at_rest s'))
  unfolding on_events
  read_piece es d s s' gs e =
      ap
        (λ o.
          then_handle (on_events throws es)
            (after_recvdata throws o (λ s2. handled [] (at_rest s2))))
        e
      ∙ then_handle-get_packets throws (on_events throws es) gs (at_rest s')

  on_events-recv_all :
      (as' : List (Option (List ℕ))) (s s' : PacketSync) (fs : List Frame)
      → recv_all s (chunks as') ≡ done fs s'
      → on_events throws (pieces as') (at_rest s) ≡ get_packets throws fs (handled [] (at_rest s'))
  unfolding on_events recv_all get_packets
  on_events-recv_all [] s s' fs e =
      let p : [] ≡ fs = cc in
      let q : s ≡ s' = cc in
      subst (λ l. handled [] (at_rest s) ≡ get_packets throws l (handled [] (at_rest s'))) p
        (ap (λ t. handled [] (at_rest t)) q)
  on_events-recv_all (none ∷ as') s s' fs e = behind-nil _ ∙ on_events-recv_all as' s s' fs e
  on_events-recv_all (some d ∷ as') s s' fs e =
      let (gs, hs, t, p, q, r) =
        recv_then-done (λ t. recv_all t (chunks as')) (recvdata s d) fs s' e in
      read_piece (pieces as') d s t gs p
      ∙ ap (get_packets throws gs) (on_events-recv_all as' t s' hs q)
      ∙ get_packets-append throws gs hs (handled [] (at_rest s'))
      ∙ ap (λ l. get_packets throws l (handled [] (at_rest s'))) r

  -- The end of the handshake, and the pieces behind it.
  after_handshake :
      (es : List TlsEvent) (reads : Bool) (s : PacketSync)
      → on_events throws (handshake 1 ∷ es) (secured reads s fed n c)
        ≡ on_events throws es (at_rest s)
  unfolding on_events
  after_handshake es reads s = behind-nil _

-- A client with TLS completes its handshake and sends packets that `PacketData` wrote with the marks, data of the
-- announced length and a length below 2 ^ 31 - 1. In whatever pieces the TLS library decrypts the
-- bytes, and whatever calls bring nothing: if ParsePacket returns for each packet, no assertion fails and
-- the packets are delivered one by one, with their data and TAIL; and otherwise the packets up to the
-- first for which ParsePacket throws are delivered, and its exception ends the program. The state of
-- PacketSync was valid and kept no part of a packet, and in the first case is so again.
pub on_events-packet_data :
    (throws : Frame → Bool) (h t n : ℕ) (fed : List (List ℕ)) (c : Closing) (reads : Bool)
    (s : PacketSync) (as' : List (Option (List ℕ))) (ps : List (NetPacket × List ℕ))
    → IsValid h t s
    → IsDrained h t s
    → AllSendable h t ps
    → joined (chunks as') ≡ sent h t ps
    → (All (λ f. throws f ≡ false) (received h t ps)
        × ((s' : PacketSync) × (on_events throws
                (handshake 1 ∷ pieces as')
                (secured reads s fed n c)
              ≡ handled (received h t ps) (secured true s' fed n c))
            × IsValid h t s'
            × IsDrained h t s'))
      ⊎ StopsAt throws
          (received h t ps)
          (on_events throws (handshake 1 ∷ pieces as') (secured reads s fed n c))
on_events-packet_data throws h t n fed c reads s as' ps v d a e =
    let (s', r, v', d') = recv_all-packet_data h t s (chunks as') ps v d a e in
    let q =
      after_handshake throws fed n c (pieces as') reads s
      ∙ on_events-recv_all throws fed n c as' s s' (received h t ps) r in
    elim (get_packets-cases throws (received h t ps) (at_rest throws fed n c s')) [
      | inl (b, k) ↦ inl (b, (s', q ∙ k, v', d'))
      | inr k ↦ inr (subst (StopsAt throws (received h t ps)) (sym q) k)
    ]
