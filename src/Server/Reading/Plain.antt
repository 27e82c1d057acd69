-- ===== src/Server/Reading/Plain.antt =====
-- src/uv_net.cpp: a client without TLS, whose bytes go to PacketSync.
use ocserver.Common.{
  ℕ, ◌+◌, ◌-◌, ◌≡◌, ◌⊎◌, inl, inr, ap, ◌∙◌, sym, Bool, false, List, [], ◌∷◌, Option, none, some,
  All, arith, subst,
}
use ocserver.Wire.{NetPacket}
use ocserver.PacketSync.{Frame, PacketSync, done, recvdata}
use ocserver.PacketSync.Refinement.Invariant.{IsValid}
use ocserver.PacketSync.Streams.{
  recv_all, joined, sent, received, AllSendable, IsDrained, recv_all-packet_data,
}
use ocserver.Server.Reading.{
  Closing, Reader, Nread, bytes, no_bytes, failure, handled, alloc_buffer, free_buffer,
  after_recvdata, then_handle, get_packets, read_all, closing_handle,
}
use ocserver.Server.Reading.Calls.{
  behind-nil, then_handle-get_packets, get_packets-append, get_packets-cases, recv_then-done,
  StopsAt,
}

-- Reads that do not fail: with bytes, or with none.
abbrev pub arrival : Option (List ℕ) → Nread
arrival none = no_bytes
arrival (some data') = bytes data'

abbrev pub arrivals : List (Option (List ℕ)) → List Nread
arrivals [] = failure ∷ []
arrivals (a ∷ as') = arrival a ∷ arrivals as'

abbrev pub chunks : List (Option (List ℕ)) → List (List ℕ)
chunks [] = []
chunks (none ∷ as') = chunks as'
chunks (some data' ∷ as') = data' ∷ chunks as'

-- A client without TLS in front of its first read, or between two.
abbrev pub plain : PacketSync → List (List ℕ) → ℕ → Closing → Reader
plain s fed n c = record { need_tls = false; packet = s; fed = fed; buffers = n; closing = c }

module _ (throws : Frame → Bool) (fed : List (List ℕ)) (n : ℕ) (c : Closing) where
  -- The end of the connection: its buffer is not freed.
  abbrev pub at_end : PacketSync → Reader
  at_end s = plain s fed (n + 1) closing_handle

  -- A buffer that is freed behind its read.
  freed :
      (s s' : PacketSync)
      → free_buffer (record (alloc_buffer (plain s fed n c)) { packet = s' }) ≡ plain s' fed n c
  unfolding free_buffer alloc_buffer
  freed s s' = let e : n + 1 - 1 ≡ n = omega arith in ap (λ m. plain s' fed m c) e

  -- A read with bytes, and the reads behind it.
  read_bytes :
      (ns : List Nread) (d : List ℕ) (s s' : PacketSync) (gs : List Frame)
      → recvdata s d ≡ done gs s'
      → read_all throws (bytes d ∷ ns) (plain s fed n c)
        ≡ get_packets throws gs (read_all throws ns (plain s' fed n c))
  unfolding read_all
  read_bytes ns d s s' gs e =
      ap
        (λ o. then_handle (read_all throws ns) (
          after_recvdata throws o (λ s2.
            handled [] (free_buffer (record (alloc_buffer (plain s fed n c)) { packet = s2 })))))
        e
      ∙ then_handle-get_packets throws (read_all throws ns) gs _
      ∙ ap (λ r. get_packets throws gs (read_all throws ns r)) (freed s s')

  -- Reads until the end are calls of recvdata.
  pub read_all-recv_all :
      (as' : List (Option (List ℕ))) (s s' : PacketSync) (fs : List Frame)
      → recv_all s (chunks as') ≡ done fs s'
      → read_all throws (arrivals as') (plain s fed n c)
        ≡ get_packets throws fs (handled [] (at_end s'))
  unfolding read_all recv_all get_packets
  read_all-recv_all [] s s' fs e =
      let p : [] ≡ fs = cc in
      let q : s ≡ s' = cc in
      subst (λ l. handled [] (at_end s) ≡ get_packets throws l (handled [] (at_end s'))) p
        (ap (λ t. handled [] (at_end t)) q)
  read_all-recv_all (none ∷ as') s s' fs e =
      behind-nil _
      ∙ ap (read_all throws (arrivals as')) (freed s s)
      ∙ read_all-recv_all as' s s' fs e
  read_all-recv_all (some d ∷ as') s s' fs e =
      let (gs, hs, t, p, q, r) =
        recv_then-done (λ t. recv_all t (chunks as')) (recvdata s d) fs s' e in
      read_bytes (arrivals as') d s t gs p
      ∙ ap (get_packets throws gs) (read_all-recv_all as' t s' hs q)
      ∙ get_packets-append throws gs hs (handled [] (at_end s'))
      ∙ ap (λ l. get_packets throws l (handled [] (at_end s'))) r

-- A client without TLS sends packets that `PacketData` wrote with the marks, data of the announced length and a
-- length below 2 ^ 31 - 1, and disconnects. However the bytes are cut into reads, and whatever reads
-- bring nothing: if ParsePacket returns for each packet, the packets are delivered one by one, with their
-- data and TAIL, then the handle is being closed, and of all the buffers one, that of the last read, is
-- not freed; and otherwise the packets up to the first for which ParsePacket throws are delivered, and its
-- exception ends the program. The state of PacketSync was valid and kept no part of a packet, and in
-- the first case is so again.
pub read_all-packet_data :
    (throws : Frame → Bool) (h t n : ℕ) (fed : List (List ℕ)) (c : Closing) (s : PacketSync)
    (as' : List (Option (List ℕ))) (ps : List (NetPacket × List ℕ))
    → IsValid h t s
    → IsDrained h t s
    → AllSendable h t ps
    → joined (chunks as') ≡ sent h t ps
    → (All (λ f. throws f ≡ false) (received h t ps)
        × ((s' : PacketSync) × (read_all throws (arrivals as') (plain s fed n c)
              ≡ handled (received h t ps) (plain s' fed (n + 1) closing_handle))
            × IsValid h t s'
            × IsDrained h t s'))
      ⊎ StopsAt throws (received h t ps) (read_all throws (arrivals as') (plain s fed n c))
read_all-packet_data throws h t n fed c s as' ps v d a e =
    let (s', r, v', d') = recv_all-packet_data h t s (chunks as') ps v d a e in
    let q = read_all-recv_all throws fed n c as' s s' (received h t ps) r in
    elim (get_packets-cases throws (received h t ps) (at_end throws fed n c s')) [
      | inl (b, k) ↦ inl (b, (s', q ∙ k, v', d'))
      | inr k ↦ inr (subst (StopsAt throws (received h t ps)) (sym q) k)
    ]
