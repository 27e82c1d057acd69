-- ===== src/PacketSync/Streams.antt =====
-- Whole streams: calls of `recvdata` one after the other, and the packets that `PacketData` wrote.
use ocserver.Common.{
  ℕ, ◌+◌, ◌^◌, ◌<◌, ◌≡◌, refl, sym, ap, subst, true, some, List, [], ◌∷◌, ◌++◌, length, get_elem?,
  arith, append_assoc, append-nil, ◌∙◌, take_all, length-append, ==_iff, get_elem?-append_right,
}
use mathlib.Core.Path.{ap₂}
use ocserver.Wire.{NetPacket, IsNetPacket, IsByte, net_packet_to_char}
use ocserver.Wire.RoundTrip.{char_to_net_packet-net_packet_to_char, length-net_packet_to_char}
use ocserver.PacketSync.{
  Frame, PacketSync, Outcome, done, crashed, stuck, recvdata, packet_data, new, set_packet_cb,
  set_hat,
}
use ocserver.PacketSync.Frames.{wait, found, classify, Ending, rest, too_long, Scans, waits, finds}
use ocserver.PacketSync.Frames.Verdicts.{classify_whole}
use ocserver.PacketSync.Frames.Laws.{
  Scans-unique, Scans-append, Scans-append_too_long, Scans-rest-append,
}
use ocserver.PacketSync.Refinement.Invariant.{IsValid, pending}
use ocserver.PacketSync.Refinement.Loop.{Ends, recvdata-Ends}

-- The calls that were made before an outcome.
abbrev pub with_frames : List Frame → Outcome → Outcome
with_frames fs (done gs s) = done (fs ++ gs) s
with_frames fs (crashed gs) = crashed (fs ++ gs)
with_frames fs stuck = stuck

abbrev pub frames : Outcome → List Frame
frames (done fs s) = fs
frames (crashed fs) = fs
frames stuck = []

abbrev pub joined : List (List ℕ) → List ℕ
joined [] = []
joined (d ∷ ds) = d ++ joined ds

-- The buffers that `uv_read_start` delivers, in their order.
abbrev pub recv_then : (PacketSync → Outcome) → Outcome → Outcome
recv_then k (done fs s) = with_frames fs (k s)
recv_then k (crashed fs) = crashed fs
recv_then k stuck = stuck

unfoldable pub recv_all : PacketSync → List (List ℕ) → Outcome
recv_all s [] = done [] s
recv_all s (d ∷ ds) = recv_then (λ s'. recv_all s' ds) (recvdata s d)

module _ (h t : ℕ) where
  goes_on :
      (xs ps zs : List ℕ) (fs gs : List Frame) (e d : Ending)
      → Scans h t xs fs e
      → Scans h t ps [] e
      → Scans h t (ps ++ zs) gs d
      → Scans h t (xs ++ zs) (fs ++ gs) d
  goes_on xs ps zs fs gs (rest r) d a b c = Scans-append zs a (Scans-rest-append zs b c)
  goes_on xs ps zs fs gs too_long d a b c =
      let (p, q) = Scans-unique (Scans-append_too_long zs b) c in
      subst (λ e. Scans h t (xs ++ zs) (fs ++ gs) e) q
        (subst (λ l. Scans h t (xs ++ zs) (fs ++ l) too_long) p
          (rw (append-nil fs) (Scans-append_too_long zs a)))

  Ends-then :
      (xs ps zs : List ℕ) (fs : List Frame) (e : Ending) (o : Outcome)
      → Scans h t xs fs e
      → Scans h t ps [] e
      → Ends h t (ps ++ zs) o
      → Ends h t (xs ++ zs) (with_frames fs o)
  Ends-then xs ps zs fs e (done gs s) a b (v, (d, c, i)) =
      (v, (d, goes_on xs ps zs fs gs e d a b c, i))
  Ends-then xs ps zs fs e (crashed gs) a b c = goes_on xs ps zs fs gs e too_long a b c
  Ends-then xs ps zs fs e stuck a b c = c

  -- Between two calls the bytes that are kept hold no frame.
  abbrev pub Rests : PacketSync → Type 0
  Rests s = (e : Ending) × Scans h t (pending s) [] e

  -- From a valid state whose pending bytes hold no frame, calls of `recvdata` one after the other end,
  -- and hand over the frames of the whole stream, however it is cut into buffers.
  pub recv_all-Ends :
      (s : PacketSync) (ds : List (List ℕ))
      → IsValid h t s
      → Rests s
      → Ends h t (pending s ++ joined ds) (recv_all s ds)
  unfolding recv_all
  recv_all-Ends s [] v (e, r) = (v, (e, rw (append-nil (pending s)) r, r))
  recv_all-Ends s (d ∷ ds) v r =
      subst (λ xs. Ends h t xs (recv_all s (d ∷ ds))) (append_assoc (pending s) d (joined ds))
        (next (recvdata s d) (recvdata-Ends h t s d v) (λ s' v' r'. recv_all-Ends s' ds v' r'))
    where
      next :
          (o : Outcome)
          → Ends h t (pending s ++ d) o
          → ((s' : PacketSync)
              → IsValid h t s'
              → Rests s'
              → Ends h t (pending s' ++ joined ds) (recv_all s' ds))
          → Ends h t ((pending s ++ d) ++ joined ds) (recv_then (λ s'. recv_all s' ds) o)
      next (done fs s') (v', (e, a, b)) ih =
          Ends-then (pending s ++ d) (pending s') (joined ds) fs e (recv_all s' ds) a b
            (ih s' v' (e, b))
      next (crashed fs) a ih = Scans-append_too_long (joined ds) a
      next stuck a ih = a

  frames-Scans :
      (xs : List ℕ) (o : Outcome) → Ends h t xs o → (e : Ending) × Scans h t xs (frames o) e
  frames-Scans xs (done fs s) (v, (e, a, b)) = (e, a)
  frames-Scans xs (crashed fs) a = (too_long, a)
  frames-Scans xs stuck a = absurd a

  -- From a valid state whose pending bytes hold no frame, the packets that the callback gets depend
  -- on the bytes, and not on how they are cut into buffers.
  pub recv_all_chunks :
      (s : PacketSync) (ds es : List (List ℕ))
      → IsValid h t s
      → Rests s
      → joined ds ≡ joined es
      → frames (recv_all s ds) ≡ frames (recv_all s es)
  recv_all_chunks s ds es v r q =
      let (d, a) = frames-Scans _ _ (recv_all-Ends s ds v r) in
      let (e, b) = frames-Scans _ _ (recv_all-Ends s es v r) in
      (Scans-unique (subst (λ xs. Scans h t (pending s ++ xs) (frames (recv_all s ds)) d) q a) b).0

  -- A packet with its data, as a client sends it to a server with these marks.
  pub record IsSendable (p : NetPacket) (body : List ℕ) : Type 0 where
    pub ranges : IsNetPacket p
    pub header_eq : p.header ≡ h
    pub tail_eq : p.tail ≡ t
    pub body_len : length body ≡ p.datalen
    pub fits : p.datalen + 1 < 2 ^ 31

  abbrev pub AllSendable : List (NetPacket × List ℕ) → Type 0
  AllSendable [] = Unit {0}
  AllSendable ((p, body) ∷ ps) = IsSendable p body × AllSendable ps

  abbrev pub sent : List (NetPacket × List ℕ) → List ℕ
  sent [] = []
  sent ((p, body) ∷ ps) = packet_data p body ++ sent ps

  abbrev pub received : List (NetPacket × List ℕ) → List Frame
  received [] = []
  received ((p, body) ∷ ps) = (p, body ++ (p.tail ∷ [])) ∷ received ps

  packet_data_shape :
      (p : NetPacket) (body more : List ℕ)
      → IsSendable p body
      → packet_data p body ++ more ≡ h ∷ (net_packet_to_char p ++ ((body ++ (p.tail ∷ [])) ++ more))
  unfolding packet_data
  packet_data_shape p body more s = rw (take_all p.datalen body (omega (arith, s.body_len))) (
      ap₂ (λ x xs. x ∷ xs) s.header_eq
        (append_assoc (net_packet_to_char p) (body ++ (p.tail ∷ [])) more))

  last_is_tail :
      (p : NetPacket) (body : List ℕ)
      → length body ≡ p.datalen
      → get_elem? (body ++ (p.tail ∷ [])) p.datalen ≡ some p.tail
  last_is_tail p body l =
      ap (get_elem? (body ++ (p.tail ∷ []))) (omega arith)
      ∙ get_elem?-append_right body (p.tail ∷ []) p.datalen 0 l

  packet_data-classify :
      (p : NetPacket) (body more : List ℕ)
      → IsSendable p body
      → classify h t (packet_data p body ++ more) ≡ found (p, body ++ (p.tail ∷ [])) more
  packet_data-classify p body more s =
      ap (classify h t) (packet_data_shape p body more s)
      ∙ classify_whole h t p (net_packet_to_char p) (body ++ (p.tail ∷ [])) more p.tail
          (char_to_net_packet-net_packet_to_char p _ s.ranges)
          (ground (arith, s.header_eq, s.tail_eq)) s.fits (length-net_packet_to_char p)
          (omega (arith, length-append body (p.tail ∷ []), s.body_len))
          (last_is_tail p body s.body_len)
      ∙ rw ((==_iff p.tail t).1 s.tail_eq)

  empty_waits : classify h t [] ≡ wait
  unfolding classify
  empty_waits = refl

  sent-Scans :
      (ps : List (NetPacket × List ℕ))
      → AllSendable ps
      → Scans h t (sent ps) (received ps) (rest [])
  sent-Scans [] a = waits empty_waits
  sent-Scans ((p, body) ∷ ps) (a, as') =
      finds (packet_data-classify p body (sent ps) a) (sent-Scans ps as')

  -- The state keeps no part of a packet.
  abbrev pub IsDrained : PacketSync → Type 0
  IsDrained s = Scans h t (pending s) [] (rest [])

  sent_outcome :
      (xs : List ℕ) (fs : List Frame) (o : Outcome)
      → Scans h t xs fs (rest [])
      → Ends h t xs o
      → (s : PacketSync) × (o ≡ done fs s) × IsValid h t s × IsDrained s
  sent_outcome xs fs (done gs s) a (v, (e, b, c)) =
      let (p, q) = Scans-unique b a in
      (s, ap (λ l. done l s) p, v, subst (λ d. Scans h t (pending s) [] d) q c)
  sent_outcome xs fs (crashed gs) a b = let (p, q) = Scans-unique b a in absurd (cc)
  sent_outcome xs fs stuck a b = absurd b

  -- From a valid state that keeps no part of a packet: packets that `PacketData` wrote with the marks,
  -- data of the announced length and a length below 2 ^ 31 - 1 are handed to the callback one by one,
  -- with their data and TAIL, however their bytes are cut into buffers; `recvdata` returns, the state
  -- is valid again, and nothing of them is kept.
  pub recv_all-packet_data :
      (s : PacketSync) (ds : List (List ℕ)) (ps : List (NetPacket × List ℕ))
      → IsValid h t s
      → IsDrained s
      → AllSendable ps
      → joined ds ≡ sent ps
      → (s' : PacketSync) × (recv_all s ds ≡ done (received ps) s') × IsValid h t s' × IsDrained s'
  recv_all-packet_data s ds ps v r a q =
      sent_outcome (pending s ++ joined ds) (received ps) (recv_all s ds)
        (subst (λ xs. Scans h t (pending s ++ xs) (received ps) (rest [])) (sym q)
          (Scans-append (sent ps) r (sent-Scans ps a)))
        (recv_all-Ends s ds v (rest [], r))

-- A new `PacketSync` with a callback and marks that are bytes satisfies the invariant and has nothing
-- pending.
pub new-IsValid :
    (h t : ℕ)
    → IsByte h
    → IsByte t
    → IsValid h t (set_hat (set_packet_cb new true) h t)
      × (pending (set_hat (set_packet_cb new true) h t) ≡ [])
unfolding new set_packet_cb set_hat
new-IsValid h t a b = (
  record {
    head_eq = omega arith;
    tail_eq = omega arith;
    callback = refl;
    within = omega arith;
    large = omega arith;
    small = omega arith;
    parsing = tt;
  },
  refl,
)
