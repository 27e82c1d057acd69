-- ===== src/PacketSync/Refinement/Collect.antt =====
-- The middle of a round: the body of a packet is put together from the data.
use ocserver.Common.{
  ℕ, ◌+◌, ◌-◌, ◌^◌, ◌≤◌, ◌<◌, ◌≡◌, sym, ap, subst, inl, inr, false, some, List, [], ◌∷◌, ◌++◌,
  length, take, drop, length-append, length-take, take-append-drop, ltb, leb, arith, append_assoc,
  ◌∙◌, take_all, lt→ltb, le→not_ltb, lt→not_leb, ltb→lt, not_ltb→le, Bool-cases,
}
use ocserver.Wire.{NetPacket, char_to_net_packet}
use ocserver.Wire.Header.{char_to_net_packet-length, char_to_net_packet-take}
use ocserver.PacketSync.{
  PacketSync, parse_head, returned, body_len, available, resync_data, resync_len, after_packet,
  finish, collect,
}
use ocserver.PacketSync.Frames.{wait, classify, rest, Scans, waits}
use ocserver.PacketSync.Frames.Verdicts.{classify_lacks}
use ocserver.PacketSync.Refinement.Invariant.{HasPacket, IsValid, pending, header_bytes, Sound}
use ocserver.PacketSync.Refinement.Finish.{IsWhole, finish-Sound}

pub body_len_eq : (p : NetPacket) → p.datalen + 1 < 2 ^ 31 → body_len p ≡ p.datalen + 1
body_len_eq p f = omega arith

collect_returns :
    (s : PacketSync) (d : List ℕ)
    → length s.packetdata < body_len s.packet
    → length s.packetdata + length d < body_len s.packet
    → collect s d ≡ returned (record s { packetdata = s.packetdata ++ d })
unfolding collect
collect_returns s d a b = rw (lt→ltb _ _ a) (rw (lt→ltb _ _ b))

collect_finishes :
    (s : PacketSync) (d : List ℕ) (m : ℕ)
    → length s.packetdata + m ≡ body_len s.packet
    → 0 < m
    → m ≤ length d
    → collect s d ≡ finish (record s { packetdata = s.packetdata ++ take m d }) (drop m d)
unfolding collect
collect_finishes s d m e z l =
    let k : body_len s.packet - length s.packetdata ≡ m = omega arith in
    rw (lt→ltb (length s.packetdata) (body_len s.packet) (omega arith))
      (rw (le→not_ltb (length s.packetdata + length d) (body_len s.packet) (omega arith)) (rw k))

pub collect_whole :
    (s : PacketSync) (d : List ℕ)
    → body_len s.packet ≤ length s.packetdata
    → collect s d ≡ finish s d
unfolding collect
collect_whole s d a = rw (le→not_ltb _ _ a)

pub header_bytes-length :
    (s : PacketSync) (p : NetPacket)
    → char_to_net_packet (drop (s.headpos + 1) s.readdata) ≡ some p
    → length (header_bytes s) ≡ 8
header_bytes-length s p e = omega (
  arith,
  char_to_net_packet-length (drop (s.headpos + 1) s.readdata) p e,
  length-take 8 (drop (s.headpos + 1) s.readdata),
)

pub pending_packet :
    {h t : ℕ} (s : PacketSync)
    → IsValid h t s
    → s.parsetype ≡ parse_head
    → pending s ≡ h ∷ (header_bytes s ++ s.packetdata)
pending_packet s v e = rw e (rw v.head_eq)

-- A packet whose body is not there whole waits.
pub packet_waits :
    {h t : ℕ} (s : PacketSync)
    → HasPacket h t s
    → classify h t (h ∷ (header_bytes s ++ s.packetdata)) ≡ wait
packet_waits {h} {t} s p =
    classify_lacks h t s.packet _ (char_to_net_packet-take _ _ _ p.parsed) p.named p.fits (
      omega (
        arith,
        p.lacks,
        length-append (header_bytes s) s.packetdata,
        header_bytes-length s s.packet p.parsed,
      ))

module _ {h t : ℕ} (s : PacketSync) (d : List ℕ) (v : IsValid h t s) (p : HasPacket h t s)
    (pt : s.parsetype ≡ parse_head) where
  -- The body is still not there whole.
  module _ (lack : length s.packetdata + length d < s.packet.datalen + 1) where
    still-IsValid : IsValid h t (record s { packetdata = s.packetdata ++ d })
    still-IsValid = record {
      head_eq = v.head_eq;
      tail_eq = v.tail_eq;
      callback = v.callback;
      within = v.within;
      large = v.large;
      small = v.small;
      parsing = rw pt (record {
        parsed = p.parsed;
        named = p.named;
        fits = p.fits;
        lacks = omega (arith, length-append s.packetdata d);
        cut = p.cut;
        room = p.room;
      });
    }

    still_pending :
        pending (record s { packetdata = s.packetdata ++ d })
        ≡ h ∷ (header_bytes s ++ (s.packetdata ++ d))
    still_pending = rw pt (rw v.head_eq)

    still_waits : classify h t (h ∷ (header_bytes s ++ (s.packetdata ++ d))) ≡ wait
    still_waits =
        classify_lacks h t s.packet _ (char_to_net_packet-take _ _ _ p.parsed) p.named p.fits (
          omega (
            arith,
            length-append (header_bytes s) (s.packetdata ++ d),
            length-append s.packetdata d,
            header_bytes-length s s.packet p.parsed,
          ))

    stays :
        Sound h t
          (h ∷ (header_bytes s ++ (s.packetdata ++ d)))
          (returned (record s { packetdata = s.packetdata ++ d }))
    stays = (
      still-IsValid,
      subst (λ r. Scans h t (h ∷ (header_bytes s ++ (s.packetdata ++ d))) [] (rest r))
          (sym still_pending) (waits still_waits),
      subst (λ r. classify h t r ≡ wait) (sym still_pending) still_waits,
    )

  -- The data completes the body with `m` bytes.
  module _ (m : ℕ) (e : length s.packetdata + m ≡ s.packet.datalen + 1) (l : m ≤ length d) where
    body_whole : length (s.packetdata ++ take m d) ≡ s.packet.datalen + 1
    body_whole = omega (arith, length-append s.packetdata (take m d), length-take m d)

    body_taken : take (body_len s.packet) (s.packetdata ++ take m d) ≡ s.packetdata ++ take m d
    body_taken = take_all _ _ (omega (arith, body_whole, p.fits))

    not_in_buffer : leb (body_len s.packet) (available s) ≡ false
    not_in_buffer = lt→not_leb _ _ (omega (arith, p.cut, p.fits))

    completes :
        IsWhole h t
          (record s { packetdata = s.packetdata ++ take m d })
          (drop m d)
          (header_bytes s)
          (drop m d)
    unfolding resync_data resync_len after_packet
    completes = record {
      head_eq = v.head_eq;
      tail_eq = v.tail_eq;
      callback = v.callback;
      large = v.large;
      small = v.small;
      named = p.named;
      fits = p.fits;
      header_len = header_bytes-length s s.packet p.parsed;
      body_eq = body_whole;
      parsed = char_to_net_packet-take _ _ _ p.parsed;
      back = rw not_in_buffer (rw body_taken (append_assoc (header_bytes s) _ (drop m d)));
      back_within = rw not_in_buffer (
          rw body_taken (
            ground (
              arith,
              length-append (header_bytes s) (s.packetdata ++ take m d),
              header_bytes-length s s.packet p.parsed,
              body_whole,
            )));
      on = rw not_in_buffer;
      on_within = rw not_in_buffer (omega arith);
    }

  pub collect-Sound : Sound h t (h ∷ (header_bytes s ++ (s.packetdata ++ d))) (collect s d)
  collect-Sound = elim (Bool-cases (ltb (length s.packetdata + length d) (s.packet.datalen + 1))) [
    | inl y ↦
        let y' = ltb→lt _ _ y in
        subst (Sound h t (h ∷ (header_bytes s ++ (s.packetdata ++ d))))
          (sym (collect_returns s d (omega (arith, p.lacks, p.fits)) (omega (arith, y', p.fits))))
          (stays y')
    | inr n ↦
        let m : ℕ = s.packet.datalen + 1 - length s.packetdata in
        let n' = not_ltb→le (length s.packetdata + length d) (s.packet.datalen + 1) n in
        let e : length s.packetdata + m ≡ s.packet.datalen + 1 = omega (arith, p.lacks) in
        let l : m ≤ length d = omega (arith, n') in
        let c = collect_finishes s d m (omega (arith, e, p.fits)) (omega (arith, p.lacks)) l in
        let cut =
          append_assoc s.packetdata (take m d) (drop m d)
          ∙ ap (◌++◌ s.packetdata) (take-append-drop m d) in
        subst (Sound h t (h ∷ (header_bytes s ++ (s.packetdata ++ d)))) (sym c) (
          subst
            (λ xs.
              Sound h t (h ∷ (header_bytes s ++ xs))
                (finish (record s { packetdata = s.packetdata ++ take m d }) (drop m d)))
            cut (finish-Sound (completes m e l)))
  ]
