-- ===== src/PacketSync/Refinement/Finish.antt =====
-- The end of a round: the body of the packet is whole, and its last byte decides.
use ocserver.Common.{
  ℕ, ◌+◌, ◌^◌, ◌≤◌, ◌<◌, ◌≡◌, sym, ap, subst, inl, inr, true, false, ◌&&◌, some, List, ◌∷◌, ◌++◌,
  length, get_elem?, length-append, ◌==◌, if◌then◌else◌, arith, ◌∙◌, get_elem?_lt, Bool-cases,
}
use ocserver.Wire.{char_to_net_packet}
use ocserver.PacketSync.{
  PacketSync, parse_nothing, buffer_size, again, called, resync_data, resync_len, resync,
  after_packet, deliver, finish,
}
use ocserver.PacketSync.Frames.{skip, found, classify, Scans, skips, finds}
use ocserver.PacketSync.Frames.Verdicts.{classify_whole}
use ocserver.PacketSync.Refinement.Invariant.{Sound}

abbrev delivered : PacketSync → PacketSync
delivered s = record s { readdata = after_packet s; parsetype = parse_nothing }

abbrev resynced : PacketSync → PacketSync
resynced s = record s {
  read_len = resync_len s;
  readdata = resync_data s;
  parsetype = parse_nothing;
}

finish_hit :
    (s : PacketSync) (d : List ℕ) (b : ℕ)
    → get_elem? s.packetdata s.packet.datalen ≡ some b
    → (b == s.tail) ≡ true
    → s.packet_cb ≡ true
    → finish s d ≡ called s.packet s.packetdata (delivered s) d
unfolding finish deliver
finish_hit s d b e y c = rw (e, finish) (rw y (rw c))

finish_miss :
    (s : PacketSync) (d : List ℕ) (b : ℕ)
    → get_elem? s.packetdata s.packet.datalen ≡ some b
    → (b == s.tail) ≡ false
    → finish s d ≡ again (resynced s) d
unfolding finish resync
finish_miss s d b e n = rw (e, finish) (rw n)

-- The body of the packet is whole: `hdr` is the header's bytes, `tl` what follows the packet.
pub record IsWhole (h t : ℕ) (s : PacketSync) (d hdr tl : List ℕ) : Type 0 where
  pub head_eq : s.head ≡ h
  pub tail_eq : s.tail ≡ t
  pub callback : s.packet_cb ≡ true
  pub large : buffer_size ≤ s.read_len
  pub small : s.read_len ≤ 2 ^ 31 + 8
  pub named : (s.packet.header == h && s.packet.tail == t) ≡ true
  pub fits : s.packet.datalen + 1 < 2 ^ 31
  pub header_len : length hdr ≡ 8
  pub body_eq : length s.packetdata ≡ s.packet.datalen + 1
  pub parsed : char_to_net_packet (hdr ++ (s.packetdata ++ tl)) ≡ some s.packet
  pub back : resync_data s ++ d ≡ hdr ++ (s.packetdata ++ tl)
  pub back_within : length (resync_data s) ≤ resync_len s
  pub on : after_packet s ++ d ≡ tl
  pub on_within : length (after_packet s) ≤ s.read_len

pub resync_len_bounds :
    (s : PacketSync)
    → buffer_size ≤ s.read_len
    → s.read_len ≤ 2 ^ 31 + 8
    → s.packet.datalen + 1 < 2 ^ 31
    → (buffer_size ≤ resync_len s) × (resync_len s ≤ 2 ^ 31 + 8)
unfolding resync_len
resync_len_bounds s lg sm f = ground arith

module _ {h t : ℕ} {s : PacketSync} {d hdr tl : List ℕ} (w : IsWhole h t s d hdr tl) where
  last_byte : (b : ℕ) × (get_elem? s.packetdata s.packet.datalen ≡ some b)
  last_byte = get_elem?_lt s.packetdata s.packet.datalen (omega arith)

  length_whole : length (hdr ++ (s.packetdata ++ tl)) ≡ 8 + (s.packet.datalen + 1) + length tl
  length_whole =
      omega (arith, length-append hdr (s.packetdata ++ tl), length-append s.packetdata tl)

  verdict :
      (b : ℕ)
      → get_elem? s.packetdata s.packet.datalen ≡ some b
      → classify h t (h ∷ (hdr ++ (s.packetdata ++ tl)))
        ≡ (if b == t then found (s.packet, s.packetdata) tl else skip (hdr ++ (s.packetdata ++ tl)))
  verdict b e =
      classify_whole h t s.packet hdr s.packetdata tl b w.parsed w.named w.fits w.header_len
        w.body_eq e

  hit-Sound :
      (b : ℕ)
      → get_elem? s.packetdata s.packet.datalen ≡ some b
      → (b == t) ≡ true
      → Sound h t (h ∷ (hdr ++ (s.packetdata ++ tl))) (called s.packet s.packetdata (delivered s) d)
  hit-Sound b e y = (
    record {
      head_eq = w.head_eq;
      tail_eq = w.tail_eq;
      callback = w.callback;
      within = w.on_within;
      large = w.large;
      small = w.small;
      parsing = tt;
    },
    omega (arith, length_whole, ap length w.on),
    λ fs e' sc. finds (verdict b e ∙ rw y) (subst (λ v. Scans h t v fs e') w.on sc),
  )

  miss-Sound :
      (b : ℕ)
      → get_elem? s.packetdata s.packet.datalen ≡ some b
      → (b == t) ≡ false
      → Sound h t (h ∷ (hdr ++ (s.packetdata ++ tl))) (again (resynced s) d)
  miss-Sound b e n =
      let (lg, sm) = resync_len_bounds s w.large w.small w.fits in
      (
        record {
          head_eq = w.head_eq;
          tail_eq = w.tail_eq;
          callback = w.callback;
          within = w.back_within;
          large = lg;
          small = sm;
          parsing = tt;
        },
        inl (omega (arith, ap length w.back)),
        λ fs e' sc. skips (verdict b e ∙ rw n) (subst (λ v. Scans h t v fs e') w.back sc),
      )

  pub finish-Sound : Sound h t (h ∷ (hdr ++ (s.packetdata ++ tl))) (finish s d)
  finish-Sound =
      let (b, e) = last_byte in
      elim (Bool-cases (b == t)) [
        | inl y ↦
            subst (Sound h t (h ∷ (hdr ++ (s.packetdata ++ tl))))
              (sym (finish_hit s d b e (rw w.tail_eq y) w.callback)) (hit-Sound b e y)
        | inr n ↦
            subst (Sound h t (h ∷ (hdr ++ (s.packetdata ++ tl))))
              (sym (finish_miss s d b e (rw w.tail_eq n))) (miss-Sound b e n)
      ]
