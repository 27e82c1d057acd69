-- ===== src/PacketSync/Refinement/Begin.antt =====
-- A header is found: the room for the body, and the bytes of it in the read buffer.
use ocserver.Common.{
  ℕ, ◌+◌, ◌^◌, ◌≤◌, ◌<◌, ◌≡◌, refl, sym, ap, subst, inl, inr, true, ◌&&◌, none, some, List, ◌∷◌,
  ◌++◌, length, take, drop, get_elem?, length-take, length-drop, take-append-drop, ltb, leb, ◌==◌,
  if◌then◌else◌, arith, append_assoc, ◌∙◌, drop-drop, take_all, get_elem?-none, le→leb, ltb→lt,
  not_ltb→le, Bool-cases,
}
use ocserver.Wire.{net_package_headlen, char_to_net_packet}
use ocserver.Wire.Header.{
  char_to_net_packet-append, char_to_net_packet-length, char_to_net_packet-datalen_lt,
  char_to_net_packet-take,
}
use ocserver.PacketSync.{
  PacketSync, parse_head, buffer_size, fault, body_len, copy_len, available, resync_data,
  resync_len, after_packet, finish, collect, begin_packet,
}
use ocserver.PacketSync.Frames.{stops}
use ocserver.PacketSync.Frames.Verdicts.{classify_oversize}
use ocserver.PacketSync.Refinement.Invariant.{HasPacket, IsValid, header_bytes, Sound}
use ocserver.PacketSync.Refinement.Finish.{IsWhole, finish-Sound}
use ocserver.PacketSync.Refinement.Collect.{
  body_len_eq, header_bytes-length, collect_whole, collect-Sound,
}

copy_len_all : (av want : ℕ) → av < 2 ^ 31 → want ≤ av → copy_len av want ≡ some want
unfolding copy_len
copy_len_all av want a w = ground arith

copy_len_part : (av want : ℕ) → av < want → want < 2 ^ 31 → copy_len av want ≡ some av
unfolding copy_len
copy_len_part av want a w = ground arith

copy_len_negative : (av want : ℕ) → 2 ^ 31 ≤ want → want < 2 ^ 32 → copy_len av want ≡ none
unfolding copy_len
copy_len_negative av want a w = ground arith

-- The state when a header is found.
abbrev begun : PacketSync → ℕ → PacketSync
begun s n = record s {
  parsetype = parse_head;
  packet_len = if ltb s.packet_len (s.packet.datalen + 1) then body_len s.packet else s.packet_len;
  packetdata = take n (drop (s.headpos + 1 + net_package_headlen) s.readdata);
}

begin_copies :
    (s : PacketSync) (d : List ℕ) (n : ℕ)
    → copy_len (available s) (body_len s.packet) ≡ some n
    → begin_packet s d ≡ collect (begun s n) d
unfolding begin_packet
begin_copies s d n e = rw (e, begin_packet)

begin_faults :
    (s : PacketSync) (d : List ℕ)
    → copy_len (available s) (body_len s.packet) ≡ none
    → begin_packet s d ≡ fault
unfolding begin_packet
begin_faults s d e = rw (e, begin_packet)

finish_outside :
    (s : PacketSync) (d : List ℕ)
    → get_elem? s.packetdata s.packet.datalen ≡ none
    → finish s d ≡ fault
unfolding finish
finish_outside s d e = rw (e, finish)

-- `datalen + 1` wraps around to 0: the last byte is looked for outside the buffer.
begin_wraps :
    (s : PacketSync) (d : List ℕ)
    → s.packet.datalen + 1 ≡ 2 ^ 32
    → available s < 2 ^ 31
    → begin_packet s d ≡ fault
begin_wraps s d e l =
    let z : body_len s.packet ≡ 0 = omega arith in
    let c : copy_len (available s) (body_len s.packet) ≡ some 0 =
      rw z (copy_len_all (available s) 0 l (omega arith)) in
    begin_copies s d 0 c
    ∙ collect_whole (begun s 0) d (omega (arith, z))
    ∙ finish_outside (begun s 0) d
        (get_elem?-none (begun s 0).packetdata s.packet.datalen (omega arith))

-- A header that names HEAD and TAIL stands at `headpos`.
pub record HasHeader (h t : ℕ) (s : PacketSync) : Type 0 where
  pub head_eq : s.head ≡ h
  pub tail_eq : s.tail ≡ t
  pub callback : s.packet_cb ≡ true
  pub within : length s.readdata ≤ s.read_len
  pub large : buffer_size ≤ s.read_len
  pub small : s.read_len ≤ 2 ^ 31 + 8
  pub parsed : char_to_net_packet (drop (s.headpos + 1) s.readdata) ≡ some s.packet
  pub named : (s.packet.header == h && s.packet.tail == t) ≡ true

module _ {h t : ℕ} (s : PacketSync) (d : List ℕ) (w : HasHeader h t s) where
  length_behind : length (drop (s.headpos + 1 + net_package_headlen) s.readdata) ≡ available s
  length_behind = omega (arith, length-drop (s.headpos + 1 + net_package_headlen) s.readdata)

  enough : s.headpos + 9 ≤ length s.readdata
  enough =
      omega (
        arith,
        length-drop (s.headpos + 1) s.readdata,
        char_to_net_packet-length _ s.packet w.parsed,
      )

  header_eq :
      header_bytes s ++ drop (s.headpos + 1 + net_package_headlen) s.readdata
      ≡ drop (s.headpos + 1) s.readdata
  header_eq =
      rw (← drop-drop (s.headpos + 1) 8 s.readdata)
        (take-append-drop 8 (drop (s.headpos + 1) s.readdata))

  stream_eq :
      header_bytes s ++ (drop (s.headpos + 1 + net_package_headlen) s.readdata ++ d)
      ≡ drop (s.headpos + 1) s.readdata ++ d
  stream_eq = sym (append_assoc _ _ d) ∙ ap (λ xs. xs ++ d) header_eq

  within_int : available s < 2 ^ 31
  within_int = omega (arith, w.within, w.small, enough)

  taken :
      take (available s) (drop (s.headpos + 1 + net_package_headlen) s.readdata)
      ≡ drop (s.headpos + 1 + net_package_headlen) s.readdata
  taken = take_all _ _ (omega (arith, length_behind))

  room_made :
      (n : ℕ) → s.packet.datalen + 1 < 2 ^ 31 → s.packet.datalen + 1 ≤ (begun s n).packet_len
  room_made n f = ground arith

  begun-HasPacket :
      s.packet.datalen + 1 < 2 ^ 31
      → available s < s.packet.datalen + 1
      → HasPacket h t (begun s (available s))
  begun-HasPacket f lack = record {
    parsed = w.parsed;
    named = w.named;
    fits = f;
    lacks = rw taken (omega (arith, length_behind));
    cut = lack;
    room = room_made (available s) f;
  }

  begun-IsValid :
      s.packet.datalen + 1 < 2 ^ 31
      → available s < s.packet.datalen + 1
      → IsValid h t (begun s (available s))
  begun-IsValid f lack = record {
    head_eq = w.head_eq;
    tail_eq = w.tail_eq;
    callback = w.callback;
    within = w.within;
    large = w.large;
    small = w.small;
    parsing = begun-HasPacket f lack;
  }

  -- The read buffer has a part of the body.
  begin_part :
      s.packet.datalen + 1 < 2 ^ 31
      → available s < s.packet.datalen + 1
      → Sound h t (h ∷ (drop (s.headpos + 1) s.readdata ++ d)) (begin_packet s d)
  begin_part f lack =
      subst (λ xs. Sound h t (h ∷ xs) (begin_packet s d))
        (ap (λ ys. header_bytes s ++ (ys ++ d)) taken ∙ stream_eq)
        (subst (Sound h t (h ∷ (header_bytes s ++ ((begun s (available s)).packetdata ++ d))))
          (sym (begin_copies s d (available s) (copy_len_part _ _ (omega arith) (omega arith))))
          (collect-Sound (begun s (available s)) d (begun-IsValid f lack) (begun-HasPacket f lack)
            refl))

  -- The read buffer has the whole body.
  module _ (f : s.packet.datalen + 1 < 2 ^ 31) (all : s.packet.datalen + 1 ≤ available s) where
    in_buffer : leb (body_len s.packet) (available s) ≡ true
    in_buffer = le→leb _ _ (omega (arith, f, all))

    packet_off :
        drop (s.headpos + net_package_headlen + s.packet.datalen + 2) s.readdata
        ≡ drop (s.packet.datalen + 1) (drop (s.headpos + 1 + net_package_headlen) s.readdata)
    packet_off =
        ap (λ k. drop k s.readdata) (omega arith)
        ∙ sym (drop-drop (s.headpos + 1 + net_package_headlen) (s.packet.datalen + 1) s.readdata)

    whole_eq :
        header_bytes s
          ++ (take (s.packet.datalen + 1) (drop (s.headpos + 1 + net_package_headlen) s.readdata)
              ++ (drop
                    (s.packet.datalen + 1)
                    (drop (s.headpos + 1 + net_package_headlen) s.readdata)
                  ++ d))
        ≡ drop (s.headpos + 1) s.readdata ++ d
    whole_eq =
        ap (◌++◌ (header_bytes s)) (
          sym (append_assoc _ _ d)
          ∙ ap (λ xs. xs ++ d)
              (take-append-drop (s.packet.datalen + 1)
                (drop (s.headpos + 1 + net_package_headlen) s.readdata)))
        ∙ stream_eq

    begun-IsWhole :
        IsWhole h t
          (begun s (s.packet.datalen + 1))
          d
          (header_bytes s)
          (drop (s.packet.datalen + 1) (drop (s.headpos + 1 + net_package_headlen) s.readdata) ++ d)
    unfolding resync_data resync_len after_packet
    begun-IsWhole = record {
      head_eq = w.head_eq;
      tail_eq = w.tail_eq;
      callback = w.callback;
      large = w.large;
      small = w.small;
      named = w.named;
      fits = f;
      header_len = header_bytes-length s s.packet w.parsed;
      body_eq = omega (
        arith,
        length_behind,
        length-take (s.packet.datalen + 1) (drop (s.headpos + 1 + net_package_headlen) s.readdata),
      );
      parsed = char_to_net_packet-take _ _ _ w.parsed;
      back = rw in_buffer (sym whole_eq);
      back_within = rw in_buffer (omega (arith, w.within, length-drop (s.headpos + 1) s.readdata));
      on = rw in_buffer (rw packet_off);
      on_within = rw in_buffer (
          omega (
            arith,
            w.within,
            length-drop (s.headpos + net_package_headlen + s.packet.datalen + 2) s.readdata,
          ));
    }

    begin_finishes : begin_packet s d ≡ finish (begun s (s.packet.datalen + 1)) d
    begin_finishes =
        begin_copies s d (s.packet.datalen + 1)
          (rw (body_len_eq s.packet f) (copy_len_all _ _ within_int all))
        ∙ collect_whole (begun s (s.packet.datalen + 1)) d (omega (arith, begun-IsWhole.body_eq, f))

    begin_all : Sound h t (h ∷ (drop (s.headpos + 1) s.readdata ++ d)) (begin_packet s d)
    begin_all = rw begin_finishes (
        subst (λ xs. Sound h t (h ∷ xs) (finish (begun s (s.packet.datalen + 1)) d)) whole_eq
          (finish-Sound begun-IsWhole))

  -- In a valid state in which a header with the right marks was read, an announced length of
  -- 2 ^ 31 - 1 or more makes the copy of the body run out of the buffers, or the last byte be looked
  -- for outside them.
  pub begin_packet_oversize : 2 ^ 31 ≤ s.packet.datalen + 1 → begin_packet s d ≡ fault
  begin_packet_oversize big =
      let wd = char_to_net_packet-datalen_lt _ s.packet w.parsed in
      elim (Bool-cases (ltb (s.packet.datalen + 1) (2 ^ 32))) [
        | inl y ↦
            let y' = ltb→lt _ _ y in
            begin_faults s d
              (copy_len_negative (available s) (body_len s.packet) (omega arith) (omega arith))
        | inr n ↦
            let n' = not_ltb→le (s.packet.datalen + 1) (2 ^ 32) n in
            begin_wraps s d (omega (arith, wd, n')) within_int
      ]

  begin_oversize :
      2 ^ 31 ≤ s.packet.datalen + 1
      → Sound h t (h ∷ (drop (s.headpos + 1) s.readdata ++ d)) (begin_packet s d)
  begin_oversize big =
      subst (Sound h t (h ∷ (drop (s.headpos + 1) s.readdata ++ d)))
        (sym (begin_packet_oversize big))
        (stops
          (classify_oversize h t s.packet _ (char_to_net_packet-append _ d _ w.parsed) w.named big))

  pub begin-Sound : Sound h t (h ∷ (drop (s.headpos + 1) s.readdata ++ d)) (begin_packet s d)
  begin-Sound = elim (Bool-cases (ltb (s.packet.datalen + 1) (2 ^ 31))) [
    | inl f ↦
        let f' = ltb→lt _ _ f in
        elim (Bool-cases (ltb (available s) (s.packet.datalen + 1))) [
          | inl part ↦ begin_part f' (ltb→lt _ _ part)
          | inr all ↦ begin_all f' (not_ltb→le _ _ all)
        ]
    | inr big ↦ begin_oversize (not_ltb→le _ _ big)
  ]
