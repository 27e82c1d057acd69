-- ===== src/PacketSync/Refinement/Search.antt =====
-- The start of a round: the read buffer is filled, HEAD is looked for, and its header checked.
use ocserver.Common.{
  ℕ, ◌+◌, ◌-◌, ◌^◌, ◌≤◌, ◌<◌, ◌≡◌, sym, ap, subst, ◌⊎◌, inl, inr, true, false, ◌&&◌, some, List,
  ◌∷◌, ◌++◌, length, drop, length-append, length-drop, ltb, ◌==◌, if◌then◌else◌, arith, lt→ltb,
  le→not_ltb, ltb→lt, not_ltb→le, ==_iff, Bool-cases,
}
use ocserver.Wire.{NetPacket, char_to_net_packet}
use ocserver.Wire.Header.{
  char_to_net_packet-append, char_to_net_packet-length, char_to_net_packet-some,
}
use ocserver.PacketSync.{
  Frame, PacketSync, parse_nothing, buffer_size, again, begin_packet, check_header, more,
}
use ocserver.PacketSync.Frames.{Ending, Scans, skips}
use ocserver.PacketSync.Frames.Verdicts.{classify_wrong}
use ocserver.PacketSync.Refinement.Invariant.{IsValid, pending, Sound, Sound-weaken}
use ocserver.PacketSync.Refinement.Begin.{HasHeader, begin-Sound}

pub pending_nothing : (s : PacketSync) → s.parsetype ≡ parse_nothing → pending s ≡ s.readdata
pending_nothing s e = rw e

not_zero : (n : ℕ) → (n == 0) ≡ false → 0 < n
not_zero n e = ground arith

-- HEAD stands at `headpos`, and the data is used up if the buffer is not full.
pub record HasHead (h t : ℕ) (s : PacketSync) (d : List ℕ) : Type 0 where
  pub head_eq : s.head ≡ h
  pub tail_eq : s.tail ≡ t
  pub callback : s.packet_cb ≡ true
  pub within : length s.readdata ≤ s.read_len
  pub large : buffer_size ≤ s.read_len
  pub small : s.read_len ≤ 2 ^ 31 + 8
  pub nothing : s.parsetype ≡ parse_nothing
  pub at : drop s.headpos s.readdata ≡ h ∷ drop (s.headpos + 1) s.readdata
  pub before : s.headpos < length s.readdata
  pub used : (length d ≡ 0) ⊎ (length s.readdata ≡ s.read_len)
  pub junk :
      (fs : List Frame) (e : Ending)
      → Scans h t (drop s.headpos s.readdata ++ d) fs e
      → Scans h t (s.readdata ++ d) fs e

module _ {h t : ℕ} (s : PacketSync) (d : List ℕ) (w : HasHead h t s d) where
  from_head :
      (fs : List Frame) (e : Ending)
      → Scans h t (h ∷ (drop (s.headpos + 1) s.readdata ++ d)) fs e
      → Scans h t (s.readdata ++ d) fs e
  from_head fs e sc = w.junk fs e (subst (λ xs. Scans h t (xs ++ d) fs e) (sym w.at) sc)

  shorter-IsValid :
      (p : NetPacket) (xs : List ℕ)
      → length xs ≤ length s.readdata
      → IsValid h t (record s { packet = p; readdata = xs })
  shorter-IsValid p xs l = record {
    head_eq = w.head_eq;
    tail_eq = w.tail_eq;
    callback = w.callback;
    within = omega (arith, w.within);
    large = w.large;
    small = w.small;
    parsing = rw w.nothing tt;
  }

  check_short :
      length s.readdata - s.headpos - 1 < 8
      → check_header s d
        ≡ again (if s.headpos == 0 then s else record s { readdata = drop s.headpos s.readdata }) d
  unfolding check_header
  check_short l = rw (lt→ltb (length s.readdata - s.headpos - 1) 8 l)

  -- With HEAD in front there is nothing left to do: the buffer has room, so the data is used up.
  ends : length s.readdata - s.headpos - 1 < 8 → s.headpos ≡ 0 → more s d ≡ false
  unfolding more
  ends l z = ground (arith, w.used, w.large)

  short-Sound :
      length s.readdata - s.headpos - 1 < 8
      → Sound h t (s.readdata ++ d) (
          again (if s.headpos == 0 then s else record s { readdata = drop s.headpos s.readdata }) d)
  short-Sound l = elim (Bool-cases (s.headpos == 0)) [
    | inl z ↦ rw z (
      shorter-IsValid s.packet s.readdata (omega arith),
      inr (ends l ((==_iff s.headpos 0).0 z)),
      λ fs e sc. subst (λ xs. Scans h t (xs ++ d) fs e) (pending_nothing s w.nothing) sc,
    )
    | inr n ↦
        let s' : PacketSync = record s { readdata = drop s.headpos s.readdata } in
        rw n (
          shorter-IsValid s.packet _ (omega (arith, length-drop s.headpos s.readdata)),
          inl (
              omega (
                arith,
                ap length (ap (λ xs. xs ++ d) (pending_nothing s' w.nothing)),
                length-append (drop s.headpos s.readdata) d,
                length-append s.readdata d,
                length-drop s.headpos s.readdata,
                w.before,
                not_zero s.headpos n,
              )),
          λ fs e sc.
              w.junk fs e
                (subst (λ xs. Scans h t (xs ++ d) fs e) (pending_nothing s' w.nothing) sc),
        )
  ]

  module _ (p : NetPacket)
      (parsed : char_to_net_packet (drop (s.headpos + 1) s.readdata) ≡ some p) where
    long : ltb (length s.readdata - s.headpos - 1) 8 ≡ false
    long = le→not_ltb (length s.readdata - s.headpos - 1) 8 (
        omega (arith, char_to_net_packet-length _ p parsed, length-drop (s.headpos + 1) s.readdata))

    -- The header does not repeat HEAD and TAIL.
    wrong-Sound :
        (p.header == h && p.tail == t) ≡ false
        → Sound h t
            (s.readdata ++ d)
            (again (record s { packet = p; readdata = drop (s.headpos + 1) s.readdata }) d)
    wrong-Sound n =
        let s' : PacketSync = record s { packet = p; readdata = drop (s.headpos + 1) s.readdata } in
        (
          shorter-IsValid p _ (omega (arith, length-drop (s.headpos + 1) s.readdata)),
          inl (
              omega (
                arith,
                ap length (ap (λ xs. xs ++ d) (pending_nothing s' w.nothing)),
                length-append (drop (s.headpos + 1) s.readdata) d,
                length-append s.readdata d,
                length-drop (s.headpos + 1) s.readdata,
                w.before,
              )),
          λ fs e sc. from_head fs e (
              skips (classify_wrong h t p _ (char_to_net_packet-append _ d p parsed) n)
                (subst (λ xs. Scans h t (xs ++ d) fs e) (pending_nothing s' w.nothing) sc)),
        )

    check_wrong :
        (p.header == h && p.tail == t) ≡ false
        → check_header s d
          ≡ again (record s { packet = p; readdata = drop (s.headpos + 1) s.readdata }) d
    unfolding check_header
    check_wrong n = rw long (rw (parsed, check_header) (rw (w.head_eq, w.tail_eq) (rw n)))

    check_right :
        (p.header == h && p.tail == t) ≡ true
        → check_header s d ≡ begin_packet (record s { packet = p }) d
    unfolding check_header
    check_right y = rw long (rw (parsed, check_header) (rw (w.head_eq, w.tail_eq) (rw y)))

    right-HasHeader :
        (p.header == h && p.tail == t) ≡ true → HasHeader h t (record s { packet = p })
    right-HasHeader y = record {
      head_eq = w.head_eq;
      tail_eq = w.tail_eq;
      callback = w.callback;
      within = w.within;
      large = w.large;
      small = w.small;
      parsed = parsed;
      named = y;
    }

    long-Sound : Sound h t (s.readdata ++ d) (check_header s d)
    long-Sound = elim (Bool-cases (p.header == h && p.tail == t)) [
      | inl y ↦ rw (check_right y) (
          Sound-weaken h t (h ∷ (drop (s.headpos + 1) s.readdata ++ d)) (s.readdata ++ d) _
            (omega (
              arith,
              length-append (drop (s.headpos + 1) s.readdata) d,
              length-append s.readdata d,
              length-drop (s.headpos + 1) s.readdata,
              w.before,
            ))
            from_head (begin-Sound (record s { packet = p }) d (right-HasHeader y)))
      | inr n ↦ rw (check_wrong n) (wrong-Sound n)
    ]

  pub check-Sound : Sound h t (s.readdata ++ d) (check_header s d)
  check-Sound = elim (Bool-cases (ltb (length s.readdata - s.headpos - 1) 8)) [
    | inl y ↦ rw (check_short (ltb→lt _ _ y)) (short-Sound (ltb→lt _ _ y))
    | inr n ↦
        let l = not_ltb→le (length s.readdata - s.headpos - 1) 8 n in
        let (p, e) =
          char_to_net_packet-some (drop (s.headpos + 1) s.readdata)
            (omega (arith, l, length-drop (s.headpos + 1) s.readdata)) in
        long-Sound p e
  ]
