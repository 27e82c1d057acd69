-- ===== src/PacketSync/Refinement/Round.antt =====
-- One round of the loop of `recvdata`, from the filling of the read buffer on.
use ocserver.Common.{
  ℕ, ◌+◌, ◌-◌, ◌≤◌, ◌<◌, min, ◌≡◌, refl, sym, ap, subst, ◌⊎◌, inl, inr, true, none, some, List, [],
  ◌∷◌, ◌++◌, length, take, drop, length-append, length-take, length-drop, take-append-drop, ltb,
  arith, append_assoc, ◌∙◌, ltb→lt, not_ltb→le, Bool-cases, Option-cases,
}
use ocserver.Wire.{net_package_headlen}
use ocserver.PacketSync.{
  PacketSync, ParseType, parse_head, parse_nothing, again, memchr, collect, check_header, find_head,
  round_of, recv_round, more,
}
use ocserver.PacketSync.Frames.{Scans}
use ocserver.PacketSync.Frames.Verdicts.{memchr-none, memchr-some, memchr_at}
use ocserver.PacketSync.Refinement.Invariant.{
  HasPacket, WhileParsing, IsValid, pending, header_bytes, Sound,
}
use ocserver.PacketSync.Refinement.Collect.{collect-Sound}
use ocserver.PacketSync.Refinement.Collect.{collect-Sound, pending_packet}
use ocserver.PacketSync.Refinement.Search.{HasHead, check-Sound, pending_nothing}

abbrev filled : PacketSync → List ℕ → PacketSync
filled s d = record s { readdata = s.readdata ++ take (s.read_len - length s.readdata) d }

abbrev left_over : PacketSync → List ℕ → List ℕ
left_over s d = drop (s.read_len - length s.readdata) d

find_none :
    (s : PacketSync) (d : List ℕ)
    → memchr s.head (filled s d).readdata ≡ none
    → find_head s d ≡ again (record s { readdata = [] }) (left_over s d)
unfolding find_head
find_none s d e = rw (e, find_head)

find_some :
    (s : PacketSync) (d : List ℕ) (i : ℕ)
    → memchr s.head (filled s d).readdata ≡ some i
    → find_head s d ≡ check_header (record (filled s d) { headpos = i }) (left_over s d)
unfolding find_head
find_some s d i e = rw (e, find_head)

pub more_pos :
    (s : PacketSync) (d : List ℕ)
    → more s d ≡ true
    → (0 < length d) ⊎ (net_package_headlen + 2 ≤ length s.readdata)
unfolding more
more_pos s d m = ground arith

module _ {h t : ℕ} (s : PacketSync) (d : List ℕ) (v : IsValid h t s)
    (pt : s.parsetype ≡ parse_nothing) where
  fill_eq : (filled s d).readdata ++ left_over s d ≡ s.readdata ++ d
  fill_eq =
      append_assoc s.readdata _ (left_over s d)
      ∙ ap (◌++◌ s.readdata) (take-append-drop (s.read_len - length s.readdata) d)

  length_fill :
      length (filled s d).readdata
      ≡ length s.readdata + min (s.read_len - length s.readdata) (length d)
  length_fill = omega (
    arith,
    length-append s.readdata (take (s.read_len - length s.readdata) d),
    length-take (s.read_len - length s.readdata) d,
  )

  fill_used : (length (left_over s d) ≡ 0) ⊎ (length (filled s d).readdata ≡ s.read_len)
  fill_used = elim (Bool-cases (ltb (s.read_len - length s.readdata) (length d))) [
    | inl y ↦ inr (omega (arith, ltb→lt _ _ y, length_fill, v.within))
    | inr n ↦ inl (
        omega (
          arith,
          not_ltb→le (s.read_len - length s.readdata) (length d) n,
          length-drop (s.read_len - length s.readdata) d,
        ))
  ]

  none-Sound :
      more s d ≡ true
      → memchr s.head (filled s d).readdata ≡ none
      → Sound h t (s.readdata ++ d) (again (record s { readdata = [] }) (left_over s d))
  none-Sound m e = (
    record {
      head_eq = v.head_eq;
      tail_eq = v.tail_eq;
      callback = v.callback;
      within = omega arith;
      large = v.large;
      small = v.small;
      parsing = rw pt tt;
    },
    inl (
        omega (
          arith,
          ap length
              (ap (λ xs. xs ++ left_over s d) (pending_nothing (record s { readdata = [] }) pt)),
          length-append s.readdata d,
          length-drop (s.read_len - length s.readdata) d,
          v.within,
          v.large,
          more_pos s d m,
        )),
    λ fs e' sc.
        subst (λ xs. Scans h t xs fs e') fill_eq
          (memchr-none h t (filled s d).readdata (left_over s d) (rw (← v.head_eq) e) (
            subst (λ xs. Scans h t (xs ++ left_over s d) fs e')
              (pending_nothing (record s { readdata = [] }) pt) sc)),
  )

  some-HasHead :
      (i : ℕ)
      → memchr s.head (filled s d).readdata ≡ some i
      → HasHead h t (record (filled s d) { headpos = i }) (left_over s d)
  some-HasHead i e =
      let (a, b) = memchr_at s.head (filled s d).readdata i e in
      record {
        head_eq = v.head_eq;
        tail_eq = v.tail_eq;
        callback = v.callback;
        within = omega (arith, v.within, length_fill);
        large = v.large;
        small = v.small;
        nothing = pt;
        at = rw (← v.head_eq) a;
        before = b;
        used = fill_used;
        junk = λ fs e' sc.
            memchr-some h t (filled s d).readdata (left_over s d) i (rw (← v.head_eq) e) sc;
      }

  find-Sound : more s d ≡ true → Sound h t (s.readdata ++ d) (find_head s d)
  find-Sound m = elim (Option-cases (memchr s.head (filled s d).readdata)) [
    | inl e ↦ rw (find_none s d e) (none-Sound m e)
    | inr (i, e) ↦ rw (find_some s d i e) (
        subst
          (λ xs. Sound h t xs (check_header (record (filled s d) { headpos = i }) (left_over s d)))
          fill_eq
          (check-Sound (record (filled s d) { headpos = i }) (left_over s d) (some-HasHead i e)))
  ]

-- The round from any state, for the stream of the bytes that it holds and those that arrive.
module _ {h t : ℕ} (s : PacketSync) (d : List ℕ) (v : IsValid h t s) (m : more s d ≡ true) where
  round_searches : s.parsetype ≡ parse_nothing → recv_round s d ≡ find_head s d
  unfolding recv_round round_of
  round_searches e = ap (λ p. round_of p s d) e

  round_collects : s.parsetype ≡ parse_head → recv_round s d ≡ collect s d
  unfolding recv_round round_of
  round_collects e = ap (λ p. round_of p s d) e

  round_by : (pt : ParseType) → s.parsetype ≡ pt → Sound h t (pending s ++ d) (recv_round s d)
  round_by parse_nothing e = rw (round_searches e) (
      subst (λ xs. Sound h t (xs ++ d) (find_head s d)) (sym (pending_nothing s e))
        (find-Sound s d v e m))
  round_by parse_head e =
      let p : HasPacket h t s = subst (λ x. WhileParsing h t x s) e v.parsing in
      rw (round_collects e) (
        subst (λ xs. Sound h t (xs ++ d) (collect s d)) (sym (pending_packet s v e))
          (subst (λ xs. Sound h t (h ∷ xs) (collect s d))
            (sym (append_assoc (header_bytes s) s.packetdata d)) (collect-Sound s d v p e)))

  pub round-Sound : Sound h t (pending s ++ d) (recv_round s d)
  round-Sound = round_by s.parsetype refl
