-- ===== src/PacketSync/Refinement/Loop.antt =====
-- The loop of `recvdata`: it ends, and what it called back are the frames of the stream.
use ocserver.Common.{
  ℕ, zero, suc, ◌+◌, ◌^◌, ◌≤◌, ◌<◌, ◌≡◌, refl, sym, ap, subst, ◌⊎◌, inl, inr, true, false, ◌&&◌,
  none, some, List, [], ◌∷◌, ◌++◌, length, drop, length-append, length-take, ltb, ◌==◌, arith,
  append-nil, ltb→lt, not_ltb→le, ==_iff, ==_self, Bool-cases, Option-cases,
}
use ocserver.Wire.{NetPacket, char_to_net_packet}
use ocserver.PacketSync.{
  Frame, PacketSync, ParseType, parse_head, parse_nothing, Next, again, called, returned, fault,
  recv_round, more, Outcome, done, crashed, stuck, after_call, recv_loop, recvdata,
}
use ocserver.PacketSync.Frames.{
  wait, classify, classify_header, Ending, rest, too_long, Scans, waits, stops, skips,
}
use ocserver.PacketSync.Frames.Verdicts.{classify_wrong, classify_oversize, classify_lacks}
use ocserver.PacketSync.Refinement.Invariant.{
  HasPacket, WhileParsing, IsValid, pending, header_bytes, Sound,
}
use ocserver.PacketSync.Refinement.Search.{pending_nothing}
use ocserver.PacketSync.Refinement.Collect.{pending_packet, packet_waits}
use ocserver.PacketSync.Refinement.Search.{pending_nothing}
use ocserver.PacketSync.Refinement.Round.{round-Sound, more_pos}

not_more :
    (s : PacketSync) (d : List ℕ) → more s d ≡ false → (length d ≡ 0) × (length s.readdata < 10)
unfolding more
not_more s d m = ground arith

append_empty : (xs d : List ℕ) → length d ≡ 0 → xs ++ d ≡ xs
append_empty xs [] l = append-nil xs
append_empty xs (x ∷ d) l = absurd (omega arith)

pending-length :
    {h t : ℕ} (s : PacketSync)
    → IsValid h t s
    → length (pending s) ≤ length s.readdata + length s.packetdata + 9
pending-length s v = by_type s.parsetype refl
  where
    by_type :
        (pt : ParseType)
        → s.parsetype ≡ pt
        → length (pending s) ≤ length s.readdata + length s.packetdata + 9
    by_type parse_nothing q = omega (arith, ap length (pending_nothing s q))
    by_type parse_head q = omega (
      arith,
      ap length (pending_packet s v q),
      length-append (header_bytes s) s.packetdata,
      length-take 8 (drop (s.headpos + 1) s.readdata),
    )

-- While the loop goes on there is a byte left.
some_pending :
    {h t : ℕ} (s : PacketSync) (d : List ℕ)
    → IsValid h t s
    → more s d ≡ true
    → 0 < length (pending s ++ d)
some_pending s d v m = by_type s.parsetype refl
  where
    by_type : (pt : ParseType) → s.parsetype ≡ pt → 0 < length (pending s ++ d)
    by_type parse_nothing q =
        omega (arith, ap length (pending_nothing s q), length-append (pending s) d, more_pos s d m)
    by_type parse_head q =
        omega (arith, ap length (pending_packet s v q), length-append (pending s) d)

module _ (h t : ℕ) where
  nothing_waits : classify h t [] ≡ wait
  unfolding classify
  nothing_waits = refl

  -- What is left when the loop ends is too short for a frame.
  short-Scans : (xs : List ℕ) → length xs < 10 → (e : Ending) × Scans h t xs [] e
  short-Scans [] l = (rest [], waits nothing_waits)
  short-Scans (x ∷ xs) l = elim (Bool-cases (x == h)) [
    | inl y ↦
        subst (λ z. (e : Ending) × Scans h t (z ∷ xs) [] e) (sym ((==_iff x h).0 y))
          (at_head (Option-cases (char_to_net_packet xs)) (short-Scans xs (omega arith)))
    | inr n ↦
        let (e, sc) = short-Scans xs (omega arith) in
        (e, skips {xs = x ∷ xs} {ys = xs} (unfold classify in rw n) sc)
  ]
    where
      parsed_head :
          (p : NetPacket)
          → char_to_net_packet xs ≡ some p
          → (e : Ending) × Scans h t xs [] e
          → (e : Ending) × Scans h t (h ∷ xs) [] e
      parsed_head p q (e, sc) = elim (Bool-cases (p.header == h && p.tail == t)) [
        | inr n ↦ (e, skips (classify_wrong h t p xs q n) sc)
        | inl y ↦ elim (Bool-cases (ltb (p.datalen + 1) (2 ^ 31))) [
          | inl f ↦
              (rest (h ∷ xs), waits (classify_lacks h t p xs q y (ltb→lt _ _ f) (omega arith)))
          | inr f ↦ (too_long, stops (classify_oversize h t p xs q y (not_ltb→le _ _ f)))
        ]
      ]

      at_head :
          (char_to_net_packet xs ≡ none) ⊎ ((p : NetPacket) × (char_to_net_packet xs ≡ some p))
          → (e : Ending) × Scans h t xs [] e
          → (e : Ending) × Scans h t (h ∷ xs) [] e
      at_head (inl q) r = (
        rest (h ∷ xs),
        waits {xs = h ∷ xs} (unfold classify classify_header in rw (==_self h, q)),
      )
      at_head (inr (p, q)) r = parsed_head p q r

  -- The outcome tells the frames of the stream, and the state that is left goes on where they end.
  abbrev pub Ends : List ℕ → Outcome → Type 0
  Ends xs (done fs s) =
      IsValid h t s × ((e : Ending) × Scans h t xs fs e × Scans h t (pending s) [] e)
  Ends xs (crashed fs) = Scans h t xs fs too_long
  Ends xs stuck = ⊥

  Ends-skip :
      (xs ys : List ℕ) (o : Outcome)
      → ((fs : List Frame) (e : Ending) → Scans h t xs fs e → Scans h t ys fs e)
      → Ends xs o
      → Ends ys o
  Ends-skip xs ys (done fs s) f (v, (e, a, b)) = (v, (e, f fs e a, b))
  Ends-skip xs ys (crashed fs) f a = f fs too_long a
  Ends-skip xs ys stuck f a = a

  Ends-called :
      (xs ys : List ℕ) (fr : Frame) (o : Outcome)
      → ((fs : List Frame) (e : Ending) → Scans h t xs fs e → Scans h t ys (fr ∷ fs) e)
      → Ends xs o
      → Ends ys (after_call fr o)
  Ends-called xs ys fr (done fs s) f (v, (e, a, b)) = (v, (e, f fs e a, b))
  Ends-called xs ys fr (crashed fs) f a = f fs too_long a
  Ends-called xs ys fr stuck f a = a

  -- A state between two calls: what it holds is a packet that waits, or too short for a frame.
  idle :
      (s : PacketSync)
      → IsValid h t s
      → length s.readdata < 10
      → (e : Ending) × Scans h t (pending s) [] e
  idle s v l = by_type s.parsetype refl
    where
      by_type : (pt : ParseType) → s.parsetype ≡ pt → (e : Ending) × Scans h t (pending s) [] e
      by_type parse_nothing q =
          subst (λ xs. (e : Ending) × Scans h t xs [] e) (sym (pending_nothing s q))
            (short-Scans s.readdata l)
      by_type parse_head q =
          let p : HasPacket h t s = subst (λ x. WhileParsing h t x s) q v.parsing in
          subst (λ xs. (e : Ending) × Scans h t xs [] e) (sym (pending_packet s v q))
            (_, waits (packet_waits s p))

  loop_ends :
      (fuel : ℕ) (s : PacketSync) (d : List ℕ)
      → more s d ≡ false
      → recv_loop (suc fuel) s d ≡ done [] s
  unfolding recv_loop
  loop_ends fuel s d m = rw (m, recv_loop)

  abbrev after_round : ℕ → Next → Outcome
  after_round fuel (again s' rest') = recv_loop fuel s' rest'
  after_round fuel (called p body s' rest') = after_call (p, body) (recv_loop fuel s' rest')
  after_round fuel (returned s') = done [] s'
  after_round fuel fault = crashed []

  loop_goes_on :
      (fuel : ℕ) (s : PacketSync) (d : List ℕ)
      → more s d ≡ true
      → recv_loop (suc fuel) s d ≡ after_round fuel (recv_round s d)
  unfolding recv_loop
  loop_goes_on fuel s d m = rw (m, recv_loop)

  ended-Ends :
      (fuel : ℕ) (s : PacketSync) (d : List ℕ)
      → IsValid h t s
      → more s d ≡ false
      → Ends (pending s ++ d) (recv_loop (suc fuel) s d)
  ended-Ends fuel s d v m =
      let (none_left, short) = not_more s d m in
      let (e, sc) = idle s v short in
      rw (loop_ends fuel s d m) (
        v,
        (e, subst (λ xs. Scans h t xs [] e) (sym (append_empty (pending s) d none_left)) sc, sc),
      )

  -- What follows a round, if the rounds after it end well.
  round-Ends :
      (fuel : ℕ) (xs : List ℕ) (n : Next)
      → ((s : PacketSync) (d : List ℕ)
          → IsValid h t s
          → length (pending s ++ d) < fuel
          → Ends (pending s ++ d) (recv_loop fuel s d))
      → length xs < suc fuel
      → 0 < length xs
      → Sound h t xs n
      → Ends xs (after_round fuel n)
  round-Ends fuel xs (again s d) ih l z (v, inl less, k) =
      Ends-skip (pending s ++ d) xs _ k (ih s d v (omega arith))
  round-Ends zero xs (again s d) ih l z (v, inr m, k) = absurd (omega arith)
  round-Ends (suc fuel) xs (again s d) ih l z (v, inr m, k) =
      Ends-skip (pending s ++ d) xs _ k (ended-Ends fuel s d v m)
  round-Ends fuel xs (called p body s d) ih l z (v, less, k) =
      Ends-called (pending s ++ d) xs (p, body) _ k (ih s d v (omega arith))
  round-Ends fuel xs (returned s) ih l z (v, k, c) = (v, (rest (pending s), k, waits c))
  round-Ends fuel xs fault ih l z k = k

  -- With fuel for each byte the loop ends.
  pub recv_loop-Ends :
      (fuel : ℕ) (s : PacketSync) (d : List ℕ)
      → IsValid h t s
      → length (pending s ++ d) < fuel
      → Ends (pending s ++ d) (recv_loop fuel s d)
  recv_loop-Ends zero s d v l = absurd (omega arith)
  recv_loop-Ends (suc fuel) s d v l = elim (Bool-cases (more s d)) [
    | inl m ↦ rw (loop_goes_on fuel s d m) (
        round-Ends fuel (pending s ++ d) (recv_round s d) (recv_loop-Ends fuel) l
          (some_pending s d v m) (round-Sound s d v m))
    | inr m ↦ ended-Ends fuel s d v m
  ]

-- From a valid state `recvdata` hands the callback exactly the frames of the stream of the bytes that were pending and
-- those that arrive; what it keeps pending goes on where these end. It crashes only at an oversized
-- header, and it always ends.
pub recvdata-Ends :
    (h t : ℕ) (s : PacketSync) (d : List ℕ)
    → IsValid h t s
    → Ends h t (pending s ++ d) (recvdata s d)
unfolding recvdata
recvdata-Ends h t s d v =
    recv_loop-Ends h t _ s d v (omega (arith, pending-length s v, length-append (pending s) d))
