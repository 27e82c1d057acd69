-- ===== src/PacketSync/Frames/Laws.antt =====
-- How the frames of a stream depend on it: more bytes change no verdict, a stream has one list of
-- frames, and it does not matter where the stream is cut.
use ocserver.Common.{
  ℕ, ◌+◌, ◌^◌, ◌<◌, ◌≡◌, refl, ◌≢◌, true, false, ◌&&◌, some, List, [], ◌∷◌, ◌++◌, length, drop,
  get_elem?, take-append_le, drop-append_le, length-drop, ltb, ◌⊎◌, subst, ◌==◌, Bool-cases, inl,
  inr, arith, Option-cases, get_elem?-append_some,
}
use ocserver.Wire.{NetPacket, net_package_headlen, char_to_net_packet}
use ocserver.Wire.Header.{char_to_net_packet-append}
use ocserver.PacketSync.{Frame}
use ocserver.PacketSync.Frames.{
  Verdict, wait, skip, found, oversize, classify_body, classify_header, classify, Ending, rest,
  too_long, Scans, waits, stops, skips, finds,
}

-- A verdict on a stream that goes on with `zs`.
abbrev grow : Verdict → List ℕ → Verdict
grow wait zs = wait
grow (skip ys) zs = skip (ys ++ zs)
grow (found f ys) zs = found f (ys ++ zs)
grow oversize zs = oversize

classify_body-append :
    (t : ℕ) (p : NetPacket) (xs zs : List ℕ)
    → classify_body t p (get_elem? xs (net_package_headlen + p.datalen)) xs ≢ wait
    → classify_body t p (get_elem? (xs ++ zs) (net_package_headlen + p.datalen)) (xs ++ zs)
      ≡ grow (classify_body t p (get_elem? xs (net_package_headlen + p.datalen)) xs) zs
classify_body-append t p xs zs h =
    elim (Option-cases (get_elem? xs (net_package_headlen + p.datalen))) [
      | inl e ↦ absurd (h (rw e (unfold classify_body in refl)))
      | inr (b, e) ↦ let (e', l) = get_elem?-append_some xs zs _ b e in rw (e, e') (same b l)
    ]
  where
    same :
        (b : ℕ)
        → net_package_headlen + p.datalen < length xs
        → classify_body t p (some b) (xs ++ zs) ≡ grow (classify_body t p (some b) xs) zs
    same b l = elim (Bool-cases (b == t)) [
      | inl e ↦
          unfold classify_body in
          rw (
            e,
            drop-append_le net_package_headlen xs zs (omega arith),
            take-append_le (p.datalen + 1) (drop net_package_headlen xs) zs
                (omega (arith, length-drop net_package_headlen xs)),
            drop-append_le (net_package_headlen + p.datalen + 1) xs zs (omega arith),
          )
      | inr e ↦ unfold classify_body in rw e
    ]

classify_header-append :
    (h t : ℕ) (xs zs : List ℕ)
    → classify_header h t (char_to_net_packet xs) xs ≢ wait
    → classify_header h t (char_to_net_packet (xs ++ zs)) (xs ++ zs)
      ≡ grow (classify_header h t (char_to_net_packet xs) xs) zs
classify_header-append h t xs zs n = elim (Option-cases (char_to_net_packet xs)) [
  | inl e ↦ absurd (n (rw e (unfold classify_header in refl)))
  | inr (p, e) ↦
      rw (e, char_to_net_packet-append xs zs p e)
        (same p (λ w. n (rw e w)) (Bool-cases (p.header == h && p.tail == t))
          (Bool-cases (ltb (p.datalen + 1) (2 ^ 31))))
]
  where
    same :
        (p : NetPacket)
        → classify_header h t (some p) xs ≢ wait
        → ((p.header == h && p.tail == t) ≡ true) ⊎ ((p.header == h && p.tail == t) ≡ false)
        → (ltb (p.datalen + 1) (2 ^ 31) ≡ true) ⊎ (ltb (p.datalen + 1) (2 ^ 31) ≡ false)
        → classify_header h t (some p) (xs ++ zs) ≡ grow (classify_header h t (some p) xs) zs
    same p m (inl a) (inl b) =
        unfold classify_header in
        rw (a, b) (classify_body-append t p xs zs (λ w. m (unfold classify_header in rw (a, b) w)))
    same p m (inl a) (inr b) = unfold classify_header in rw (a, b)
    same p m (inr a) _ = unfold classify_header in rw a

-- More bytes change no verdict but `wait`.
pub classify-append :
    (h t : ℕ) (xs zs : List ℕ)
    → classify h t xs ≢ wait
    → classify h t (xs ++ zs) ≡ grow (classify h t xs) zs
unfolding classify
classify-append h t [] zs n = absurd (n refl)
classify-append h t (x ∷ xs) zs n = elim (Bool-cases (x == h)) [
  | inl e ↦ rw e (classify_header-append h t xs zs (λ w. n (rw e w)))
  | inr e ↦ rw e
]

wait≢skip : {xs : List ℕ} (v : Verdict) → v ≡ skip xs → v ≢ wait
wait≢skip v e w = cc

wait≢found : {f : Frame} {xs : List ℕ} (v : Verdict) → v ≡ found f xs → v ≢ wait
wait≢found v e w = cc

wait≢oversize : (v : Verdict) → v ≡ oversize → v ≢ wait
wait≢oversize v e w = cc

module _ {h t : ℕ} where
  move :
      {xs ys : List ℕ} {fs : List Frame} {e : Ending}
      → ys ≡ xs
      → Scans h t ys fs e
      → Scans h t xs fs e
  move {fs = fs} {e = e} p s = subst (λ v. Scans h t v fs e) p s

  after_skip :
      {xs ys : List ℕ} {fs : List Frame} {e : Ending}
      → classify h t xs ≡ skip ys
      → Scans h t xs fs e
      → Scans h t ys fs e
  after_skip a (waits b) = absurd (cc)
  after_skip a (stops b) = absurd (cc)
  after_skip a (skips b s) = move (cc) s
  after_skip a (finds b s) = absurd (cc)

  -- A stream holds one list of frames and has one end.
  pub Scans-unique :
      {xs : List ℕ} {fs gs : List Frame} {d e : Ending}
      → Scans h t xs fs d
      → Scans h t xs gs e
      → (fs ≡ gs) × (d ≡ e)
  Scans-unique (waits a) (waits b) = (refl, refl)
  Scans-unique (waits a) (stops b) = absurd (cc)
  Scans-unique (waits a) (skips b r) = absurd (cc)
  Scans-unique (waits a) (finds b r) = absurd (cc)
  Scans-unique (stops a) (waits b) = absurd (cc)
  Scans-unique (stops a) (stops b) = (refl, refl)
  Scans-unique (stops a) (skips b r) = absurd (cc)
  Scans-unique (stops a) (finds b r) = absurd (cc)
  Scans-unique (skips a r) (waits b) = absurd (cc)
  Scans-unique (skips a r) (stops b) = absurd (cc)
  Scans-unique (skips a r) (skips b s) = Scans-unique r (move (cc) s)
  Scans-unique (skips a r) (finds b s) = absurd (cc)
  Scans-unique (finds a r) (waits b) = absurd (cc)
  Scans-unique (finds a r) (stops b) = absurd (cc)
  Scans-unique (finds a r) (skips b s) = absurd (cc)
  Scans-unique (finds a r) (finds b s) = let (p, q) = Scans-unique r (move (cc) s) in (cc, q)

  -- Where the stream is cut does not matter: the bytes that the first piece leaves over are the
  -- front of the second.
  pub Scans-append :
      {xs r : List ℕ} (zs : List ℕ) {fs gs : List Frame} {e : Ending}
      → Scans h t xs fs (rest r)
      → Scans h t (r ++ zs) gs e
      → Scans h t (xs ++ zs) (fs ++ gs) e
  Scans-append zs (waits a) s = s
  Scans-append zs (skips {xs} a q) s =
      skips (rw (classify-append h t xs zs (wait≢skip _ a), a)) (Scans-append zs q s)
  Scans-append zs (finds {xs} a q) s =
      finds (rw (classify-append h t xs zs (wait≢found _ a), a)) (Scans-append zs q s)

  pub Scans-append_too_long :
      {xs : List ℕ} (zs : List ℕ) {fs : List Frame}
      → Scans h t xs fs too_long
      → Scans h t (xs ++ zs) fs too_long
  Scans-append_too_long zs (stops {xs} a) =
      stops (rw (classify-append h t xs zs (wait≢oversize _ a), a))
  Scans-append_too_long zs (skips {xs} a q) =
      skips (rw (classify-append h t xs zs (wait≢skip _ a), a)) (Scans-append_too_long zs q)
  Scans-append_too_long zs (finds {xs} a q) =
      finds (rw (classify-append h t xs zs (wait≢found _ a), a)) (Scans-append_too_long zs q)

  -- What a stream without frames leaves over stands for it.
  pub Scans-rest-append :
      {xs r : List ℕ} (zs : List ℕ) {gs : List Frame} {e : Ending}
      → Scans h t xs [] (rest r)
      → Scans h t (xs ++ zs) gs e
      → Scans h t (r ++ zs) gs e
  Scans-rest-append zs (waits a) s = s
  Scans-rest-append zs (skips {xs} a q) s =
      Scans-rest-append zs q (after_skip (rw (classify-append h t xs zs (wait≢skip _ a), a)) s)
