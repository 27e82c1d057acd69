-- ===== src/PacketSync/Frames/Verdicts.antt =====
-- The verdict on a stream in the shapes in which the loop of src/PacketSync.cpp meets it.
use ocserver.Common.{
  ℕ, zero, suc, ◌+◌, ◌^◌, ◌≤◌, ◌<◌, ◌≡◌, sym, ap, true, false, ◌&&◌, none, some, List, [], ◌∷◌,
  ◌++◌, length, take, drop, get_elem?, take-append_self, drop-append_self, ◌==◌, if◌then◌else◌,
  arith, ◌∙◌, get_elem?-none, get_elem?-append_right, get_elem?-append_some, lt→ltb, le→not_ltb,
  ==_self, drop-drop, Bool-cases, inl, inr,
}
use ocserver.Wire.{NetPacket, char_to_net_packet}
use ocserver.Wire.Header.{char_to_net_packet-none}
use ocserver.PacketSync.{Frame, memchr}
use ocserver.PacketSync.Frames.{
  wait, skip, found, oversize, classify_body, classify_header, classify, Ending, Scans, skips,
}

module _ (h t : ℕ) where
  -- The stream behind HEAD has no whole header.
  pub classify_short : (xs : List ℕ) → length xs < 8 → classify h t (h ∷ xs) ≡ wait
  unfolding classify classify_header
  classify_short xs l = rw (==_self h, char_to_net_packet-none xs l)

  module _ (p : NetPacket) (xs : List ℕ) (parsed : char_to_net_packet xs ≡ some p) where
    -- The header does not repeat HEAD and TAIL.
    pub classify_wrong : (p.header == h && p.tail == t) ≡ false → classify h t (h ∷ xs) ≡ skip xs
    unfolding classify classify_header
    classify_wrong w = rw (==_self h, parsed, w)

    pub classify_oversize :
        (p.header == h && p.tail == t) ≡ true
        → 2 ^ 31 ≤ p.datalen + 1
        → classify h t (h ∷ xs) ≡ oversize
    unfolding classify classify_header
    classify_oversize w l = rw (==_self h, parsed, w, le→not_ltb (p.datalen + 1) (2 ^ 31) l)

    -- The body is not there whole.
    pub classify_lacks :
        (p.header == h && p.tail == t) ≡ true
        → p.datalen + 1 < 2 ^ 31
        → length xs < 8 + (p.datalen + 1)
        → classify h t (h ∷ xs) ≡ wait
    unfolding classify classify_header classify_body
    classify_lacks w f l = rw (
      ==_self h,
      parsed,
      w,
      lt→ltb (p.datalen + 1) (2 ^ 31) f,
      get_elem?-none xs (8 + p.datalen) (omega arith),
    )

  -- The body is whole: the byte behind the data decides.
  pub classify_whole :
      (p : NetPacket) (hdr body tl : List ℕ) (b : ℕ)
      → char_to_net_packet (hdr ++ (body ++ tl)) ≡ some p
      → (p.header == h && p.tail == t) ≡ true
      → p.datalen + 1 < 2 ^ 31
      → length hdr ≡ 8
      → length body ≡ p.datalen + 1
      → get_elem? body p.datalen ≡ some b
      → classify h t (h ∷ (hdr ++ (body ++ tl)))
        ≡ (if b == t then found (p, body) tl else skip (hdr ++ (body ++ tl)))
  classify_whole p hdr body tl b parsed w f lh lb e =
      let last : get_elem? (hdr ++ (body ++ tl)) (8 + p.datalen) ≡ some b =
        get_elem?-append_right hdr (body ++ tl) 8 p.datalen lh
        ∙ (get_elem?-append_some body tl p.datalen b e).0 in
      let inner : drop 8 (hdr ++ (body ++ tl)) ≡ body ++ tl =
        drop-append_self 8 hdr (body ++ tl) lh in
      let outer : drop (8 + p.datalen + 1) (hdr ++ (body ++ tl)) ≡ tl =
        ap (λ k. drop k (hdr ++ (body ++ tl))) (omega arith)
        ∙ sym (drop-drop 8 (p.datalen + 1) (hdr ++ (body ++ tl)))
        ∙ ap (drop (p.datalen + 1)) inner
        ∙ drop-append_self (p.datalen + 1) body tl lb in
      let cut : take (p.datalen + 1) (drop 8 (hdr ++ (body ++ tl))) ≡ body =
        ap (take (p.datalen + 1)) inner ∙ take-append_self (p.datalen + 1) body tl lb in
      unfold classify classify_header classify_body in
      rw (==_self h, parsed, w, lt→ltb (p.datalen + 1) (2 ^ 31) f, last) (rw (cut, outer))

  -- What stands in front of the first HEAD is junk.
  pub memchr-none :
      (xs d : List ℕ) {fs : List Frame} {e : Ending}
      → memchr h xs ≡ none
      → Scans h t d fs e
      → Scans h t (xs ++ d) fs e
  unfolding memchr
  memchr-none [] d q s = s
  memchr-none (x ∷ xs) d q s = elim (Bool-cases (x == h)) [
    | inl y ↦ absurd (ground arith)
    | inr n ↦
        skips {xs = x ∷ (xs ++ d)} {ys = xs ++ d} (unfold classify in rw n)
          (memchr-none xs d (ground arith) s)
  ]

  pub memchr-some :
      (xs d : List ℕ) (i : ℕ) {fs : List Frame} {e : Ending}
      → memchr h xs ≡ some i
      → Scans h t (drop i xs ++ d) fs e
      → Scans h t (xs ++ d) fs e
  unfolding memchr
  memchr-some [] d i q s = absurd (cc)
  memchr-some (x ∷ xs) d zero q s = s
  memchr-some (x ∷ xs) d (suc i) q s = elim (Bool-cases (x == h)) [
    | inl y ↦ absurd (ground arith)
    | inr n ↦
        skips {xs = x ∷ (xs ++ d)} {ys = xs ++ d} (unfold classify in rw n)
          (memchr-some xs d i (ground arith) s)
  ]

pub memchr_at :
    (h : ℕ) (xs : List ℕ) (i : ℕ)
    → memchr h xs ≡ some i
    → (drop i xs ≡ h ∷ drop (i + 1) xs) × (i < length xs)
unfolding memchr
memchr_at h [] i q = absurd (cc)
memchr_at h (x ∷ xs) zero q = (ground arith, omega arith)
memchr_at h (x ∷ xs) (suc i) q =
    let (e, l) = memchr_at h xs i (ground arith) in
    let k : suc i + 1 ≡ suc (i + 1) = omega arith in (rw k e, omega (arith, l))
