-- ===== src/PacketSync/Frames.antt =====
-- The frames of a stream of bytes, told without buffers: what src/PacketSync.cpp is to find.
-- A frame is HEAD, a header that repeats HEAD and TAIL, `datalen` bytes and TAIL.
pub mod Laws
pub mod Verdicts
use ocserver.Common.{
  ℕ, zero, suc, ◌+◌, ◌^◌, ◌≤◌, ◌<◌, ◌≡◌, refl, ap, Bool, true, false, ◌&&◌, Option, none, some,
  List, [], ◌∷◌, ◌++◌, length, take, drop, get_elem?, take-append_le, drop-append_le, ltb, ◌==◌,
  if◌then◌else◌, Bool-cases, inl, inr, arith, append_assoc,
}
use ocserver.Wire.{NetPacket, net_package_headlen, char_to_net_packet}
use ocserver.PacketSync.{Frame}

-- What the front of a stream is: too little to tell, a byte that starts no frame, a frame, or a
-- header that announces more bytes than an `int` counts.
pub data Verdict : Type 0 where
  wait : Verdict
  skip : List ℕ → Verdict
  found : Frame → List ℕ → Verdict
  oversize : Verdict

-- The bytes behind HEAD and the header's eight.
abbrev pub body_of : NetPacket → List ℕ → List ℕ
body_of p xs = take (p.datalen + 1) (drop net_package_headlen xs)

abbrev pub behind : NetPacket → List ℕ → List ℕ
behind p xs = drop (net_package_headlen + p.datalen + 1) xs

unfoldable pub classify_body : ℕ → NetPacket → Option ℕ → List ℕ → Verdict
classify_body t p none xs = wait
classify_body t p (some b) xs = if b == t then found (p, body_of p xs) (behind p xs) else skip xs

unfoldable pub classify_header : ℕ → ℕ → Option NetPacket → List ℕ → Verdict
unfolding classify_body
classify_header h t none xs = wait
classify_header h t (some p) xs =
    if p.header == h && p.tail == t
    then (if ltb (p.datalen + 1) (2 ^ 31)
        then classify_body t p (get_elem? xs (net_package_headlen + p.datalen)) xs
        else oversize)
    else skip xs

unfoldable pub classify : ℕ → ℕ → List ℕ → Verdict
unfolding classify_header
classify h t [] = wait
classify h t (x ∷ xs) = if x == h then classify_header h t (char_to_net_packet xs) xs else skip xs

-- Where a scan ends: with bytes that wait for more, or at an oversized header.
pub data Ending : Type 0 where
  rest : List ℕ → Ending
  too_long : Ending

-- `Scans h t xs fs e`: the stream `xs` holds the frames `fs`, and ends with `e`.
pub data Scans (h t : ℕ) : List ℕ → List Frame → Ending → Type 0 where
  waits : {xs : List ℕ} → classify h t xs ≡ wait → Scans h t xs [] (rest xs)
  stops : {xs : List ℕ} → classify h t xs ≡ oversize → Scans h t xs [] too_long
  skips :
      {xs ys : List ℕ} {fs : List Frame} {e : Ending}
      → classify h t xs ≡ skip ys
      → Scans h t ys fs e
      → Scans h t xs fs e
  finds :
      {xs ys : List ℕ} {f : Frame} {fs : List Frame} {e : Ending}
      → classify h t xs ≡ found f ys
      → Scans h t ys fs e
      → Scans h t xs (f ∷ fs) e
