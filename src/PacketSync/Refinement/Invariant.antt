-- ===== src/PacketSync/Refinement/Invariant.antt =====
-- The invariant of the loop of `recvdata`, and what one round of it may lead to.
use ocserver.Common.{
  ℕ, ◌+◌, ◌^◌, ◌≤◌, ◌<◌, ◌≡◌, ◌⊎◌, inl, inr, true, false, ◌&&◌, some, List, [], ◌∷◌, ◌++◌, length,
  take, drop, ◌==◌, arith,
}
use ocserver.Wire.{net_package_headlen, char_to_net_packet}
use ocserver.PacketSync.{
  Frame, PacketSync, ParseType, parse_head, parse_nothing, buffer_size, Next, again, called,
  returned, fault, available, more,
}
use ocserver.PacketSync.Frames.{wait, classify, Ending, rest, too_long, Scans}

-- A packet whose header is read and whose body is not there whole.
pub record HasPacket (h t : ℕ) (s : PacketSync) : Type 0 where
  pub parsed : char_to_net_packet (drop (s.headpos + 1) s.readdata) ≡ some s.packet
  pub named : (s.packet.header == h && s.packet.tail == t) ≡ true
  pub fits : s.packet.datalen + 1 < 2 ^ 31
  pub lacks : length s.packetdata < s.packet.datalen + 1
  pub cut : available s < s.packet.datalen + 1
  pub room : s.packet.datalen + 1 ≤ s.packet_len

abbrev pub WhileParsing : ℕ → ℕ → ParseType → PacketSync → Type 0
WhileParsing h t parse_nothing s = Unit {0}
WhileParsing h t parse_head s = HasPacket h t s

-- The invariant between two rounds, for HEAD `h` and TAIL `t` and with the callback set.
pub record IsValid (h t : ℕ) (s : PacketSync) : Type 0 where
  pub head_eq : s.head ≡ h
  pub tail_eq : s.tail ≡ t
  pub callback : s.packet_cb ≡ true
  pub within : length s.readdata ≤ s.read_len
  pub large : buffer_size ≤ s.read_len
  pub small : s.read_len ≤ 2 ^ 31 + 8
  pub parsing : WhileParsing h t s.parsetype s

-- The bytes of the header behind HEAD.
abbrev pub header_bytes : PacketSync → List ℕ
header_bytes s = take net_package_headlen (drop (s.headpos + 1) s.readdata)

-- The bytes that the state holds and that no frame has taken.
abbrev pub pending_in : ParseType → PacketSync → List ℕ
pending_in parse_nothing s = s.readdata
pending_in parse_head s = s.head ∷ (header_bytes s ++ s.packetdata)

abbrev pub pending : PacketSync → List ℕ
pending s = pending_in s.parsetype s

-- What a round from the stream `xs` may lead to.
abbrev pub Sound : ℕ → ℕ → List ℕ → Next → Type 0
Sound h t xs (again s d) =
    IsValid h t s
    × ((length (pending s ++ d) < length xs) ⊎ (more s d ≡ false))
    × ((fs : List Frame) (e : Ending) → Scans h t (pending s ++ d) fs e → Scans h t xs fs e)
Sound h t xs (called p body s d) =
    IsValid h t s
    × (length (pending s ++ d) < length xs)
    × ((fs : List Frame) (e : Ending)
        → Scans h t (pending s ++ d) fs e
        → Scans h t xs ((p, body) ∷ fs) e)
Sound h t xs (returned s) =
    IsValid h t s × Scans h t xs [] (rest (pending s)) × (classify h t (pending s) ≡ wait)
Sound h t xs fault = Scans h t xs [] too_long

-- A round from a stream that another one leads to.
pub Sound-weaken :
    (h t : ℕ) (xs ys : List ℕ) (n : Next)
    → length xs ≤ length ys
    → ((fs : List Frame) (e : Ending) → Scans h t xs fs e → Scans h t ys fs e)
    → Sound h t xs n
    → Sound h t ys n
Sound-weaken h t xs ys (again s d) l f (v, inl m, k) =
    (v, inl (omega arith), λ fs e sc. f fs e (k fs e sc))
Sound-weaken h t xs ys (again s d) l f (v, inr m, k) = (v, inr m, λ fs e sc. f fs e (k fs e sc))
Sound-weaken h t xs ys (called p b s d) l f (v, m, k) =
    (v, omega arith, λ fs e sc. f ((p, b) ∷ fs) e (k fs e sc))
Sound-weaken h t xs ys (returned s) l f (v, k, c) = (v, f [] (rest (pending s)) k, c)
Sound-weaken h t xs ys fault l f k = f [] too_long k
