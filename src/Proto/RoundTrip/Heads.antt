-- ===== src/Proto/RoundTrip/Heads.antt =====
-- Core/src/proto.cpp: ProtoIn::readHead reads the head that ProtoOut::writeHead wrote.
use ocserver.Common.{
  ℕ, ◌+◌, ◌*◌, ◌<◌, ◌≤◌, ◌≡◌, [], ◌∷◌, length, arith, ltb, inl, inr, Bool-cases, ltb→lt, not_ltb→le,
}
use ocserver.Proto.Stream.{get}
use ocserver.Proto.Out.{write_head}
use ocserver.Proto.In.{ProtoHead, read_head}
use ocserver.Proto.RoundTrip.Reads.{Reads}

abbrev pub head_of : ℕ → ℕ → ProtoHead
head_of type tag = record { type = type; tag = tag; len = length (write_head type tag) }

write_head-short : (type tag : ℕ) → tag < 15 → write_head type tag ≡ (tag * 16 + type) ∷ []
unfolding write_head
write_head-short type tag h = ground arith

write_head-long :
    (type tag : ℕ) → 15 ≤ tag → tag < 128 → write_head type tag ≡ (type + 240) ∷ tag ∷ []
unfolding write_head
write_head-long type tag h k = ground arith

-- `readHead` after its first byte.
read_head-short :
    (type tag : ℕ)
    → tag < 15
    → type < 16
    → Reads read_head ((tag * 16 + type) ∷ []) (record { type = type; tag = tag; len = 1 })
unfolding read_head get
read_head-short type tag h k = record { run = λ w p xs. ground arith }

read_head-long :
    (type tag : ℕ)
    → type < 16
    → Reads read_head ((type + 240) ∷ tag ∷ []) (record { type = type; tag = tag; len = 2 })
unfolding read_head get
read_head-long type tag h = record { run = λ w p xs. ground arith }

pub read_head-write_head :
    (type tag : ℕ)
    → type < 16
    → tag < 128
    → Reads read_head (write_head type tag) (head_of type tag)
read_head-write_head type tag h k = elim (Bool-cases (ltb tag 15)) [
  | inl s ↦
      rw (write_head-short type tag (ltb→lt _ _ s)) (read_head-short type tag (ltb→lt _ _ s) h)
  | inr l ↦ rw (write_head-long type tag (not_ltb→le _ _ l) k) (read_head-long type tag h)
]
