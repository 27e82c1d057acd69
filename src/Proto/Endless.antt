-- ===== src/Proto/Endless.antt =====
-- Core/src/proto.cpp: what skipping does at the end of the bytes: seek clears the stream's state, and tell is -1
-- there, so that a field of one byte leads back to the first byte.
use ocserver.Common.{
  ℕ, zero, suc, ◌+◌, ◌-◌, ◌%◌, ◌/◌, ◌^◌, ◌<◌, ◌≡◌, refl, ap, ◌∙◌, Bool, true, false, List, [], ◌∷◌,
  All, length, drop, ltb, leb, ◌==◌, arith, le→leb, ◌&&◌, if◌then◌else◌,
}
use ocserver.Proto.Types.{proto_struct_end}
use ocserver.Proto.Stream.{Stream, ok, ◌>>=◌, continue, return, get, get_at, P}
use ocserver.Proto.In.{ProtoHead, read_head}
use ocserver.Proto.In.Skip.{
  tell_of, seek_in, forward, skip_each, skip_type, skip_field, skip_next, skip_to_struct_end,
}

-- The first byte of a field of a number, with a tag below 15.
pub record IsScalar (b : ℕ) : Type 0 where
  pub tag : b < 240
  pub type : b % 16 < 6

-- All the bytes of a stream are such bytes.
pub record AllScalars (s : Stream) : Type 0 where
  pub whole : All IsScalar s.whole
  pub ahead : All IsScalar s.ahead

zero-IsScalar : IsScalar 0
zero-IsScalar = record { tag = omega arith; type = omega arith }

All-drop : (n : ℕ) (xs : List ℕ) → All IsScalar xs → All IsScalar (drop n xs)
All-drop zero xs h = h
All-drop (suc n) [] h = h
All-drop (suc n) (x ∷ xs) (h, hs) = All-drop n xs hs

seek_if-AllScalars :
    (b : Bool) (pos : ℕ) (s : Stream)
    → AllScalars s
    → AllScalars (
        if b
        then record s { pos = pos; ahead = drop pos s.whole; good = true }
        else record s { good = false })
seek_if-AllScalars true pos s h = record { whole = h.whole; ahead = All-drop pos s.whole h.whole }
seek_if-AllScalars false pos s h = record { whole = h.whole; ahead = h.ahead }

seek_in-AllScalars : (pos : ℕ) (s : Stream) → AllScalars s → AllScalars (seek_in pos s)
seek_in-AllScalars pos s h =
    seek_if-AllScalars (ltb pos (2 ^ 31) && leb pos (length s.whole)) pos s h

forward-seek_in :
    (len : ℕ) (s : Stream) → forward len s ≡ ok true (seek_in ((tell_of s + len) % 2 ^ 32) s)
unfolding forward
forward-seek_in len s = refl

-- Such a field is skipped by a number of bytes.
skip_type-forward :
    (u : ℕ) (f : ℕ → P Bool) (t : ℕ)
    → t < 6
    → (k : ℕ) × ((s : Stream) → skip_type u f t s ≡ forward k s)
unfolding skip_type
skip_type-forward u f zero h = (1, λ s. refl)
skip_type-forward u f (suc zero) h = (2, λ s. refl)
skip_type-forward u f (suc (suc zero)) h = (4, λ s. refl)
skip_type-forward u f (suc (suc (suc zero))) h = (8, λ s. refl)
skip_type-forward u f (suc (suc (suc (suc zero)))) h = (4, λ s. refl)
skip_type-forward u f (suc (suc (suc (suc (suc zero))))) h = (8, λ s. refl)
skip_type-forward u f (suc (suc (suc (suc (suc (suc t)))))) h = absurd (omega arith)

skip_field-AllScalars :
    (u fuel t : ℕ) (s : Stream)
    → t < 6
    → AllScalars s
    → (s' : Stream) × (skip_field u fuel t s ≡ ok true s') × AllScalars s'
unfolding skip_field
skip_field-AllScalars u zero t s h a =
    let (k, e) = skip_type-forward u (λ n. return (n == 0)) t h in
    (_, e s ∙ forward-seek_in k s, seek_in-AllScalars _ s a)
skip_field-AllScalars u (suc fuel) t s h a =
    let (k, e) =
      skip_type-forward u (skip_each (read_head >>= λ head. skip_field u fuel head.type)) t h in
    (_, e s ∙ forward-seek_in k s, seek_in-AllScalars _ s a)

-- The byte of a head: a zero at the end.
get_at-AllScalars :
    (g : Bool) (xs : List ℕ) (s : Stream)
    → All IsScalar xs
    → AllScalars s
    → (b : ℕ) × (s' : Stream) × (get_at g xs 0 s ≡ ok b s') × IsScalar b × AllScalars s'
unfolding get_at
get_at-AllScalars true (x ∷ xs) s (h, hs) a =
    (x, record s { pos = s.pos + 1; ahead = xs }, refl, h, record { whole = a.whole; ahead = hs })
get_at-AllScalars true [] s h a =
    (0, record s { good = false }, refl, zero-IsScalar, record { whole = a.whole; ahead = a.ahead })
get_at-AllScalars false xs s h a = (0, s, refl, zero-IsScalar, a)

one_byte :
    (b : ℕ) (s s' : Stream)
    → get 0 s ≡ ok b s'
    → b < 240
    → read_head s ≡ ok (record { type = b % 16; tag = b / 16; len = 1 }) s'
unfolding read_head
one_byte b s s' e h =
    ap
      (continue (λ b. elim (b / 16 == 15) [
        | true ↦ get b >>= λ b'. return (record { type = b % 16; tag = b'; len = 2 })
        | false ↦ return (record { type = b % 16; tag = b / 16; len = 1 })
      ]))
      e
    ∙ (let q : (b / 16 == 15) ≡ false = ground arith in rw (q, continue) refl)

read_head-AllScalars :
    (s : Stream)
    → AllScalars s
    → (head : ProtoHead) × (s' : Stream) × (read_head s ≡ ok head s')
      × (head.type < 6)
      × AllScalars s'
unfolding read_head get
read_head-AllScalars s a =
    let (b, s', e, h, a') = get_at-AllScalars s.good s.ahead s a.ahead a in
    (_, s', one_byte b s s' e h.tag, h.type, a')

get_failed : (s : Stream) → s.good ≡ false → get 0 s ≡ ok 0 s
unfolding get get_at
get_failed s h = ap (λ g. get_at g s.ahead 0 s) h

tell_failed : (s : Stream) → s.good ≡ false → tell_of s ≡ 2 ^ 32 - 1
tell_failed s h = ap (λ g. if g then s.pos % 2 ^ 32 else 2 ^ 32 - 1) h

-- A stream in front of its first byte again.
abbrev pub rewound : Stream → Stream
rewound s = record s { pos = 0; ahead = s.whole; good = true }

seek_first : (s : Stream) → seek_in 0 s ≡ rewound s
seek_first s = let q : leb 0 (length s.whole) ≡ true = le→leb _ _ (omega arith) in rw q refl

skip_byte : (u fuel : ℕ) (s : Stream) → skip_field u fuel 0 s ≡ forward 1 s
unfolding skip_field skip_type
skip_byte u zero s = refl
skip_byte u (suc fuel) s = refl

-- A stream that has failed is read from its first byte again.
pub skip_next_rewinds :
    (u fuel : ℕ) (s : Stream) → s.good ≡ false → skip_next u fuel s ≡ ok true (rewound s)
unfolding skip_next
skip_next_rewinds u fuel s h =
    ap (continue (λ head. skip_field u fuel head.type))
      (one_byte 0 s s (get_failed s h) (omega arith))
    ∙ skip_byte u fuel s
    ∙ forward-seek_in 1 s
    ∙ ap (λ p. ok true (seek_in ((p + 1) % 2 ^ 32) s)) (tell_failed s h)
    ∙ ap (ok true) (seek_first s)

other_type : (t : ℕ) → t < 6 → (t == proto_struct_end) ≡ false
other_type t h = ground arith

abbrev again : ℕ → ℕ → ℕ → ProtoHead → Bool → P Bool
again u fuel n head done = elim done [
  | true ↦ if head.type == proto_struct_end then return true else skip_to_struct_end u fuel n
  | false ↦ return false
]

-- On bytes that all begin a field of a number, with a tag below 15, skipToStructEnd never ends: no number of
-- turns of the loop is enough, whatever fuel there is for fields in fields.
pub skip_to_struct_end_endless :
    (u fuel n : ℕ) (s : Stream)
    → AllScalars s
    → (s' : Stream) × (skip_to_struct_end u fuel n s ≡ ok false s')
unfolding skip_to_struct_end
skip_to_struct_end_endless u fuel zero s a = (s, refl)
skip_to_struct_end_endless u fuel (suc n) s a =
    let (head, s1, e1, h, a1) = read_head-AllScalars s a in
    let (s2, e2, a2) = skip_field-AllScalars u fuel head.type s1 h a1 in
    let (s3, e3) = skip_to_struct_end_endless u fuel n s2 a2 in
    (
      s3,
      ap (continue (λ head. skip_field u fuel head.type >>= λ done. again u fuel n head done)) e1
          ∙ ap (continue (again u fuel n head)) e2
          ∙ ap (λ c. (if c then return true else skip_to_struct_end u fuel n) s2)
              (other_type head.type h)
          ∙ e3,
    )
