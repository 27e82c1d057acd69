-- ===== src/Proto/RoundTrip/Unsigned.antt =====
-- Core/src/proto.cpp: the unsigned numbers are written as wider signed ones.
use ocserver.Common.{
  ℕ, ◌+◌, ◌%◌, ◌^◌, ◌<◌, ◌≤◌, ◌≡◌, refl, ap, sym, ◌∙◌, true, false, List, ◌++◌, length, ltb,
  if◌then◌else◌, arith, Bool-cases, inl, inr, ltb→lt, not_ltb→le, append_assoc,
}
use ocserver.Proto.Types.{proto_int, proto_long}
use ocserver.Proto.Stream.{
  Stream, ◌>>=◌, return, Result, P, ok, proto_error, displayed, error, at, continue,
}
use ocserver.Proto.Out.{
  write_head, write_unsigned_short, write_unsigned, write_short, write_int, write_long, put_int,
  put_long, is_wide,
}
use ocserver.Proto.In.{ProtoHead}
use ocserver.Proto.In.Values.{tagged, read_unsigned_short, read_unsigned, short_value, int_value}
use ocserver.Proto.RoundTrip.Reads.{Reads, as_Reads}
use ocserver.Proto.RoundTrip.Heads.{head_of, read_head-write_head}
use ocserver.Proto.RoundTrip.Integers.{
  short_value-ReadsShort, int_value-ReadsInt, write_short-Reads, write_int-Reads,
}

abbrev after_head {ℓ} : {A : Type ℓ} → ℕ → Stream → P A → Result (ℕ × A)
after_head tag s value = (value >>= λ v. return (tag, v)) s

-- A head whose type the chain of tests does not know.
pub tagged_rejects {ℓ} :
    {A : Type ℓ} (value : ProtoHead → P A) (type tag : ℕ) (w bs : List ℕ) (p : ℕ)
    → type < 16
    → tag < 128
    → value (head_of type tag) ≡ error
    → tagged value (at w p (write_head type tag ++ bs))
      ≡ proto_error (displayed (at w (p + length (write_head type tag)) bs))
tagged_rejects value type tag w bs p h k e =
    ap (continue _) ((read_head-write_head type tag h k).run w p bs) ∙ ap (after_head _ _) e

short_rejects : (u t : ℕ) → short_value u (head_of proto_int t) ≡ error
unfolding short_value
short_rejects u t = refl

int_rejects : (u t : ℕ) → int_value u (head_of proto_long t) ≡ error
unfolding int_value
int_rejects u t = refl

unsigned_short-low : (n tag : ℕ) → n < 2 ^ 15 → write_unsigned_short n tag ≡ write_short n tag
unfolding write_unsigned_short write_int
unsigned_short-low n tag h =
    let w : is_wide 32 16 n ≡ false = ground arith in
    let e : n % 2 ^ 16 ≡ n = omega arith in rw w (ap (λ m. write_short m tag) e)

unsigned_short-high :
    (n tag : ℕ)
    → 2 ^ 15 ≤ n
    → n < 2 ^ 16
    → write_unsigned_short n tag ≡ write_head proto_int tag ++ put_int n
unfolding write_unsigned_short write_int
unsigned_short-high n tag h k = let w : is_wide 32 16 n ≡ true = ground arith in rw w refl

unsigned-low : (n tag : ℕ) → n < 2 ^ 31 → write_unsigned n tag ≡ write_int n tag
unfolding write_unsigned write_long
unsigned-low n tag h =
    let w : is_wide 64 32 n ≡ false = ground arith in
    let e : n % 2 ^ 32 ≡ n = omega arith in rw w (ap (λ m. write_int m tag) e)

unsigned-high :
    (n tag : ℕ)
    → 2 ^ 31 ≤ n
    → n < 2 ^ 32
    → write_unsigned n tag ≡ write_head proto_long tag ++ put_long n
unfolding write_unsigned write_long
unsigned-high n tag h k = let w : is_wide 64 32 n ≡ true = ground arith in rw w refl

-- An unsigned number that an `int` holds.
pub write_unsigned-Reads :
    (u tag n : ℕ) → tag < 128 → n < 2 ^ 31 → Reads (read_unsigned u) (write_unsigned n tag) (tag, n)
unfolding read_unsigned
write_unsigned-Reads u tag n k l =
    as_Reads (sym (unsigned-low n tag l)) (ap (λ v. (tag, v)) (ground arith))
      (write_int-Reads tag k n (omega arith) (int_value-ReadsInt u))

module _ (u tag : ℕ) (k : tag < 128) (w xs : List ℕ) (p : ℕ) where
  -- An unsigned short below 2 ^ 15 is read back with its tag; the others are written with the type
  -- INT, which the read rejects behind the head.
  -- The tag is below 128.
  pub read_unsigned_short-write_unsigned_short :
      (n : ℕ)
      → n < 2 ^ 16
      → read_unsigned_short u (at w p (write_unsigned_short n tag ++ xs)) ≡ (
          if ltb n (2 ^ 15)
          then ok (tag, n) (at w (p + length (write_unsigned_short n tag)) xs)
          else proto_error
              (displayed (at w (p + length (write_head proto_int tag)) (put_int n ++ xs))))
  unfolding read_unsigned_short
  read_unsigned_short-write_unsigned_short n h = elim (Bool-cases (ltb n (2 ^ 15))) [
    | inl y ↦
        let l = ltb→lt _ _ y in
        rw (y, unsigned_short-low n tag l)
          ((as_Reads refl (ap (λ v. (tag, v)) (ground arith))
              (write_short-Reads tag k n h (short_value-ReadsShort u))).run
            w p xs)
    | inr y ↦
        rw
          (
            y,
            unsigned_short-high n tag (not_ltb→le _ _ y) h,
            append_assoc (write_head proto_int tag) (put_int n) xs,
          )
          (tagged_rejects (short_value u) proto_int tag w (put_int n ++ xs) p (omega arith) k
            (short_rejects u tag))
  ]

  -- An unsigned number below 2 ^ 31 is read back with its tag; the others are written with the type
  -- LONG, which the read rejects behind the head.
  -- The tag is below 128.
  pub read_unsigned-write_unsigned :
      (n : ℕ)
      → n < 2 ^ 32
      → read_unsigned u (at w p (write_unsigned n tag ++ xs)) ≡ (
          if ltb n (2 ^ 31)
          then ok (tag, n) (at w (p + length (write_unsigned n tag)) xs)
          else proto_error
              (displayed (at w (p + length (write_head proto_long tag)) (put_long n ++ xs))))
  unfolding read_unsigned
  read_unsigned-write_unsigned n h = elim (Bool-cases (ltb n (2 ^ 31))) [
    | inl y ↦
        let l = ltb→lt _ _ y in
        rw (y, unsigned-low n tag l)
          ((as_Reads refl (ap (λ v. (tag, v)) (ground arith))
              (write_int-Reads tag k n h (int_value-ReadsInt u))).run
            w p xs)
    | inr y ↦
        rw
          (
            y,
            unsigned-high n tag (not_ltb→le _ _ y) h,
            append_assoc (write_head proto_long tag) (put_long n) xs,
          )
          (tagged_rejects (int_value u) proto_long tag w (put_long n ++ xs) p (omega arith) k
            (int_rejects u tag))
  ]
