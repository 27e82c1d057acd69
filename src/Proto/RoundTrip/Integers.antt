-- ===== src/Proto/RoundTrip/Integers.antt =====
-- Core/src/proto.cpp: an integer that a `write` shortened is read by every wider `read`.
use ocserver.Common.{
  ℕ, ◌+◌, ◌-◌, ◌%◌, ◌^◌, ◌<◌, refl, ap, ◌∙◌, sym, [], ◌∷◌, arith, ltb, leb, ◌==◌, if◌then◌else◌,
  inl, inr, Bool-cases, append-nil,
}
use ocserver.Proto.Types.{proto_byte, proto_short, proto_int, proto_long, proto_zero_tag}
use ocserver.Proto.Stream.{P}
use ocserver.Proto.Out.{
  write_char, write_short, write_int, write_long, put_short, put_int, put_long, is_wide,
}
use ocserver.Proto.In.{ProtoHead, get_char}
use ocserver.Proto.In.Values.{tagged, char_value, short_value, int_value, long_value}
use ocserver.Proto.RoundTrip.Reads.{Reads, as_Reads, get-Reads, return-Reads}
use ocserver.Proto.RoundTrip.Heads.{head_of}
use ocserver.Proto.RoundTrip.Numbers.{tagged-Reads, get_short-Reads, get_int-Reads, get_long-Reads}

-- A signed number of `bits` bits as it comes back: as it is if it is not negative, and otherwise the
-- bit pattern of the shortest type that holds it.
abbrev pub zero_extended : ℕ → ℕ → ℕ
zero_extended bits n =
    if ltb n (2 ^ (bits - 1))
    then n
    else if leb (2 ^ bits - 2 ^ 7) n
    then n + 2 ^ 8 - 2 ^ bits
    else if leb (2 ^ bits - 2 ^ 15) n
    then n + 2 ^ 16 - 2 ^ bits
    else if leb (2 ^ bits - 2 ^ 31) n
    then n + 2 ^ 32 - 2 ^ bits
    else n

-- What a chain of tests reads of a byte, and of the wider numbers.
pub record ReadsChar (value : ProtoHead → P ℕ) : Type 0 where
  pub of_zero : (tag : ℕ) → Reads (value (head_of proto_zero_tag tag)) [] 0
  pub of_byte : (tag c : ℕ) → Reads (value (head_of proto_byte tag)) (c ∷ []) c

pub record ReadsShort (value : ProtoHead → P ℕ) : Type 0 where
  pub chars : ReadsChar value
  pub of_short : (tag n : ℕ) → n < 2 ^ 16 → Reads (value (head_of proto_short tag)) (put_short n) n

pub record ReadsInt (value : ProtoHead → P ℕ) : Type 0 where
  pub shorts : ReadsShort value
  pub of_int : (tag n : ℕ) → n < 2 ^ 32 → Reads (value (head_of proto_int tag)) (put_int n) n

pub record ReadsLong (value : ProtoHead → P ℕ) : Type 0 where
  pub ints : ReadsInt value
  pub of_long : (tag n : ℕ) → n < 2 ^ 64 → Reads (value (head_of proto_long tag)) (put_long n) n

module _ (u : ℕ) where
  pub char_value-ReadsChar : ReadsChar (char_value u)
  unfolding char_value get_char
  char_value-ReadsChar = record {
    of_zero = λ tag. return-Reads 0;
    of_byte = λ tag c. get-Reads u c;
  }

  pub short_value-ReadsShort : ReadsShort (short_value u)
  unfolding short_value get_char
  short_value-ReadsShort = record {
    chars = record { of_zero = λ tag. return-Reads 0; of_byte = λ tag c. get-Reads u c };
    of_short = λ tag. get_short-Reads u;
  }

  pub int_value-ReadsInt : ReadsInt (int_value u)
  unfolding int_value get_char
  int_value-ReadsInt = record {
    shorts = record {
      chars = record { of_zero = λ tag. return-Reads 0; of_byte = λ tag c. get-Reads u c };
      of_short = λ tag. get_short-Reads u;
    };
    of_int = λ tag. get_int-Reads u;
  }

  pub long_value-ReadsLong : ReadsLong (long_value u)
  unfolding long_value get_char
  long_value-ReadsLong = record {
    ints = record {
      shorts = record {
        chars = record { of_zero = λ tag. return-Reads 0; of_byte = λ tag c. get-Reads u c };
        of_short = λ tag. get_short-Reads u;
      };
      of_int = λ tag. get_int-Reads u;
    };
    of_long = λ tag. get_long-Reads u;
  }

module _ {value : ProtoHead → P ℕ} (tag : ℕ) (k : tag < 128) where
  pub write_char-Reads :
      (c : ℕ) → ReadsChar value → Reads (tagged value) (write_char c tag) (tag, c)
  unfolding write_char
  write_char-Reads c r = elim (Bool-cases (c == 0)) [
    | inl y ↦
        as_Reads (append-nil _ ∙ sym (rw y refl)) (ap (λ v. (tag, v)) (ground arith))
          (tagged-Reads value proto_zero_tag tag [] 0 (omega arith) k (r.of_zero tag))
    | inr y ↦
        as_Reads (sym (rw y refl)) refl
          (tagged-Reads value proto_byte tag (c ∷ []) c (omega arith) k (r.of_byte tag c))
  ]

  pub write_short-Reads :
      (n : ℕ)
      → n < 2 ^ 16
      → ReadsShort value
      → Reads (tagged value) (write_short n tag) (tag, zero_extended 16 n)
  unfolding write_short
  write_short-Reads n h r = elim (Bool-cases (is_wide 16 8 n)) [
    | inl y ↦
        as_Reads (sym (rw y refl)) (ap (λ v. (tag, v)) (ground arith))
          (tagged-Reads value proto_short tag (put_short n) n (omega arith) k (r.of_short tag n h))
    | inr y ↦
        as_Reads (sym (rw y refl)) (ap (λ v. (tag, v)) (ground arith))
          (write_char-Reads (n % 2 ^ 8) r.chars)
  ]

  pub write_int-Reads :
      (n : ℕ)
      → n < 2 ^ 32
      → ReadsInt value
      → Reads (tagged value) (write_int n tag) (tag, zero_extended 32 n)
  unfolding write_int
  write_int-Reads n h r = elim (Bool-cases (is_wide 32 16 n)) [
    | inl y ↦
        as_Reads (sym (rw y refl)) (ap (λ v. (tag, v)) (ground arith))
          (tagged-Reads value proto_int tag (put_int n) n (omega arith) k (r.of_int tag n h))
    | inr y ↦
        as_Reads (sym (rw y refl)) (ap (λ v. (tag, v)) (ground arith))
          (write_short-Reads (n % 2 ^ 16) (omega arith) r.shorts)
  ]

  pub write_long-Reads :
      (n : ℕ)
      → n < 2 ^ 64
      → ReadsLong value
      → Reads (tagged value) (write_long n tag) (tag, zero_extended 64 n)
  unfolding write_long
  write_long-Reads n h r = elim (Bool-cases (is_wide 64 32 n)) [
    | inl y ↦
        as_Reads (sym (rw y refl)) (ap (λ v. (tag, v)) (ground arith))
          (tagged-Reads value proto_long tag (put_long n) n (omega arith) k (r.of_long tag n h))
    | inr y ↦
        as_Reads (sym (rw y refl)) (ap (λ v. (tag, v)) (ground arith))
          (write_int-Reads (n % 2 ^ 32) (omega arith) r.ints)
  ]
