-- ===== src/Proto/RoundTrip/Fields.antt =====
-- Core/src/proto.cpp: ProtoIn skips each field that ProtoOut wrote, and finds the end of a structure of them.
use mathlib.Core.Option.{some-injective, none-ne-some}
use ocserver.Common.{
  ℕ, zero, suc, ◌+◌, ◌%◌, ◌^◌, ◌<◌, ◌≡◌, refl, ◌∙◌, sym, subst, Bool, true, false, List, [], ◌∷◌,
  ◌++◌, some, length, ◌==◌, arith, inl, inr, length-append, append-nil, drop-append_self,
  if◌then◌else◌,
}
use ocserver.Proto.Types.{
  proto_byte, proto_short, proto_int, proto_long, proto_float, proto_double, proto_string1,
  proto_string4, proto_struct_end, proto_zero_tag, proto_simple_list,
}
use ocserver.Proto.Stream.{ok, ◌>>=◌, return, at, P}
use ocserver.Proto.Out.{
  write_head, write_char, write_bool, write_short, write_int, write_long, write_float, write_double,
  write_string, write_bytes, put_short, put_int, put_long, is_wide,
}
use ocserver.Proto.In.{read_head, get_char, get_int}
use ocserver.Proto.In.Values.{read_int}
use ocserver.Proto.In.Skip.{forward, skip_type, skip_simple_list, skip_each, skip_field, skip_next}
use ocserver.Proto.RoundTrip.Reads.{Reads, get-Reads}
use ocserver.Proto.RoundTrip.Heads.{head_of, read_head-write_head}
use ocserver.Proto.RoundTrip.Numbers.{get_int-Reads}
use ocserver.Proto.RoundTrip.Integers.{write_char-Reads, int_value-ReadsInt}
use ocserver.Proto.RoundTrip.Strings.{write_string-cases, written}
use ocserver.Proto.RoundTrip.Skips.{Skips, forward-Skips, return-Skips, bind-Skips}

-- What the writes with the tag put on the stream: numbers, strings, and vectors of bytes shorter than 256.
pub data IsField (tag : ℕ) : List ℕ → Type 0 where
  of_bool : (b : Bool) → IsField tag (write_bool b tag)
  of_char : (c : ℕ) → IsField tag (write_char c tag)
  of_short : (n : ℕ) → IsField tag (write_short n tag)
  of_int : (n : ℕ) → IsField tag (write_int n tag)
  of_long : (n : ℕ) → IsField tag (write_long n tag)
  of_float : (n : ℕ) → IsField tag (write_float n tag)
  of_double : (n : ℕ) → IsField tag (write_double n tag)
  of_string : (s bs : List ℕ) → write_string s tag ≡ some bs → IsField tag bs
  of_bytes : (v : List ℕ) → length v < 256 → IsField tag (write_bytes v tag)

-- A head, which is not STRUCT_END, and bytes that are skipped by its type.
pub record Parts (u fuel tag : ℕ) (bs : List ℕ) : Type 0 where
  pub type : ℕ
  pub payload : List ℕ
  pub split : write_head type tag ++ payload ≡ bs
  pub small : type < 16
  pub other : (type == proto_struct_end) ≡ false
  pub skips : Skips (skip_field u fuel type) payload

-- The skip of a type that has no fields in it, whatever the fuel.
pub skip_field-skip_type :
    (u fuel t : ℕ) (m : P Bool) → ((f : ℕ → P Bool) → skip_type u f t ≡ m) → skip_field u fuel t ≡ m
unfolding skip_field
skip_field-skip_type u zero t m e = e (λ n. return (n == 0))
skip_field-skip_type u (suc fuel) t m e =
    e (skip_each (read_head >>= λ head. skip_field u fuel head.type))

module _ (u fuel tag : ℕ) where
  -- A field, by its type.
  part :
      (t : ℕ) (m : P Bool) (bs : List ℕ)
      → t < 16
      → (t == proto_struct_end) ≡ false
      → ((f : ℕ → P Bool) → skip_type u f t ≡ m)
      → Skips m bs
      → Parts u fuel tag (write_head t tag ++ bs)
  part t m bs h o e k = record {
    type = t;
    payload = bs;
    split = refl;
    small = h;
    other = o;
    skips = subst (λ m. Skips m bs) (sym (skip_field-skip_type u fuel t m e)) k;
  }

  zero-Parts : Parts u fuel tag (write_head proto_zero_tag tag)
  unfolding skip_type
  zero-Parts =
      subst (Parts u fuel tag) (append-nil (write_head proto_zero_tag tag))
        (part proto_zero_tag (return true) [] (omega arith) refl (λ f. refl) return-Skips)

  if-Parts :
      (b : Bool) (xs ys : List ℕ)
      → Parts u fuel tag xs
      → Parts u fuel tag ys
      → Parts u fuel tag (if b then xs else ys)
  if-Parts true xs ys h k = h
  if-Parts false xs ys h k = k

  char-Parts : (c : ℕ) → Parts u fuel tag (write_char c tag)
  unfolding write_char skip_type
  char-Parts c =
      if-Parts (c == 0) _ _ zero-Parts (
        part proto_byte (forward 1) (c ∷ []) (omega arith) refl (λ f. refl)
          (forward-Skips (c ∷ [])))

  short-Parts : (n : ℕ) → Parts u fuel tag (write_short n tag)
  unfolding write_short skip_type
  short-Parts n =
      if-Parts (is_wide 16 8 n) _ _
        (part proto_short (forward 2) (put_short n) (omega arith) refl (λ f. refl)
          (forward-Skips (put_short n)))
        (char-Parts (n % 2 ^ 8))

  int-Parts : (n : ℕ) → Parts u fuel tag (write_int n tag)
  unfolding write_int skip_type
  int-Parts n =
      if-Parts (is_wide 32 16 n) _ _
        (part proto_int (forward 4) (put_int n) (omega arith) refl (λ f. refl)
          (forward-Skips (put_int n)))
        (short-Parts (n % 2 ^ 16))

  long-Parts : (n : ℕ) → Parts u fuel tag (write_long n tag)
  unfolding write_long skip_type
  long-Parts n =
      if-Parts (is_wide 64 32 n) _ _
        (part proto_long (forward 8) (put_long n) (omega arith) refl (λ f. refl)
          (forward-Skips (put_long n)))
        (int-Parts (n % 2 ^ 32))

  float-Parts : (n : ℕ) → Parts u fuel tag (write_float n tag)
  unfolding write_float skip_type
  float-Parts n =
      part proto_float (forward 4) (put_int n) (omega arith) refl (λ f. refl)
        (forward-Skips (put_int n))

  double-Parts : (n : ℕ) → Parts u fuel tag (write_double n tag)
  unfolding write_double skip_type
  double-Parts n =
      part proto_double (forward 8) (put_long n) (omega arith) refl (λ f. refl)
        (forward-Skips (put_long n))

  string1-Parts : (s : List ℕ) → Parts u fuel tag (write_head proto_string1 tag ++ (length s ∷ s))
  unfolding skip_type get_char
  string1-Parts s =
      part proto_string1 (get_char u >>= forward) (length s ∷ s) (omega arith) refl (λ f. refl)
        (bind-Skips (get_char u) forward (length s ∷ []) s (length s) (get-Reads u (length s))
          (forward-Skips s))

  string4-Parts :
      (s : List ℕ)
      → length s < 2 ^ 32
      → Parts u fuel tag (write_head proto_string4 tag ++ (put_int (length s) ++ s))
  unfolding skip_type
  string4-Parts s h =
      part proto_string4 (get_int u >>= forward) (put_int (length s) ++ s) (omega arith) refl
        (λ f. refl)
        (bind-Skips (get_int u) forward (put_int (length s)) s (length s)
          (get_int-Reads u (length s) h) (forward-Skips s))

  size-Reads : (c : ℕ) → Reads (read_int u) (write_char c 0) (0, c)
  unfolding read_int
  size-Reads c = write_char-Reads 0 (omega arith) c (int_value-ReadsInt u).shorts.chars

  list-Skips :
      (v : List ℕ)
      → length v < 256
      → Skips (skip_simple_list u) (write_head proto_byte 0 ++ (write_char (length v % 256) 0 ++ v))
  unfolding skip_simple_list
  list-Skips v h =
      let e : length v % 256 ≡ length v = omega arith in
      rw e (
        bind-Skips read_head _ (write_head proto_byte 0) (write_char (length v) 0 ++ v)
          (head_of proto_byte 0) (read_head-write_head proto_byte 0 (omega arith) (omega arith))
          (bind-Skips (read_int u) (λ r. forward r.1) (write_char (length v) 0) v (0, length v)
            (size-Reads (length v)) (forward-Skips v)))

  bytes-Parts : (v : List ℕ) → length v < 256 → Parts u fuel tag (write_bytes v tag)
  unfolding write_bytes skip_type
  bytes-Parts v h =
      part proto_simple_list (skip_simple_list u) _ (omega arith) refl (λ f. refl) (list-Skips v h)

  string-Parts : (s bs : List ℕ) → write_string s tag ≡ some bs → Parts u fuel tag bs
  string-Parts s bs e = elim (write_string-cases s tag) [
    | inl (h, w) ↦
        subst (Parts u fuel tag) (some-injective _ _ (sym w ∙ e)) (string1-Parts (written s))
    | inr (inl (h, k, w)) ↦
        subst (Parts u fuel tag) (some-injective _ _ (sym w ∙ e))
          (string4-Parts (written s) (omega arith))
    | inr (inr (h, w)) ↦ absurd (none-ne-some _ (sym w ∙ e))
  ]

  pub field-Parts : (bs : List ℕ) → IsField tag bs → Parts u fuel tag bs
  unfolding write_bool
  field-Parts bs (of_bool b) = char-Parts (if b then 1 else 0)
  field-Parts bs (of_char c) = char-Parts c
  field-Parts bs (of_short n) = short-Parts n
  field-Parts bs (of_int n) = int-Parts n
  field-Parts bs (of_long n) = long-Parts n
  field-Parts bs (of_float n) = float-Parts n
  field-Parts bs (of_double n) = double-Parts n
  field-Parts bs (of_string s cs e) = string-Parts s bs e
  field-Parts bs (of_bytes v h) = bytes-Parts v h

-- A field and what comes behind it.
next-Skips :
    (u fuel tag : ℕ) (bs : List ℕ) → tag < 128 → Parts u fuel tag bs → Skips (skip_next u fuel) bs
unfolding skip_next
next-Skips u fuel tag bs h p = subst (Skips (skip_next u fuel)) p.split (
    bind-Skips read_head (λ head. skip_field u fuel head.type) (write_head p.type tag) p.payload
      (head_of p.type tag) (read_head-write_head p.type tag p.small h) p.skips)

-- skipField goes from a field that was written, anywhere in a string stream, to what is behind it. The tag is
-- below 128, and the stream is shorter than 2 ^ 31.
pub skip_next-IsField :
    (u fuel tag : ℕ) (before field behind : List ℕ)
    → tag < 128
    → IsField tag field
    → length (before ++ (field ++ behind)) < 2 ^ 31
    → skip_next u fuel (at (before ++ (field ++ behind)) (length before) (field ++ behind))
      ≡ ok true (at (before ++ (field ++ behind)) (length before + length field) behind)
skip_next-IsField u fuel tag before field behind h f l =
    (next-Skips u fuel tag field h (field-Parts u fuel tag field f)).run
      (before ++ (field ++ behind)) (length before) behind
      (drop-append_self (length before) before (field ++ behind) refl)
      (omega (arith, length-append before (field ++ behind), length-append field behind)) l
