-- ===== src/Proto/RoundTrip/Bytes.antt =====
-- Core/src/proto.cpp: `std::vector<char>`, whose size is written as a `char`.
use ocserver.Common.{
  ℕ, ◌+◌, ◌-◌, ◌%◌, ◌^◌, ◌<◌, ◌≡◌, refl, ap, ◌∙◌, sym, List, [], ◌∷◌, ◌++◌, length, take, drop,
  arith, lt→ltb, append_assoc, length-take, length-append, take-append-drop,
}
use ocserver.Proto.Types.{proto_byte, proto_simple_list}
use ocserver.Proto.Stream.{ok, at}
use ocserver.Proto.Out.{write_head, write_char, write_bytes}
use ocserver.Proto.In.Values.{read_int, get_chars, bytes_body, read_bytes}
use ocserver.Proto.RoundTrip.Reads.{
  Reads, ok_at, as_Reads, bind-Reads, map-Reads, return-Reads, get-Reads,
}
use ocserver.Proto.RoundTrip.Heads.{read_head-write_head}
use ocserver.Proto.RoundTrip.Integers.{write_char-Reads, int_value-ReadsInt}

get_chars-Reads : (s : List ℕ) (a : ℕ) → Reads (get_chars (length s) a) s s
unfolding get_chars
get_chars-Reads [] a = return-Reads []
get_chars-Reads (c ∷ s) a =
    bind-Reads _ (get-Reads a c) (map-Reads (λ cs. c ∷ cs) (get_chars-Reads s c))

-- The head, the type of the elements and the size.
abbrev prefix : List ℕ → ℕ → List ℕ
prefix v tag =
    write_head proto_simple_list tag ++ (write_head proto_byte 0 ++ write_char (length v % 256) 0)

gather : (a b c d : List ℕ) → a ++ (b ++ (c ++ d)) ≡ (a ++ (b ++ c)) ++ d
gather a b c d = ap (λ y. a ++ y) (sym (append_assoc b c d)) ∙ sym (append_assoc a (b ++ c) d)

regroup : (a s d xs : List ℕ) → (a ++ (s ++ d)) ++ xs ≡ (a ++ s) ++ (d ++ xs)
regroup a s d xs =
    append_assoc a (s ++ d) xs
    ∙ ap (λ y. a ++ y) (append_assoc s d xs)
    ∙ sym (append_assoc a s (d ++ xs))

write_bytes-prefix : (v : List ℕ) (tag : ℕ) → write_bytes v tag ≡ prefix v tag ++ v
unfolding write_bytes
write_bytes-prefix v tag =
    gather (write_head proto_simple_list tag) (write_head proto_byte 0)
      (write_char (length v % 256) 0) v

write_bytes-split :
    (v xs : List ℕ) (tag n : ℕ)
    → write_bytes v tag ++ xs ≡ (prefix v tag ++ take n v) ++ (drop n v ++ xs)
write_bytes-split v xs tag n =
    ap (λ y. y ++ xs)
      (write_bytes-prefix v tag ∙ ap (λ y. prefix v tag ++ y) (sym (take-append-drop n v)))
    ∙ regroup (prefix v tag) (take n v) (drop n v) xs

module _ (u : ℕ) where
  size-Reads : (c : ℕ) → Reads (read_int u) (write_char c 0) (0, c)
  unfolding read_int
  size-Reads c = write_char-Reads 0 (omega arith) c (int_value-ReadsInt u).shorts.chars

  body-Reads : (s : List ℕ) → length s < 256 → Reads (bytes_body u) (write_char (length s) 0 ++ s) s
  unfolding bytes_body
  body-Reads s h =
      let t = lt→ltb (length s) (2 ^ 31) (omega arith) in
      bind-Reads _ (size-Reads (length s)) (rw t (get_chars-Reads s u))

  bytes-Reads :
      (tag : ℕ) (s : List ℕ)
      → tag < 128
      → length s < 256
      → Reads
          (read_bytes u)
          (write_head proto_simple_list tag
            ++ (write_head proto_byte 0 ++ (write_char (length s) 0 ++ s)))
          (tag, s)
  unfolding read_bytes
  bytes-Reads tag s k h =
      bind-Reads _ (read_head-write_head proto_simple_list tag (omega arith) k) (
        bind-Reads _ (read_head-write_head proto_byte 0 (omega arith) (omega arith))
          (map-Reads (λ bl. (tag, bl)) (body-Reads s h)))

  -- A vector of bytes is read back with its tag if it is shorter than 256. Of a longer one the first
  -- `size % 256` bytes are read, and the others are left on the stream, before what follows.
  -- The tag is below 128.
  pub read_bytes-write_bytes :
      (tag : ℕ) (v w xs : List ℕ) (p : ℕ)
      → tag < 128
      → read_bytes u (at w p (write_bytes v tag ++ xs))
        ≡ ok
            (tag, take (length v % 256) v)
            (at w
              (p + (length (write_bytes v tag) - (length v - length v % 256)))
              (drop (length v % 256) v ++ xs))
  read_bytes-write_bytes tag v w xs p k =
      let c = length v % 256 in
      let s = take c v in
      let l : length s ≡ c = omega (arith, length-take c v) in
      let e =
        gather (write_head proto_simple_list tag) (write_head proto_byte 0)
          (write_char (length s) 0) s
        ∙ ap
            (λ n.
              (write_head proto_simple_list tag ++ (write_head proto_byte 0 ++ write_char n 0))
              ++ s)
            l in
      let r : Reads (read_bytes u) (prefix v tag ++ s) (tag, s) =
        as_Reads e refl (bytes-Reads tag s k (omega arith)) in
      ap (λ y. read_bytes u (at w p y)) (write_bytes-split v xs tag c)
      ∙ r.run w p (drop c v ++ xs)
      ∙ ok_at refl (
          omega (
            arith,
            l,
            length-append (prefix v tag) s,
            ap length (write_bytes-prefix v tag),
            length-append (prefix v tag) v,
          ))
