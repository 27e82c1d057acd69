-- ===== src/Proto/RoundTrip/Lists.antt =====
-- Core/src/proto.h: vectors of any type, written and read element by element.
use ocserver.Common.{
  ℕ, ◌+◌, ◌%◌, ◌^◌, ◌<◌, ◌≡◌, refl, ap, ◌∙◌, sym, List, [], ◌∷◌, ◌++◌, Option, none, some, length,
  All, arith, lt→ltb, append_assoc,
}
use mathlib.Core.Option.{some-injective}
use ocserver.Proto.Types.{proto_list}
use ocserver.Proto.Stream.{P, ok, at}
use ocserver.Proto.Out.{write_head, write_int, write_each, write_list, ◌then_write◌}
use ocserver.Proto.In.Values.{read_int, read_each, read_list, list_body}
use ocserver.Proto.RoundTrip.Reads.{Reads, as_Reads, bind-Reads, map-Reads, return-Reads}
use ocserver.Proto.RoundTrip.Heads.{read_head-write_head}
use ocserver.Proto.RoundTrip.Integers.{write_int-Reads, int_value-ReadsInt}

-- Both writes of a pair succeed if the pair does.
pub then_write-some :
    (x y : Option (List ℕ)) (bs : List ℕ)
    → (x then_write y) ≡ some bs
    → (a : List ℕ) × (b : List ℕ) × (x ≡ some a) × (y ≡ some b) × (a ++ b ≡ bs)
then_write-some none y bs e = absurd (cc)
then_write-some (some a) none bs e = absurd (cc)
then_write-some (some a) (some b) bs e = (a, b, refl, refl, some-injective _ _ e)

-- The number of elements, as `write` puts it behind the head.
pub count-Reads : (u n : ℕ) → n < 2 ^ 31 → Reads (read_int u) (write_int (n % 2 ^ 32) 0) (0, n)
unfolding read_int
count-Reads u n h =
    as_Reads refl (ap (λ v. (0, v)) (ground arith))
      (write_int-Reads 0 (omega arith) (n % 2 ^ 32) (omega arith) (int_value-ReadsInt u))

-- A type's `write` and `read`, the values that are read back, and the tag that the read returns.
pub record Codec {ℓ} (A : Type ℓ) : Type (ℓ + 1) where
  pub write : A → ℕ → Option (List ℕ)
  pub read : P (ℕ × A)
  pub IsReadable : A → Type 0
  pub returned : ℕ → ℕ
  pub reads :
      (x : A) (tag : ℕ) (bs : List ℕ)
      → IsReadable x
      → tag < 128
      → write x tag ≡ some bs
      → Reads read bs (returned tag, x)

module _ {ℓ} {A : Type ℓ} (codec : Codec A) where
  open codec use {write, read, IsReadable, returned, reads}

  read_each-Reads :
      (v : List A) (bs : List ℕ)
      → All IsReadable v
      → write_each write v ≡ some bs
      → Reads (read_each read (length v)) bs v
  unfolding read_each write_each
  read_each-Reads [] bs g e = as_Reads (some-injective _ _ e) refl (return-Reads [])
  read_each-Reads (x ∷ v) bs (h, g) e =
      let (a, b, d, c, q) = then_write-some _ _ bs e in
      as_Reads q refl (
        bind-Reads _ (reads x 0 a h (omega arith) d)
          (map-Reads (λ xs. x ∷ xs) (read_each-Reads v b g c)))

  list_value-Reads :
      (u : ℕ) (v : List A) (bs : List ℕ)
      → length v < 2 ^ 31
      → All IsReadable v
      → write_each write v ≡ some bs
      → Reads (list_body u read) (write_int (length v % 2 ^ 32) 0 ++ bs) (1, v)
  unfolding list_body
  list_value-Reads u v bs h g e =
      let t = lt→ltb (length v) (2 ^ 31) h in
      bind-Reads _ (count-Reads u (length v) h)
        (map-Reads (λ v. (1, v)) (rw t (read_each-Reads v bs g e)))

  -- A vector of readable elements, fewer than 2 ^ 31, is read back with the elements in their order,
  -- whatever follows; the tag that is returned is 1.
  -- The tag is below 128.
  pub read_list-write_list :
      (u tag : ℕ) (v : List A) (bs w xs : List ℕ) (p : ℕ)
      → tag < 128
      → length v < 2 ^ 31
      → All IsReadable v
      → write_list write v tag ≡ some bs
      → read_list u read (at w p (bs ++ xs)) ≡ ok (1, v) (at w (p + length bs) xs)
  unfolding write_list read_list
  read_list-write_list u tag v bs w xs p k h g e =
      let (a, b, d, c, q) =
        then_write-some
          (some (write_head proto_list (tag % 256) ++ write_int (length v % 2 ^ 32) 0))
          (write_each write v) bs e in
      let t : tag % 256 ≡ tag = omega arith in
      let r =
        bind-Reads _ (read_head-write_head proto_list tag (omega arith) k)
          (list_value-Reads u v b h g c) in
      (as_Reads
          (sym (append_assoc _ _ b)
            ∙ ap (λ y. (y ++ b))
                (ap (λ n. write_head proto_list n ++ write_int (length v % 2 ^ 32) 0) (sym t)
                  ∙ some-injective _ _ d)
            ∙ q)
          refl r).run
        w p xs
