-- ===== src/Proto/RoundTrip/Maps.antt =====
-- Core/src/proto.h: maps of any type, written and read entry by entry.
use ocserver.Common.{
  ℕ, ◌+◌, ◌%◌, ◌^◌, ◌<◌, ◌≡◌, refl, ap, ◌∙◌, sym, List, [], ◌∷◌, ◌++◌, some, length, All, arith,
  lt→ltb, append_assoc, ◌==◌, ==_iff, if◌then◌else◌,
}
use mathlib.Core.Option.{some-injective}
use ocserver.Proto.Types.{proto_map}
use ocserver.Proto.Stream.{ok, error, at, ◌>>=◌, return}
use ocserver.Proto.Out.{write_head, write_int, write_entries, write_map}
use ocserver.Proto.In.Values.{read_entries, read_value, map_body, read_map}
use ocserver.Proto.RoundTrip.Reads.{Reads, as_Reads, bind-Reads, map-Reads, return-Reads}
use ocserver.Proto.RoundTrip.Heads.{read_head-write_head}
use ocserver.Proto.RoundTrip.Lists.{Codec, then_write-some, count-Reads}

module _ {ℓ κ μ} {K : Type ℓ} {V : Type κ} {M : Type μ} (key : Codec K) (value : Codec V)
    (store : K → V → M → M) where
  -- A map with some entries stored, the first one first.
  abbrev pub stored : List (K × V) → M → M
  stored [] m = m
  stored ((k, v) ∷ es) m = stored es (store k v m)

  abbrev pub IsReadableEntry : K × V → Type 0
  IsReadableEntry (k, v) = key.IsReadable k × value.IsReadable v

  module _ (keys : key.returned 0 ≡ 0) (values : value.returned 1 ≡ 1) where
    read_value-Reads :
        (k : K) (v : V) (m : M) (bs : List ℕ)
        → value.IsReadable v
        → value.write v 1 ≡ some bs
        → Reads (read_value key.read value.read store k m) bs (store k v m)
    unfolding read_value
    read_value-Reads k v m bs h e =
        let t = (==_iff (value.returned 1) 1).1 values in
        as_Reads refl (rw t refl) (map-Reads _ (value.reads v 1 bs h (omega arith) e))

    read_entries-Reads :
        (es : List (K × V)) (m : M) (bs : List ℕ)
        → All IsReadableEntry es
        → write_entries key.write value.write es ≡ some bs
        → Reads (read_entries key.read value.read store (length es) m) bs (stored es m)
    unfolding read_entries write_entries
    read_entries-Reads [] m bs g e = as_Reads (some-injective _ _ e) refl (return-Reads m)
    read_entries-Reads ((k, v) ∷ es) m bs ((h, i), g) e =
        let (a, r, d, c, q) = then_write-some _ _ bs e in
        let (a', r', d', c', q') = then_write-some _ _ r c in
        let t = (==_iff (key.returned 0) 0).1 keys in
        let z : Reads
            (if key.returned 0 == 0 then read_value key.read value.read store k m else return m) a'
            (store k v m) =
          rw t (read_value-Reads k v m a' i d') in
        as_Reads (ap (λ y. (a ++ y)) q' ∙ q) refl (
          bind-Reads _ (key.reads k 0 a h (omega arith) d)
            (bind-Reads _ z (read_entries-Reads es (store k v m) r' g c')))

    map_value-Reads :
        (u : ℕ) (es : List (K × V)) (empty : M) (bs : List ℕ)
        → length es < 2 ^ 31
        → All IsReadableEntry es
        → write_entries key.write value.write es ≡ some bs
        → Reads
            (map_body key.read value.read store u empty)
            (write_int (length es % 2 ^ 32) 0 ++ bs)
            (stored es empty)
    unfolding map_body
    map_value-Reads u es empty bs h g e =
        let t = lt→ltb (length es) (2 ^ 31) h in
        bind-Reads _ (count-Reads u (length es) h) (rw t (read_entries-Reads es empty bs g e))

    -- A map of fewer than 2 ^ 31 readable entries is read back with its tag, its entries stored one
    -- after the other in an empty map, if the read of a key returns the tag 0 that it is written
    -- with, and the read of a value the tag 1.
    -- The tag is below 128.
    pub read_map-write_map :
        (u tag : ℕ) (es : List (K × V)) (empty : M) (bs w xs : List ℕ) (p : ℕ)
        → tag < 128
        → length es < 2 ^ 31
        → All IsReadableEntry es
        → write_map key.write value.write es tag ≡ some bs
        → read_map key.read value.read store u empty (at w p (bs ++ xs))
          ≡ ok (tag, stored es empty) (at w (p + length bs) xs)
    unfolding write_map read_map
    read_map-write_map u tag es empty bs w xs p k h g e =
        let (a, b, d, c, q) =
          then_write-some
            (some (write_head proto_map (tag % 256) ++ write_int (length es % 2 ^ 32) 0))
            (write_entries key.write value.write es) bs e in
        let t : tag % 256 ≡ tag = omega arith in
        let r =
          bind-Reads
            (λ head.
              (if head.type == proto_map then map_body key.read value.read store u empty else error)
              >>= λ m. return (head.tag, m))
            (read_head-write_head proto_map tag (omega arith) k)
            (map-Reads (λ m. (tag, m)) (map_value-Reads u es empty b h g c)) in
        (as_Reads
            (sym (append_assoc (write_head proto_map tag) (write_int (length es % 2 ^ 32) 0) b)
              ∙ ap (λ y. (y ++ b))
                  (ap (λ n. write_head proto_map n ++ write_int (length es % 2 ^ 32) 0) (sym t)
                    ∙ some-injective _ _ d)
              ∙ q)
            refl r).run
          w p xs
