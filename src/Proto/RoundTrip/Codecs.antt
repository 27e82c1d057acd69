-- ===== src/Proto/RoundTrip/Codecs.antt =====
-- Core/src/proto.cpp: the types whose values are read back with their tag, as elements and entries.
use ocserver.Common.{
  ℕ, ◌^◌, ◌<◌, ◌≡◌, ◌⊎◌, inl, inr, refl, ap, ◌∙◌, sym, List, ◌∷◌, ◌++◌, some, length, arith, subst,
}
use mathlib.Core.Option.{some-injective, none-ne-some}
use ocserver.Proto.Types.{proto_string1, proto_string4}
use ocserver.Proto.Out.{write_int, write_string, put_int}
use ocserver.Proto.In.Values.{Printer, read_int, read_string, string_value}
use ocserver.Proto.RoundTrip.Reads.{Reads, as_Reads}
use ocserver.Proto.RoundTrip.Numbers.{tagged-Reads}
use ocserver.Proto.RoundTrip.Integers.{write_int-Reads, int_value-ReadsInt}
use ocserver.Proto.RoundTrip.Strings.{
  string1-Reads, string4-Reads, write_string-cases, Writes, written-eq,
}
use ocserver.Proto.RoundTrip.Lists.{Codec}

pub int-Reads :
    (u x tag : ℕ) (bs : List ℕ)
    → x < 2 ^ 31
    → tag < 128
    → some (write_int x tag) ≡ some bs
    → Reads (read_int u) bs (tag, x)
unfolding read_int
int-Reads u x tag bs h k e =
    as_Reads (some-injective _ _ e) (ap (λ v. (tag, v)) (ground arith))
      (write_int-Reads tag k x (omega arith) (int_value-ReadsInt u))

-- Lengths that a signed byte holds, or that four bytes hold and are not cut.
abbrev pub IsShortOrLong : List ℕ → Type 0
IsShortOrLong s = (length s < 128) ⊎ ((255 < length s) × (length s < 2 ^ 32))

below_word : (s : List ℕ) → IsShortOrLong s → length s < 2 ^ 32
below_word s (inl h) = omega arith
below_word s (inr (h, k)) = k

module _ (u : ℕ) (printer : Printer) where
  pub string-Reads :
      (s : List ℕ) (tag : ℕ) (bs : List ℕ)
      → IsShortOrLong s
      → tag < 128
      → write_string s tag ≡ some bs
      → Reads (read_string u printer) bs (tag, s)
  unfolding read_string
  string-Reads s tag bs h k e =
      elim (subst (Writes s tag) (written-eq s (below_word s h)) (write_string-cases s tag)) [
        | inl (l, d) ↦ elim h [
          | inl m ↦ as_Reads (some-injective _ _ (sym d ∙ e)) refl (
              tagged-Reads (string_value u printer) proto_string1 tag (length s ∷ s) s (omega arith)
                k (string1-Reads u printer tag s m))
          | inr m ↦ absurd (omega arith)
        ]
        | inr (inl (l, m, d)) ↦ as_Reads (some-injective _ _ (sym d ∙ e)) refl (
            tagged-Reads (string_value u printer) proto_string4 tag (put_int (length s) ++ s) s
              (omega arith) k (string4-Reads u printer tag s m))
        | inr (inr (l, d)) ↦ absurd (none-ne-some _ (sym d ∙ e))
      ]

  abbrev pub string_codec : Codec (List ℕ)
  string_codec = record {
    write = write_string;
    read = read_string u printer;
    IsReadable = IsShortOrLong;
    returned = λ tag. tag;
    reads = string-Reads;
  }

abbrev pub int_codec : ℕ → Codec ℕ
int_codec u = record {
  write = λ x tag. some (write_int x tag);
  read = read_int u;
  IsReadable = λ x. x < 2 ^ 31;
  returned = λ tag. tag;
  reads = int-Reads u;
}
