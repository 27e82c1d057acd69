-- ===== src/Proto/RoundTrip/Structs.antt =====
-- Core/src/proto.h and Core/src/proto.cpp: a structure that was written is read, and skipToStructEnd finds its end.
use ocserver.Common.{
  ℕ, zero, suc, ◌+◌, ◌^◌, ◌<◌, ◌≡◌, refl, ap, ◌∙◌, sym, subst, true, false, none, some, ◌≤◌, List,
  [], ◌++◌, drop, length, ◌==◌, arith, length-append, append_assoc, append-nil, drop-append_self,
  if◌then◌else◌,
}
use ocserver.Proto.Types.{proto_struct_end}
use ocserver.Proto.Stream.{ok, return, at}
use ocserver.Proto.Out.{write_head}
use ocserver.Proto.In.{read_head}
use ocserver.Proto.In.Skip.{skip_type, skip_field, skip_to_struct_end}
use ocserver.Proto.RoundTrip.Heads.{head_of, read_head-write_head}
use ocserver.Proto.RoundTrip.Skips.{Skips, return-Skips, bind-Skips, then-Skips}
use ocserver.Proto.Types.{proto_struct_begin}
use ocserver.Proto.Out.{write_struct}
use ocserver.Proto.Stream.{P, ◌>>=◌, continue, error}
use ocserver.Proto.In.Skip.{read_struct}
use ocserver.Proto.RoundTrip.Skips.{ahead_behind}
use ocserver.Proto.RoundTrip.Reads.{Reads}
use ocserver.Proto.RoundTrip.Fields.{IsField, skip_field-skip_type, field-Parts}

-- The fields of a structure, one behind the other.
pub data AreFields : ℕ → List ℕ → Type 0 where
  no_fields : AreFields zero []
  one_more :
      (n tag : ℕ) (field fields : List ℕ)
      → tag < 128
      → IsField tag field
      → AreFields n fields
      → AreFields (suc n) (field ++ fields)

end-field : (u fuel : ℕ) → Skips (skip_field u fuel proto_struct_end) []
unfolding skip_type
end-field u fuel =
    subst (λ m. Skips m [])
      (sym (skip_field-skip_type u fuel proto_struct_end (return true) (λ f. refl))) return-Skips

-- A turn of the loop that goes on.
turn-Skips :
    (u fuel n type tag : ℕ) (payload rest : List ℕ)
    → type < 16
    → tag < 128
    → (type == proto_struct_end) ≡ false
    → Skips (skip_field u fuel type) payload
    → Skips (skip_to_struct_end u fuel n) rest
    → Skips (skip_to_struct_end u fuel (suc n)) (write_head type tag ++ (payload ++ rest))
unfolding skip_to_struct_end
turn-Skips u fuel n type tag payload rest h k e p r =
    let goes : (if type == proto_struct_end then return true else skip_to_struct_end u fuel n)
        ≡ skip_to_struct_end u fuel n =
      rw e refl in
    bind-Skips read_head _ (write_head type tag) (payload ++ rest) (head_of type tag)
      (read_head-write_head type tag h k)
      (then-Skips (skip_field u fuel type)
        (if type == proto_struct_end then return true else skip_to_struct_end u fuel n) payload rest
        p (subst (λ m. Skips m rest) (sym goes) r))

end-Skips :
    (u fuel n tag : ℕ)
    → tag < 128
    → Skips (skip_to_struct_end u fuel (suc n)) (write_head proto_struct_end tag)
unfolding skip_to_struct_end
end-Skips u fuel n tag h =
    subst (Skips (skip_to_struct_end u fuel (suc n))) (append-nil (write_head proto_struct_end tag))
      (bind-Skips read_head _ (write_head proto_struct_end tag) [] (head_of proto_struct_end tag)
        (read_head-write_head proto_struct_end tag (omega arith) h)
        (then-Skips (skip_field u fuel proto_struct_end) (return true) [] [] (end-field u fuel)
          return-Skips))

fields-Skips :
    (u fuel tag n : ℕ) (fields : List ℕ)
    → tag < 128
    → AreFields n fields
    → Skips (skip_to_struct_end u fuel (suc n)) (fields ++ write_head proto_struct_end tag)
fields-Skips u fuel tag zero fields h no_fields = end-Skips u fuel zero tag h
fields-Skips u fuel tag (suc n) fields h (one_more m t field rest k f r) =
    let q = field-Parts u fuel t field f in
    let end = write_head proto_struct_end tag in
    subst (Skips (skip_to_struct_end u fuel (suc (suc n))))
      (sym (append_assoc (write_head q.type t) q.payload (rest ++ end))
        ∙ ap (λ l. l ++ (rest ++ end)) q.split
        ∙ sym (append_assoc field rest end))
      (turn-Skips u fuel (suc n) q.type t q.payload (rest ++ end) q.small k q.other q.skips
        (fields-Skips u fuel tag n rest h r))

-- skipToStructEnd goes behind the end of a structure: with the fields that are left of it, and its end, ahead
-- in a string stream, it takes one turn for each of them. The tags are below 128, and the stream is
-- shorter than 2 ^ 31.
pub skip_to_struct_end-AreFields :
    (u fuel tag n : ℕ) (before fields behind : List ℕ)
    → tag < 128
    → AreFields n fields
    → length (before ++ ((fields ++ write_head proto_struct_end tag) ++ behind)) < 2 ^ 31
    → let w = before ++ ((fields ++ write_head proto_struct_end tag) ++ behind) in
      skip_to_struct_end u fuel
        (suc n)
        (at w (length before) ((fields ++ write_head proto_struct_end tag) ++ behind))
      ≡ ok true (at w (length before + length (fields ++ write_head proto_struct_end tag)) behind)
skip_to_struct_end-AreFields u fuel tag n before fields behind h f l =
    let all = fields ++ write_head proto_struct_end tag in
    (fields-Skips u fuel tag n fields h f).run (before ++ (all ++ behind)) (length before) behind
      (drop-append_self (length before) before (all ++ behind) refl)
      (omega (arith, length-append before (all ++ behind), length-append all behind)) l

-- What is ahead of a structure's fields.
regroup_struct :
    (h bs rest e xs : List ℕ) → (h ++ ((bs ++ rest) ++ e)) ++ xs ≡ h ++ (bs ++ ((rest ++ e) ++ xs))
regroup_struct h bs rest e xs =
    append_assoc h ((bs ++ rest) ++ e) xs
    ∙ ap (λ l. h ++ l) (ap (λ l. l ++ xs) (append_assoc bs rest e) ∙ append_assoc bs (rest ++ e) xs)

module _ {ℓ} {V : Type ℓ} (u fuel tag n : ℕ) (read_from : P V) (v : V) (bs rest : List ℕ) where
  -- The fields that readFrom reads, the others, and the end.
  body-run :
      (w : List ℕ) (p : ℕ) (xs : List ℕ)
      → tag < 128
      → Reads read_from bs v
      → AreFields n rest
      → drop p w ≡ bs ++ ((rest ++ write_head proto_struct_end tag) ++ xs)
      → p + length bs + length (rest ++ write_head proto_struct_end tag) ≤ length w
      → length w < 2 ^ 31
      → (read_from >>= λ v.
            skip_to_struct_end u fuel (suc n) >>= λ done. return (if done then some v else none))
          (at w p (bs ++ ((rest ++ write_head proto_struct_end tag) ++ xs)))
        ≡ ok (some v) (at w (p + length bs + length (rest ++ write_head proto_struct_end tag)) xs)
  body-run w p xs h r f e l k =
      let end = rest ++ write_head proto_struct_end tag in
      ap
        (continue (λ v.
          skip_to_struct_end u fuel (suc n) >>= λ done. return (if done then some v else none)))
        (r.run w p (end ++ xs))
      ∙ ap (continue (λ done. return (if done then some v else none))) (
          (fields-Skips u fuel tag n rest h f).run w (p + length bs) xs
            (ahead_behind w bs (end ++ xs) p e) l k)

  -- A structure that was written, anywhere in a string stream, is read back, whatever readFrom leaves of its
  -- fields. The bytes `bs` are those that readFrom reads as `v`; behind them are `n` fields (numbers,
  -- strings, and vectors of bytes shorter than 256). The tag is below 128, and the stream is shorter
  -- than 2 ^ 31.
  pub read_struct-write_struct :
      (before behind : List ℕ)
      → tag < 128
      → Reads read_from bs v
      → AreFields n rest
      → length (before ++ (write_struct (bs ++ rest) tag ++ behind)) < 2 ^ 31
      → read_struct u read_from fuel (suc n) (
          at
            (before ++ (write_struct (bs ++ rest) tag ++ behind))
            (length before)
            (write_struct (bs ++ rest) tag ++ behind))
        ≡ ok (some v) (
            at
              (before ++ (write_struct (bs ++ rest) tag ++ behind))
              (length before + length (write_struct (bs ++ rest) tag))
              behind)
  unfolding read_struct write_struct
  read_struct-write_struct before behind h r f l =
      let head = write_head proto_struct_begin tag in
      let end = write_head proto_struct_end tag in
      let all = head ++ ((bs ++ rest) ++ end) in
      let w = before ++ (all ++ behind) in
      let p = length before in
      let g = regroup_struct head bs rest end behind in
      let d = drop-append_self p before (all ++ behind) refl ∙ g in
      let a1 = length-append before (all ++ behind) in
      let a2 = length-append all behind in
      let a3 = length-append head ((bs ++ rest) ++ end) in
      let a4 = length-append (bs ++ rest) end in
      let a5 = length-append bs rest in
      let a6 = length-append rest end in
      ap (λ ys. read_struct u read_from fuel (suc n) (at w p ys)) g
      ∙ ap
          (continue (λ head.
            if head.type == proto_struct_begin
            then (read_from >>= λ v. skip_to_struct_end u fuel (suc n) >>= λ done.
                return (if done then some v else none))
            else error))
          ((read_head-write_head proto_struct_begin tag (omega arith) h).run w p
            (bs ++ ((rest ++ end) ++ behind)))
      ∙ body-run w (p + length head) behind h r f
          (ahead_behind w head (bs ++ ((rest ++ end) ++ behind)) p d) (omega arith) l
      ∙ ap (λ q. ok (some v) (at w q behind)) (omega arith)
