-- ===== src/Proto/Display/Stuck.antt =====
-- Core/src/proto.cpp: what ProtoDisplay does with a type that it does not know, and with an empty map.
use ocserver.Common.{
  ℕ, zero, suc, ◌+◌, ◌-◌, ◌%◌, ◌^◌, ◌<◌, ◌≡◌, refl, ap, ◌∙◌, true, false, List, [], ◌++◌, Option,
  none, some, length, ◌==◌, arith, inl, inr, ◌⊎◌, Bool-cases, ==_iff, length-append,
  drop-append_self, if◌then◌else◌,
}
use ocserver.Proto.Stream.{Stream, ok, ◌>>=◌, continue, return, at, P}
use ocserver.Proto.In.Skip.{tell, seek, peak_head}
use ocserver.Proto.RoundTrip.Heads.{head_of, read_head-write_head}
use ocserver.Proto.RoundTrip.Skips.{seek_in-at}
use ocserver.Proto.Out.{write_head}
use ocserver.Proto.Display.{Printers, Mode, Shown, display_value, display_proto, do_display}

-- A head at the end of `before`.
abbrev pub at_head : ℕ → ℕ → List ℕ → List ℕ → Stream
at_head type tag before behind =
    let bytes = write_head type tag ++ behind in at (before ++ bytes) (length before) bytes

-- The head is read, and the stream goes back to it.
peak_head-at_head :
    (type tag : ℕ) (before behind : List ℕ)
    → type < 16
    → tag < 128
    → length (before ++ (write_head type tag ++ behind)) < 2 ^ 31
    → peak_head (at_head type tag before behind)
      ≡ ok (head_of type tag) (at_head type tag before behind)
unfolding peak_head
peak_head-at_head type tag before behind h k l =
    let head = write_head type tag in
    let w = before ++ (head ++ behind) in
    let p = length before in
    let a = length-append before (head ++ behind) in
    let b = length-append head behind in
    ap
      (continue (λ head.
        tell >>= λ pos. seek ((pos + 2 ^ 32 - head.len) % 2 ^ 32) >>= λ moved. return head))
      ((read_head-write_head type tag h k).run w p behind)
    ∙ ap (ok (head_of type tag)) (
        seek_in-at w behind (head ++ behind) (p + length head) p
          (((p + length head) % 2 ^ 32 + 2 ^ 32 - length head) % 2 ^ 32) (omega arith)
          (drop-append_self p before (head ++ behind) refl) (omega arith) l)

unknown_type : (t : ℕ) → 13 < t → t < 16 → (t ≡ 14) ⊎ (t ≡ 15)
unknown_type t h k = elim (Bool-cases (t == 14)) [
  | inl e ↦ inl ((==_iff t 14).0 e)
  | inr e ↦ inr (ground (arith, ==_iff t 14))
]

module _ (u : ℕ) (printers : Printers) where
  display_value-14 :
      (nested : Mode → P (Option (List ℕ))) (m : Mode) (tag len : ℕ) (s : Stream)
      → display_value u printers nested m (record { type = 14; tag = tag; len = len }) s
        ≡ ok (some (true, [])) s
  unfolding display_value
  display_value-14 nested m tag len s = refl

  display_value-15 :
      (nested : Mode → P (Option (List ℕ))) (m : Mode) (tag len : ℕ) (s : Stream)
      → display_value u printers nested m (record { type = 15; tag = tag; len = len }) s
        ≡ ok (some (true, [])) s
  unfolding display_value
  display_value-15 nested m tag len s = refl

  -- A type that no case of the switch is for: nothing is read, and nothing put out.
  display_value-unknown :
      (nested : Mode → P (Option (List ℕ))) (m : Mode) (t tag len : ℕ) (s : Stream)
      → 13 < t
      → t < 16
      → display_value u printers nested m (record { type = t; tag = tag; len = len }) s
        ≡ ok (some (true, [])) s
  display_value-unknown nested m t tag len s h k = elim (unknown_type t h k) [
    | inl e ↦
        ap (λ t. display_value u printers nested m (record { type = t; tag = tag; len = len }) s) e
        ∙ display_value-14 nested m tag len s
    | inr e ↦
        ap (λ t. display_value u printers nested m (record { type = t; tag = tag; len = len }) s) e
        ∙ display_value-15 nested m tag len s
  ]

  display_proto-unknown :
      (nested : Mode → P (Option (List ℕ))) (m : Mode) (type tag : ℕ) (before behind : List ℕ)
      → 13 < type
      → type < 16
      → tag < 128
      → length (before ++ (write_head type tag ++ behind)) < 2 ^ 31
      → display_proto u printers nested m (at_head type tag before behind)
        ≡ ok (some (true, [])) (at_head type tag before behind)
  unfolding display_proto
  display_proto-unknown nested m type tag before behind g h k l =
      ap
        (continue (λ head. λ s.
          if s.good then display_value u printers nested m head s else ok (some (false, [])) s))
        (peak_head-at_head type tag before behind h k l)
      ∙ display_value-unknown nested m type tag (length (write_head type tag))
          (at_head type tag before behind) g h

  -- What do_display does behind a value.
  abbrev shown : ℕ → Mode → Shown → P (Option (List ℕ))
  shown fuel m r = elim r [
    | none ↦ return none
    | some (go, text) ↦ elim go [
      | false ↦ return (some text)
      | true ↦ do_display u printers fuel m >>= λ rest.
          return (elim rest [ none ↦ none | some more ↦ some (text ++ more) ])
    ]
  ]

  -- A value of one of the two types that do not exist, anywhere in a string stream: do_display never ends, no
  -- number of turns is enough, and the stream stays where it is. The tag is below 128, and the stream is
  -- shorter than 2 ^ 31.
  pub do_display_stuck :
      (fuel : ℕ) (m : Mode) (type tag : ℕ) (before behind : List ℕ)
      → 13 < type
      → type < 16
      → tag < 128
      → length (before ++ (write_head type tag ++ behind)) < 2 ^ 31
      → do_display u printers fuel m (at_head type tag before behind)
        ≡ ok none (at_head type tag before behind)
  unfolding do_display
  do_display_stuck zero m type tag before behind g h k l = refl
  do_display_stuck (suc fuel) m type tag before behind g h k l =
      ap (continue (shown fuel m))
        (display_proto-unknown (do_display u printers fuel) m type tag before behind g h k l)
      ∙ ap (continue (λ rest. return (elim rest [ none ↦ none | some more ↦ some ([] ++ more) ])))
          (do_display_stuck fuel m type tag before behind g h k l)
