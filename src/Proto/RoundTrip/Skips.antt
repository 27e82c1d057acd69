-- ===== src/Proto/RoundTrip/Skips.antt =====
-- Core/src/proto.cpp: ProtoIn skips what ProtoOut wrote.
use ocserver.Common.{
  ℕ, ◌+◌, ◌%◌, ◌^◌, ◌<◌, ◌≤◌, ◌≡◌, refl, ap, ◌∙◌, sym, Bool, true, false, List, [], ◌++◌, length,
  drop, ltb, leb, arith, lt→ltb, le→leb, length-append, append_assoc, drop-drop, drop-append_self,
}
use ocserver.Proto.Stream.{Stream, ok, ◌>>=◌, continue, return, at, P}
use ocserver.Proto.In.Skip.{seek_in, forward}
use ocserver.Proto.RoundTrip.Reads.{Reads}

-- The skip `m` goes over the bytes `bs` of a stream that is shorter than 2 ^ 31.
pub record Skips (m : P Bool) (bs : List ℕ) : Type 0 where
  pub run :
      (w : List ℕ) (p : ℕ) (xs : List ℕ)
      → drop p w ≡ bs ++ xs
      → p + length bs ≤ length w
      → length w < 2 ^ 31
      → m (at w p (bs ++ xs)) ≡ ok true (at w (p + length bs) xs)

-- What is ahead behind the bytes.
pub ahead_behind : (w bs xs : List ℕ) (p : ℕ) → drop p w ≡ bs ++ xs → drop (p + length bs) w ≡ xs
ahead_behind w bs xs p e =
    sym (drop-drop p (length bs) w)
    ∙ ap (drop (length bs)) e
    ∙ drop-append_self (length bs) bs xs refl

pub seek_in-at :
    (w ahead xs : List ℕ) (p q t : ℕ)
    → t ≡ q
    → drop q w ≡ xs
    → q ≤ length w
    → length w < 2 ^ 31
    → seek_in t (at w p ahead) ≡ at w q xs
seek_in-at w ahead xs p q t e d h k =
    let l : ltb q (2 ^ 31) ≡ true = lt→ltb _ _ (omega arith) in
    let m : leb q (length w) ≡ true = le→leb _ _ h in
    ap (λ t. seek_in t (at w p ahead)) e ∙ rw (l, m) (ap (λ ys. at w q ys) d)

pub forward-Skips : (bs : List ℕ) → Skips (forward (length bs)) bs
unfolding forward
forward-Skips bs = record {
  run = λ w p xs e h k. ap (ok true) (
      seek_in-at w (bs ++ xs) xs p (p + length bs) ((p % 2 ^ 32 + length bs) % 2 ^ 32) (omega arith)
        (ahead_behind w bs xs p e) h k);
}

pub return-Skips : Skips (return true) []
return-Skips = record { run = λ w p xs e h k. ap (λ q. ok true (at w q xs)) (omega arith) }

-- A read, and then a skip.
pub bind-Skips :
    {A : Type 0} (m : P A) (f : A → P Bool) (bs cs : List ℕ) (a : A)
    → Reads m bs a
    → Skips (f a) cs
    → Skips (m >>= f) (bs ++ cs)
bind-Skips m f bs cs a r s = record {
  run = λ w p xs e h k.
      let d = e ∙ append_assoc bs cs xs in
      let l = length-append bs cs in
      ap (λ ys. continue f (m (at w p ys))) (append_assoc bs cs xs)
      ∙ ap (continue f) (r.run w p (cs ++ xs))
      ∙ s.run w (p + length bs) xs (ahead_behind w bs (cs ++ xs) p d) (omega arith) k
      ∙ ap (λ q. ok true (at w q xs)) (omega arith);
}

-- The same skip, in other words.
pub as_Skips :
    (m m' : P Bool) (bs : List ℕ) → ((s : Stream) → m s ≡ m' s) → Skips m' bs → Skips m bs
as_Skips m m' bs e h = record { run = λ w p xs d l k. e (at w p (bs ++ xs)) ∙ h.run w p xs d l k }

-- A skip, and then another.
pub then-Skips :
    (m m' : P Bool) (bs cs : List ℕ)
    → Skips m bs
    → Skips m' cs
    → Skips (m >>= λ done. elim done [ true ↦ m' | false ↦ return false ]) (bs ++ cs)
then-Skips m m' bs cs r s = record {
  run = λ w p xs e h k.
      let f : Bool → P Bool = λ done. elim done [ true ↦ m' | false ↦ return false ] in
      let d = e ∙ append_assoc bs cs xs in
      let l = length-append bs cs in
      ap (λ ys. continue f (m (at w p ys))) (append_assoc bs cs xs)
      ∙ ap (continue f) (r.run w p (cs ++ xs) d (omega arith) k)
      ∙ s.run w (p + length bs) xs (ahead_behind w bs (cs ++ xs) p d) (omega arith) k
      ∙ ap (λ q. ok true (at w q xs)) (omega arith);
}
