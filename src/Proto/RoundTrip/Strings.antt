-- ===== src/Proto/RoundTrip/Strings.antt =====
-- Core/src/proto.cpp: strings, whose length is one byte or four.
use ocserver.Common.{
  ℕ, ◌+◌, ◌*◌, ◌/◌, ◌%◌, ◌^◌, ◌<◌, ◌≤◌, ◌≡◌, ◌⊎◌, refl, ap, ◌∙◌, List, ◌∷◌, ◌++◌, Option, none,
  some, length, take, ltb, leb, if◌then◌else◌, arith, Bool-cases, inl, inr, ltb→lt, not_ltb→le,
  append_assoc, length-append, le→not_ltb, lt→ltb, le→leb, lt→not_leb, take-append_self,
  drop-append_self, take_all, length-take, subst, sym,
}
use ocserver.Proto.Types.{proto_string1, proto_string4, proto_max_string_length}
use ocserver.Proto.Stream.{
  Stream, ◌>>=◌, return, Result, P, ok, length_error, at, continue, read_chars, get,
}
use ocserver.Proto.Out.{write_head, write_string, put_int}
use ocserver.Proto.In.Values.{
  read_string, string_value, limited_string, get_string, char_to_int, Printer,
}
use ocserver.Proto.RoundTrip.Reads.{Reads, bind-Reads, get-Reads, ok_at}
use ocserver.Proto.RoundTrip.Heads.{head_of, read_head-write_head}
use ocserver.Proto.RoundTrip.Numbers.{tagged-Reads}

read_chars-Reads : (s : List ℕ) → Reads (read_chars (length s)) s s
unfolding read_chars
read_chars-Reads s = record {
  run = λ w p xs.
      rw
        (
          le→not_ltb (length (s ++ xs)) (length s) (omega (arith, length-append s xs)),
          take-append_self (length s) s xs refl,
          drop-append_self (length s) s xs refl,
        )
        refl;
}

limited_string-allowed :
    (n : ℕ) (s : Stream) → n ≤ proto_max_string_length → limited_string n s ≡ read_chars n s
unfolding limited_string get_string
limited_string-allowed n s h =
    let a = le→not_ltb proto_max_string_length n h in
    let b = lt→ltb n (2 ^ 31) (omega arith) in rw (a, b) refl

get_string-negative : (n : ℕ) (s : Stream) → 2 ^ 31 ≤ n → get_string n s ≡ length_error
unfolding get_string
get_string-negative n s h = let b = le→not_ltb n (2 ^ 31) h in rw b refl

limited_string-negative : (n : ℕ) (s : Stream) → 2 ^ 31 ≤ n → limited_string n s ≡ length_error
unfolding limited_string
limited_string-negative n s h =
    let a = lt→ltb proto_max_string_length n (omega arith) in
    let b = le→not_ltb n (2 ^ 31) h in rw (a, b) (get_string-negative n s h)

limited_string-Reads :
    (s : List ℕ) → length s ≤ proto_max_string_length → Reads (limited_string (length s)) s s
limited_string-Reads s h = record {
  run = λ w p xs.
      limited_string-allowed (length s) (at w p (s ++ xs)) h ∙ (read_chars-Reads s).run w p xs;
}

module _ (u : ℕ) (printer : Printer) (tag : ℕ) where
  pub string1-Reads :
      (s : List ℕ)
      → length s < 128
      → Reads (string_value u printer (head_of proto_string1 tag)) (length s ∷ s) s
  unfolding string_value
  string1-Reads s h =
      let c : char_to_int (length s) ≡ length s = ground arith in
      bind-Reads (λ a. limited_string (char_to_int a)) (get-Reads u (length s))
        (rw c (limited_string-Reads s (omega arith)))

  pub string4-Reads :
      (s : List ℕ)
      → length s ≤ proto_max_string_length
      → Reads (string_value u printer (head_of proto_string4 tag)) (put_int (length s) ++ s) s
  unfolding string_value
  string4-Reads s h =
      let n = length s in
      let e : n / 2 ^ 24 % 256 * 2 ^ 24
            + n / 2 ^ 16 % 256 * 2 ^ 16
            + n / 2 ^ 8 % 256 * 2 ^ 8
            + n % 256
          ≡ n =
        omega arith in
      bind-Reads _ (get-Reads 0 _) (
        bind-Reads _ (get-Reads 0 _) (
          bind-Reads _ (get-Reads 0 _) (
            bind-Reads
              (λ d. limited_string (
                n / 2 ^ 24 % 256 * 2 ^ 24
                + n / 2 ^ 16 % 256 * 2 ^ 16
                + n / 2 ^ 8 % 256 * 2 ^ 8
                + d))
              (get-Reads 0 _) (rw e (limited_string-Reads s h)))))

  -- A length of a `char` that is negative.
  string1_throws :
      (s : List ℕ) (w xs : List ℕ) (p : ℕ)
      → 128 ≤ length s
      → length s ≤ 255
      → string_value u printer (head_of proto_string1 tag) (at w p ((length s ∷ s) ++ xs))
        ≡ length_error
  unfolding string_value get
  string1_throws s w xs p h k =
      let c : 2 ^ 31 ≤ char_to_int (length s) = ground arith in
      limited_string-negative (char_to_int (length s)) (at w (p + 1) (s ++ xs)) c

-- The length as an int, and what is written of a text.
abbrev int_length : List ℕ → ℕ
int_length s = length s % 2 ^ 32

abbrev pub written : List ℕ → List ℕ
written s = take (int_length s) s

pub written-eq : (s : List ℕ) → length s < 2 ^ 32 → written s ≡ s
written-eq s h = take_all (int_length s) s (omega arith)

length-written : (s : List ℕ) → length (written s) ≡ int_length s
length-written s = omega (arith, length-take (int_length s) s)

-- What `write` puts on the stream, by the length of what it writes.
chosen : ℕ → List ℕ → ℕ → Option (List ℕ)
chosen n t tag =
    if ltb n (2 ^ 31)
    then (if ltb proto_max_string_length n
        then none
        else if ltb 255 n
        then some (write_head proto_string4 tag ++ (put_int n ++ t))
        else some (write_head proto_string1 tag ++ ((n % 256) ∷ t)))
    else none

-- The three outcomes of a write.
abbrev pub Writes : List ℕ → ℕ → List ℕ → Type 0
Writes s tag t =
    ((length t ≤ 255)
      × (write_string s tag ≡ some (write_head proto_string1 tag ++ (length t ∷ t))))
    ⊎ (((255 < length t)
          × (length t ≤ proto_max_string_length)
          × (write_string s tag ≡ some (write_head proto_string4 tag ++ (put_int (length t) ++ t))))
        ⊎ ((proto_max_string_length < length t) × (write_string s tag ≡ none)))

chosen-cases :
    (s : List ℕ) (tag : ℕ) (t : List ℕ)
    → write_string s tag ≡ chosen (length t) t tag
    → Writes s tag t
unfolding chosen
chosen-cases s tag t e = elim (Bool-cases (ltb 255 (length t))) [
  | inr y ↦
      let h = not_ltb→le _ _ y in
      let a = lt→ltb (length t) (2 ^ 31) (omega arith) in
      let b = le→not_ltb proto_max_string_length (length t) (omega arith) in
      let c : length t % 256 ≡ length t = omega arith in
      inl (h, e ∙ rw (a, b, y) (ap (λ n. some (write_head proto_string1 tag ++ (n ∷ t))) c))
  | inl y ↦ elim (Bool-cases (ltb proto_max_string_length (length t))) [
    | inl z ↦ elim (Bool-cases (ltb (length t) (2 ^ 31))) [
      | inl a ↦ inr (inr (ltb→lt _ _ z, e ∙ rw (a, z) refl))
      | inr a ↦ inr (inr (ltb→lt _ _ z, e ∙ rw a refl))
    ]
    | inr z ↦
        let h = not_ltb→le _ _ z in
        let a = lt→ltb (length t) (2 ^ 31) (omega arith) in
        inr (inl (ltb→lt _ _ y, h, e ∙ rw (a, z, y) refl))
  ]
]

pub write_string-cases : (s : List ℕ) (tag : ℕ) → Writes s tag (written s)
unfolding write_string chosen
write_string-cases s tag =
    chosen-cases s tag (written s) (ap (λ n. chosen n (written s) tag) (sym (length-written s)))

-- What reading the bytes of a write gives.
abbrev pub then_read {ℓ} :
    {A : Type ℓ} → P A → List ℕ → ℕ → List ℕ → Option (List ℕ) → Option (Result A)
then_read m w p xs none = none
then_read m w p xs (some bs) = some (m (at w p (bs ++ xs)))

abbrev pub string_outcome : List ℕ → ℕ → List ℕ → ℕ → List ℕ → Option (Result (ℕ × List ℕ))
string_outcome s tag w p xs =
    if ltb proto_max_string_length (length s)
    then none
    else if ltb (length s) 128
    then some (ok (tag, s) (at w (p + (length (write_head proto_string1 tag) + length s + 1)) xs))
    else if leb (length s) 255
    then some length_error
    else some (ok (tag, s) (at w (p + (length (write_head proto_string4 tag) + length s + 4)) xs))

module _ (u : ℕ) (printer : Printer) (tag : ℕ) (w xs : List ℕ) (p : ℕ) (s : List ℕ)
    (k : tag < 128) where
  read_short_string :
      length s < 128
      → read_string u printer (at w p ((write_head proto_string1 tag ++ (length s ∷ s)) ++ xs))
        ≡ ok (tag, s) (at w (p + (length (write_head proto_string1 tag) + length s + 1)) xs)
  unfolding read_string
  read_short_string h =
      (tagged-Reads (string_value u printer) proto_string1 tag (length s ∷ s) s (omega arith) k
          (string1-Reads u printer tag s h)).run
        w p xs
      ∙ ok_at refl (omega (arith, length-append (write_head proto_string1 tag) (length s ∷ s)))

  read_long_string :
      length s ≤ proto_max_string_length
      → read_string u printer
          (at w p ((write_head proto_string4 tag ++ (put_int (length s) ++ s)) ++ xs))
        ≡ ok (tag, s) (at w (p + (length (write_head proto_string4 tag) + length s + 4)) xs)
  unfolding read_string
  read_long_string h =
      (tagged-Reads (string_value u printer) proto_string4 tag (put_int (length s) ++ s) s
          (omega arith) k (string4-Reads u printer tag s h)).run
        w p xs
      ∙ ok_at refl
          (omega (arith, length-append (write_head proto_string4 tag) (put_int (length s) ++ s)))

  read_middle_string :
      128 ≤ length s
      → length s ≤ 255
      → read_string u printer (at w p ((write_head proto_string1 tag ++ (length s ∷ s)) ++ xs))
        ≡ length_error
  unfolding read_string
  read_middle_string h l =
      ap (λ bs. read_string u printer (at w p bs))
        (append_assoc (write_head proto_string1 tag) (length s ∷ s) xs)
      ∙ ap (continue (λ head. string_value u printer head >>= λ v. return (head.tag, v)))
          ((read_head-write_head proto_string1 tag (omega arith) k).run w p ((length s ∷ s) ++ xs))
      ∙ ap (continue (λ v. return (tag, v))) (string1_throws u printer tag s w xs _ h l)

pub read_string-write_string :
    (u : ℕ) (printer : Printer) (tag : ℕ) (w xs : List ℕ) (p : ℕ) (s : List ℕ)
    → tag < 128
    → length s < 2 ^ 32
    → then_read (read_string u printer) w p xs (write_string s tag) ≡ string_outcome s tag w p xs
read_string-write_string u printer tag w xs p s k f =
    elim (subst (Writes s tag) (written-eq s f) (write_string-cases s tag)) [
      | inl (l, e) ↦
          let m = le→not_ltb proto_max_string_length (length s) (omega arith) in
          elim (Bool-cases (ltb (length s) 128)) [
            | inl y ↦
                rw (e, m, y) (ap some (read_short_string u printer tag w xs p s k (ltb→lt _ _ y)))
            | inr y ↦
                let q = le→leb (length s) 255 l in
                rw (e, m, y, q)
                  (ap some (read_middle_string u printer tag w xs p s k (not_ltb→le _ _ y) l))
          ]
      | inr (inl (l, m, e)) ↦
          let a = le→not_ltb proto_max_string_length (length s) m in
          let b = le→not_ltb (length s) 128 (omega arith) in
          let c = lt→not_leb (length s) 255 l in
          rw (e, a, b, c) (ap some (read_long_string u printer tag w xs p s k m))
      | inr (inr (l, e)) ↦ let a = lt→ltb _ _ l in rw (e, a) refl
    ]
