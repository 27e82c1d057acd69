-- ===== src/Proto/Stream.antt =====
-- The `std::istream` under a `ProtoIn`, as far as Core/src/proto.cpp uses it, and the result of a read.
-- A value is its bit pattern, a number below 2 ^ w; a `char` is a byte.
use ocserver.Common.{
  ℕ, zero, suc, ◌+◌, Bool, true, false, List, [], ◌∷◌, take, drop, length, if◌then◌else◌, ltb,
}

-- A string stream: all its bytes, the position, the bytes from there on, and `good()`. The end of the
-- bytes sets eofbit and failbit together. `overrun` is whether `error` has written behind its array.
pub record Stream : Type 0 where
  pub whole : List ℕ
  pub pos : ℕ
  pub ahead : List ℕ
  pub good : Bool
  pub overrun : Bool

-- `ProtoError`, and the `std::length_error` of a string with a negative length, are exceptions.
pub data Result {ℓ} (A : Type ℓ) : Type ℓ where
  ok : A → Stream → Result A
  proto_error : Stream → Result A
  length_error : Result A

abbrev pub P {ℓ} : Type ℓ → Type ℓ
P A = Stream → Result A

-- What follows a result: nothing after an exception.
abbrev pub continue {ℓ κ} : {A : Type ℓ} {B : Type κ} → (A → P B) → Result A → Result B
continue f (ok a s) = f a s
continue f (proto_error s) = proto_error s
continue f length_error = length_error

infixl 5 ◌>>=◌ ◌>>◌
abbrev pub ◌>>=◌ {ℓ κ} : {A : Type ℓ} {B : Type κ} → P A → (A → P B) → P B
◌>>=◌ m f s = continue f (m s)

abbrev pub ◌>>◌ {ℓ κ} : {A : Type ℓ} {B : Type κ} → P A → P B → P B
m >> k = m >>= λ _. k

abbrev pub return {ℓ} : {A : Type ℓ} → A → P A
return a s = ok a s

-- `dispbuf` has 60 characters: Buffer2String writes the digits of 30 bytes into it, and the terminating zero
-- behind it.
abbrev pub displayed : Stream → Stream
displayed s = if s.good then record s { overrun = true } else s

-- `error` throws, and leaves the stream where it was; the text is left out.
abbrev pub error {ℓ} : {A : Type ℓ} → P A
error s = proto_error (displayed s)

-- `stream->get( c )` where `c` holds `old`: at the end the stream goes bad and `c` keeps its value.
unfoldable pub get_at : Bool → List ℕ → ℕ → P ℕ
get_at true (c ∷ rest) old s = ok c (record s { pos = s.pos + 1; ahead = rest })
get_at true [] old s = ok old (record s { good = false })
get_at false ahead old s = ok old s

unfoldable pub get : ℕ → P ℕ
unfolding get_at
get old s = get_at s.good s.ahead old s

-- `stream->read` into a string of `n` zeros.
abbrev pub pad : ℕ → List ℕ → List ℕ
pad zero xs = []
pad (suc n) [] = 0 ∷ pad n []
pad (suc n) (x ∷ xs) = x ∷ pad n xs

unfoldable pub read_chars : ℕ → P (List ℕ)
read_chars n s =
    if s.good
    then (if ltb (length s.ahead) n
        then ok (pad n s.ahead)
            (record s { pos = s.pos + length s.ahead; ahead = []; good = false })
        else ok (take n s.ahead) (record s { pos = s.pos + n; ahead = drop n s.ahead }))
    else ok (pad n []) s

-- A stream at `pos`, with the bytes `xs` ahead.
abbrev pub at : List ℕ → ℕ → List ℕ → Stream
at w p xs = record { whole = w; pos = p; ahead = xs; good = true; overrun = false }
