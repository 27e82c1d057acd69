-- ===== src/Proto/In.antt =====
-- Core/src/proto.h and Core/src/proto.cpp, class ProtoIn: reading tagged values.
-- A `read` returns the tag and the value that it stores in its argument.
pub mod Values
pub mod Skip
use ocserver.Common.{
  ℕ, zero, suc, ◌+◌, ◌*◌, ◌/◌, ◌%◌, ◌^◌, Bool, true, false, List, [], ◌∷◌, ◌++◌, ltb, leb, ◌==◌,
  if◌then◌else◌,
}
use ocserver.Proto.Types.{
  proto_byte, proto_short, proto_int, proto_long, proto_float, proto_double, proto_string1,
  proto_string4, proto_map, proto_list, proto_zero_tag, proto_simple_list, proto_max_string_length,
}
use ocserver.Proto.Stream.{
  Stream, Result, ok, proto_error, length_error, P, ◌>>=◌, ◌>>◌, return, error, get, read_chars,
}

pub record ProtoHead : Type 0 where
  pub type : ℕ
  pub tag : ℕ
  pub len : ℕ

unfoldable pub read_head : P ProtoHead
unfolding get
read_head = do
  b ← get 0
  elim (b / 16 == 15) [
    | true ↦ do b' ← get b; return (record { type = b % 16; tag = b'; len = 2 })
    | false ↦ return (record { type = b % 16; tag = b / 16; len = 1 })
  ]

-- `char a` is not initialised before `get`: it holds `u`.
module _ (u : ℕ) where
  unfoldable pub get_char : P ℕ
  unfolding get
  get_char = get u

  unfoldable pub get_short : P ℕ
  unfolding get
  get_short = do a ← get u; b ← get u; return ((a * 2 ^ 8 + b) % 2 ^ 16)

-- The loop of `get_int` and `get_long`: `n` more bytes, `a` the last one, `w` the bits of the result.
unfoldable pub get_loop : ℕ → ℕ → ℕ → ℕ → P ℕ
unfolding get
get_loop w zero a res = return res
get_loop w (suc n) a res = do a' ← get a; get_loop w n a' (res * 2 ^ 8 % 2 ^ w + a')

module _ (u : ℕ) where
  unfoldable pub get_int : P ℕ
  unfolding get_loop
  get_int = get_loop 32 4 u 0

  unfoldable pub get_long : P ℕ
  unfolding get_loop
  get_long = get_loop 64 8 u 0

  -- The bytes of a `float` are stored from the highest on.
  unfoldable pub get_float : P ℕ
  unfolding get_loop
  get_float = get_loop 32 4 u 0

  unfoldable pub get_double : P ℕ
  unfolding get_loop
  get_double = get_loop 64 8 u 0
