-- ===== src/Proto/RoundTrip/Floats.antt =====
-- Core/src/proto.cpp: floating-point numbers, by their bit patterns.
use ocserver.Common.{ℕ, ◌+◌, ◌^◌, ◌<◌, ◌≡◌, List, ◌++◌, length, arith}
use ocserver.Proto.Types.{proto_float, proto_double}
use ocserver.Proto.Stream.{ok, at}
use ocserver.Proto.Out.{write_float, write_double, put_int, put_long}
use ocserver.Proto.In.{get_float, get_double, get_int, get_long}
use ocserver.Proto.In.Values.{read_float, read_double, float_value, double_value}
use ocserver.Proto.RoundTrip.Reads.{Reads, map-Reads}
use ocserver.Proto.RoundTrip.Heads.{head_of}
use ocserver.Proto.RoundTrip.Numbers.{tagged-Reads, get_int-Reads, get_long-Reads}

module _ (u : ℕ) where
  float-Reads :
      (tag n : ℕ) → n < 2 ^ 32 → Reads (float_value u (head_of proto_float tag)) (put_int n) n
  unfolding float_value get_float get_int
  float-Reads tag n h = get_int-Reads u n h

  double-Reads :
      (to_double : ℕ → ℕ) (tag n : ℕ)
      → n < 2 ^ 64
      → Reads (double_value u to_double (head_of proto_double tag)) (put_long n) n
  unfolding double_value get_double get_long
  double-Reads to_double tag n h = get_long-Reads u n h

  widened-Reads :
      (to_double : ℕ → ℕ) (tag n : ℕ)
      → n < 2 ^ 32
      → Reads (double_value u to_double (head_of proto_float tag)) (put_int n) (to_double n)
  unfolding double_value get_float get_int
  widened-Reads to_double tag n h = map-Reads to_double (get_int-Reads u n h)

  -- A `float` is read back with its tag, bit by bit, and a `double` too; read as a `double`, a
  -- `float` is converted. The tag is below 128.
  pub read_floats :
      (to_double : ℕ → ℕ) (tag n d : ℕ) (w xs : List ℕ) (p : ℕ)
      → tag < 128
      → n < 2 ^ 32
      → d < 2 ^ 64
      → (read_float u (at w p (write_float n tag ++ xs))
          ≡ ok (tag, n) (at w (p + length (write_float n tag)) xs))
        × (read_double u to_double (at w p (write_double d tag ++ xs))
            ≡ ok (tag, d) (at w (p + length (write_double d tag)) xs))
        × (read_double u to_double (at w p (write_float n tag ++ xs))
            ≡ ok (tag, to_double n) (at w (p + length (write_float n tag)) xs))
  unfolding read_float read_double write_float write_double
  read_floats to_double tag n d w xs p k h l = (
    (tagged-Reads (float_value u) proto_float tag (put_int n) n (omega arith) k
          (float-Reads tag n h)).run
        w p xs,
    (tagged-Reads (double_value u to_double) proto_double tag (put_long d) d (omega arith) k
          (double-Reads to_double tag d l)).run
        w p xs,
    (tagged-Reads (double_value u to_double) proto_float tag (put_int n) (to_double n) (omega arith)
          k (widened-Reads to_double tag n h)).run
        w p xs,
  )
