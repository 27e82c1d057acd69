-- ===== src/Proto/RoundTrip/Numbers.antt =====
-- Core/src/proto.cpp: the bytes of a number behind its head.
use ocserver.Common.{ℕ, ◌^◌, ◌<◌, List, ◌++◌, arith}
use ocserver.Proto.Stream.{P, get}
use ocserver.Proto.Out.{write_head, put_short, put_int, put_long}
use ocserver.Proto.In.{ProtoHead, get_short, get_int, get_long, get_loop}
use ocserver.Proto.In.Values.{tagged}
use ocserver.Proto.RoundTrip.Reads.{Reads, ok_at, map-Reads, bind-Reads}
use ocserver.Proto.RoundTrip.Heads.{head_of, read_head-write_head}

pub tagged-Reads {ℓ} :
    {A : Type ℓ} (value : ProtoHead → P A) (type tag : ℕ) (bs : List ℕ) (v : A)
    → type < 16
    → tag < 128
    → Reads (value (head_of type tag)) bs v
    → Reads (tagged value) (write_head type tag ++ bs) (tag, v)
tagged-Reads value type tag bs v h k r =
    bind-Reads _ (read_head-write_head type tag h k) (map-Reads (λ x. (tag, x)) r)

module _ (u : ℕ) where
  pub get_short-Reads : (n : ℕ) → n < 2 ^ 16 → Reads (get_short u) (put_short n) n
  unfolding get_short get
  get_short-Reads n h = record { run = λ w p xs. ok_at (omega arith) (omega arith) }

  pub get_int-Reads : (n : ℕ) → n < 2 ^ 32 → Reads (get_int u) (put_int n) n
  unfolding get_int get_loop get
  get_int-Reads n h = record { run = λ w p xs. ok_at (omega arith) (omega arith) }

  pub get_long-Reads : (n : ℕ) → n < 2 ^ 64 → Reads (get_long u) (put_long n) n
  unfolding get_long get_loop get
  get_long-Reads n h = record { run = λ w p xs. ok_at (omega arith) (omega arith) }
