-- ===== src/Server/Writes.antt =====
-- src/uv_net.cpp: uvnet::sendinl and uvnet::AfterSend, and the pool of write requests they share.
-- libuv is the environment: it refuses a request or takes it, and completes the taken ones in any order.
pub mod Pool
mod Tests
use ocserver.Common.{
  ℕ, zero, suc, ◌+◌, ◌-◌, ◌*◌, ◌≤◌, Bool, true, false, List, [], ◌∷◌, ◌++◌, Option, none, some,
  length, ltb, if◌then◌else◌,
}

-- `write_param`: the size of the allocation behind `buf.base`, `buf.len`, the first `buf.len` bytes,
-- and `write_req.data`.
pub record WriteParam : Type 0 where
  pub allocated : ℕ
  pub len : ℕ
  pub bytes : List ℕ
  pub client : ℕ

-- `writeparam_list`, the requests that libuv has taken, and how many were ever allocated and freed.
pub record Writes : Type 0 where
  pub pool : List WriteParam
  pub taken : List WriteParam
  pub allocations : ℕ
  pub frees : ℕ

abbrev pub backlog : ℕ
backlog = 256

abbrev pub no_writes : Writes
no_writes = record { pool = []; taken = []; allocations = 0; frees = 0 }

-- The result of `sendinl`; `overflow` is a `memcpy` behind the end of the buffer.
pub data Sending : Type 0 where
  sent : Bool → Writes → Sending
  overflow : Sending

-- AllocWriteParam. The fresh memory is not read before it is written.
unfoldable pub alloc_write_param : ℕ → WriteParam
alloc_write_param suggested_size = record {
  allocated = suggested_size;
  len = suggested_size;
  bytes = [];
  client = 0;
}

-- A request from the pool, or a new one.
unfoldable pub acquire : List WriteParam → Writes → WriteParam × Writes
unfolding alloc_write_param
acquire [] s = (alloc_write_param 10240, record s { allocations = s.allocations + 1 })
acquire (w ∷ ws) s = (w, record s { pool = ws })

-- `realloc` if `buf.len`, and not the allocation, is too small.
unfoldable pub grow : WriteParam → ℕ → WriteParam
grow w size = if ltb w.len size then record w { allocated = size; len = size } else w

unfoldable pub fill : WriteParam → List ℕ → ℕ → WriteParam
fill w senddata client = record w { len = length senddata; bytes = senddata; client = client }

-- `memcpy` and `uv_write`: `accepts` is libuv's answer.
unfoldable pub submit : Bool → WriteParam → Writes → List ℕ → ℕ → Sending
unfolding fill
submit accepts w s senddata client =
    if ltb w.allocated (length senddata)
    then overflow
    else if accepts
    then sent true (record s { taken = s.taken ++ (fill w senddata client ∷ []) })
    else sent false (record s { pool = s.pool ++ (fill w senddata client ∷ []) })

unfoldable pub send_with : Bool → WriteParam × Writes → List ℕ → ℕ → Sending
unfolding submit grow
send_with accepts (w, s) senddata client =
    submit accepts (grow w (length senddata)) s senddata client

unfoldable pub sendinl : Bool → Writes → List ℕ → ℕ → Sending
unfolding send_with acquire
sendinl accepts s [] client = sent true s
sendinl accepts s (b ∷ bs) client = send_with accepts (acquire s.pool s) (b ∷ bs) client

-- A completed request goes back to the pool, or is freed if that holds more than `backlog`.
unfoldable pub recycle : WriteParam → Writes → Writes
recycle w s =
    if ltb backlog (length s.pool)
    then record s { frees = s.frees + 1 }
    else record s { pool = s.pool ++ (w ∷ []) }

-- A request out of those that libuv has taken.
abbrev pub picked : ℕ → List WriteParam → Option (WriteParam × List WriteParam)
picked i [] = none
picked zero (w ∷ ws) = some (w, ws)
picked (suc i) (w ∷ ws) = elim (picked i ws) [ none ↦ none | some (v, rest) ↦ some (v, w ∷ rest) ]

-- AfterSend for the request at place `i`.
unfoldable pub after_send : ℕ → Writes → Option Writes
unfolding recycle
after_send i s = elim (picked i s.taken) [
  | none ↦ none
  | some (w, rest) ↦ some (recycle w (record s { taken = rest }))
]
