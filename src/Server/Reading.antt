-- ===== src/Server/Reading.antt =====
-- src/uv_net.cpp: what libuv reads from a client, until it is closed: alloc_buffer, read_header, and the closing of a
-- ClientConnS. A buffer is counted from malloc to free. With TLS the bytes are fed to the TLS library,
-- and closing begins there.
mod Calls
mod Plain
mod Tls
mod Ended
mod Tests
use ocserver.Common.{
  ℕ, zero, suc, ◌+◌, ◌-◌, Bool, true, false, List, [], ◌∷◌, ◌++◌, Option, none, some, if◌then◌else◌,
}
use ocserver.PacketSync.{Frame, PacketSync, Outcome, done, crashed, stuck, recvdata}

-- How far the closing is: `uv_close` or `evt_tls_close` was called, or the callback `closedcb`.
pub data Closing : Type 0 where
  open_handle closing_tls closing_handle closed : Closing

pub record Reader : Type 0 where
  pub need_tls : Bool
  pub packet : PacketSync
  pub fed : List (List ℕ)
  pub buffers : ℕ
  pub closing : Closing

-- The number of bytes that libuv read, with the bytes: more than none, none, or an error or the end.
pub data Nread : Type 0 where
  bytes : List ℕ → Nread
  no_bytes : Nread
  failure : Nread

-- The packets whose callback was called. The call of the last one may have ended with an exception, which ends
-- the program; an assertion may fail, and recvdata may access memory out of range, or not return.
pub data Handled (S : Type 0) : Type 0 where
  handled : List Frame → S → Handled S
  thrown asserts out_of_range : List Frame → Handled S
  no_return : Handled S

-- Frames whose callback was called before.
abbrev pub behind : {S : Type 0} → List Frame → Handled S → Handled S
behind fs (handled gs r) = handled (fs ++ gs) r
behind fs (thrown gs) = thrown (fs ++ gs)
behind fs (asserts gs) = asserts (fs ++ gs)
behind fs (out_of_range gs) = out_of_range (fs ++ gs)
behind fs no_return = no_return

abbrev pub then_handle : {S : Type 0} → (S → Handled S) → Handled S → Handled S
then_handle k (handled fs r) = behind fs (k r)
then_handle k (thrown fs) = thrown fs
then_handle k (asserts fs) = asserts fs
then_handle k (out_of_range fs) = out_of_range fs
then_handle k no_return = no_return

-- GetPacket for each frame of a call of recvdata: `throws` is whether the protocol's ParsePacket ends with an
-- exception, which neither recvdata nor what calls it catches.
unfoldable pub get_packets : {S : Type 0} → (Frame → Bool) → List Frame → Handled S → Handled S
get_packets throws [] h = h
get_packets throws (f ∷ fs) h =
    behind (f ∷ []) (if throws f then thrown [] else get_packets throws fs h)

abbrev pub after_recvdata :
    {S : Type 0} → (Frame → Bool) → Outcome → (PacketSync → Handled S) → Handled S
after_recvdata throws (done fs s) k = get_packets throws fs (k s)
after_recvdata throws (crashed fs) k = get_packets throws fs (out_of_range [])
after_recvdata throws stuck k = no_return

unfoldable pub alloc_buffer : Reader → Reader
alloc_buffer r = record r { buffers = r.buffers + 1 }

unfoldable pub free_buffer : Reader → Reader
free_buffer r = record r { buffers = r.buffers - 1 }

-- ClientConnS::Close
unfoldable pub close : Reader → Reader
close r = record r { closing = if r.need_tls then closing_tls else closing_handle }

-- ClientConnS::Close_tls
unfoldable pub close_tls : Reader → Reader
close_tls r = record r { closing = closing_handle }

-- AfterClientClose: what it calls is whether the TLS state is freed, and closedcb.
unfoldable pub after_client_close : Reader → Bool × Reader
after_client_close r = (r.need_tls, record r { closing = closed })

module _ (throws : Frame → Bool) where
  unfoldable pub read_header : Nread → Reader → Handled Reader
  unfolding free_buffer close recvdata get_packets
  read_header (bytes data') r =
      if r.need_tls
      then handled [] (free_buffer (record r { fed = r.fed ++ (data' ∷ []) }))
      else after_recvdata throws (recvdata r.packet data')
          (λ s. handled [] (free_buffer (record r { packet = s })))
  read_header no_bytes r = handled [] (free_buffer r)
  read_header failure r = handled [] (close r)

  -- Reads one after the other, each into a new buffer.
  unfoldable pub read_all : List Nread → Reader → Handled Reader
  unfolding alloc_buffer read_header
  read_all [] r = handled [] r
  read_all (n ∷ ns) r = then_handle (read_all ns) (read_header n (alloc_buffer r))
