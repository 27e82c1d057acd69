-- ===== src/Server/Clients.antt =====
-- src/uv_net.cpp: the contexts of the clients, from uvnet::on_new_connection to uvnet::SubClientClosed.
-- A context is the address of a `ClientConnS`; an address that was freed is not given out again.
-- What libuv answers is an argument of each operation.
pub mod Memory
pub mod Lifetime
mod Destruction
mod Tests
use ocserver.Common.{
  ℕ, zero, suc, ◌+◌, ◌%◌, ◌^◌, Bool, true, false, List, [], ◌∷◌, ◌++◌, Option, none, some, length,
  ltb, ◌==◌, if◌then◌else◌,
}
use ocserver.Server.Writes.{backlog}

-- How often an address is in a list.
abbrev pub count : ℕ → List ℕ → ℕ
count c [] = 0
count c (x ∷ xs) = if c == x then suc (count c xs) else count c xs

abbrev pub remove : ℕ → List ℕ → List ℕ
remove c [] = []
remove c (x ∷ xs) = if c == x then xs else x ∷ remove c xs

-- `client_list`, `client_map`, the counter of GetAvailaClientID, each context's `clientid`, the
-- contexts that are allocated, the next address, and the contexts whose handle is being closed with
-- RecycleTcpHandle as its callback.
pub record Clients : Type 0 where
  pub client_list : List ℕ
  pub client_map : List (ℕ × ℕ)
  pub s_id : ℕ
  pub clientid : ℕ → ℕ
  pub live : List ℕ
  pub fresh : ℕ
  pub closing : List ℕ

-- What an operation leads to: a state, an access to a context that was freed, or a second free of it.
pub data Result : Type 0 where
  ok : Clients → Result
  use_after_free double_free : Result

abbrev pub is_live : ℕ → Clients → Bool
is_live ctx s = ltb 0 (count ctx s.live)

-- FreeTcpClientCtx, and `delete`.
unfoldable pub free_tcp_client_ctx : ℕ → Clients → Result
free_tcp_client_ctx ctx s =
    if is_live ctx s then ok (record s { live = remove ctx s.live }) else double_free

-- A context from the pool, or a new one from AllocTcpClientCtx.
unfoldable pub take_context : List ℕ → Clients → ℕ × Clients
take_context [] s = (s.fresh, record s { live = s.fresh ∷ s.live; fresh = s.fresh + 1 })
take_context (c ∷ cs) s = (c, record s { client_list = cs })

unfoldable pub find : ℕ → List (ℕ × ℕ) → Option ℕ
find k [] = none
find k ((i, c) ∷ m) = if k == i then some c else find k m

unfoldable pub erase : ℕ → List (ℕ × ℕ) → List (ℕ × ℕ)
erase k [] = []
erase k ((i, c) ∷ m) = if k == i then m else (i, c) ∷ erase k m

-- `std::unordered_map::insert`: a key that is there keeps its value.
unfoldable pub insert : ℕ → ℕ → List (ℕ × ℕ) → List (ℕ × ℕ)
unfolding find
insert k c m = elim (find k m) [ none ↦ (k, c) ∷ m | some d ↦ m ]

-- GetAvailaClientID, the counter taken modulo 2 ^ 32.
unfoldable pub number_client : ℕ → Clients → Clients
number_client ctx s =
    let id : ℕ = (s.s_id + 1) % 2 ^ 32 in
    record s { s_id = id; clientid = λ c. if c == ctx then id else s.clientid c }

-- The handle is accepted and reading, or closed again.
unfoldable pub register : Bool → ℕ → Clients → Clients
unfolding insert
register started ctx s =
    if started
    then record s { client_map = insert (s.clientid ctx) ctx s.client_map }
    else record s { closing = ctx ∷ s.closing }

-- From `uv_tcp_init` on; `init` is whether it succeeds, `started` whether `uv_accept` and
-- `uv_read_start` both do.
unfoldable pub connect : Bool → Bool → ℕ × Clients → Result
unfolding register number_client
connect init started (ctx, s) =
    if is_live ctx s
    then (if init
        then ok (register started ctx (number_client ctx s))
        else ok (record s { client_list = s.client_list ++ (ctx ∷ []) }))
    else use_after_free

unfoldable pub on_new_connection : Bool → Bool → Bool → Clients → Result
unfolding connect take_context
on_new_connection status_ok init started s =
    if status_ok then connect init started (take_context s.client_list s) else ok s

-- Into the pool, or freed if that holds more than `backlog`.
unfoldable pub give_back : ℕ → Clients → Result
unfolding free_tcp_client_ctx
give_back ctx s =
    if ltb backlog (length s.client_list)
    then free_tcp_client_ctx ctx s
    else ok (record s { client_list = s.client_list ++ (ctx ∷ []) })

-- RecycleTcpHandle, as the callback of a `uv_close`.
unfoldable pub recycle_tcp_handle : ℕ → Clients → Result
unfolding give_back
recycle_tcp_handle ctx s =
    if is_live ctx s
    then give_back ctx (record s { closing = remove ctx s.closing })
    else use_after_free

-- `delete itfind->second` and the erasure of the entry.
unfoldable pub delete_entry : ℕ → ℕ → Result → Result
unfolding free_tcp_client_ctx erase
delete_entry key found (ok s) = elim (free_tcp_client_ctx found s) [
  | ok s' ↦ ok (record s' { client_map = erase key s'.client_map })
  | use_after_free ↦ use_after_free
  | double_free ↦ double_free
]
delete_entry key found use_after_free = use_after_free
delete_entry key found double_free = double_free

-- SubClientClosed, as AfterClientClose calls it.
unfoldable pub sub_client_closed : ℕ → Clients → Result
sub_client_closed ctx s =
    if is_live ctx s
    then elim (find (s.clientid ctx) s.client_map) [
      | none ↦ ok s
      | some found ↦ delete_entry (s.clientid ctx) found (give_back ctx s)
    ]
    else use_after_free

abbrev pub and_then : Result → (Clients → Result) → Result
and_then (ok s) k = k s
and_then use_after_free k = use_after_free
and_then double_free k = double_free

-- The part of the destructor that frees the contexts of `client_list`, in order.
unfoldable pub free_contexts : List ℕ → Clients → Result
unfolding free_tcp_client_ctx
free_contexts [] s = ok s
free_contexts (c ∷ cs) s = and_then (free_tcp_client_ctx c s) (free_contexts cs)

unfoldable pub destroy : Clients → Result
unfolding free_contexts
destroy s = and_then (free_contexts s.client_list s) (λ s'. ok (record s' { client_list = [] }))

-- getClientByID: none is the null pointer.
unfoldable pub get_client_by_id : ℕ → Clients → Option ℕ
unfolding find
get_client_by_id cid s = find cid s.client_map
