-- ===== src/Server/Clients/Lifetime.antt =====
-- src/uv_net.cpp: what becomes of an accepted client's context when the client is closed.
use ocserver.Common.{
  ℕ, ◌≤◌, ◌<◌, ◌≡◌, ◌⊎◌, refl, ap, ◌∙◌, sym, subst, Bool, true, false, List, [], ◌∷◌, ◌++◌, some,
  length, ltb, ◌==◌, arith, Bool-cases, inl, inr, lt→ltb, le→not_ltb, ltb→lt, not_ltb→le,
}
use mathlib.Core.Option.{some-injective, none-ne-some}
use ocserver.Server.Writes.{backlog}
use ocserver.Server.Clients.{
  count, remove, Clients, Result, ok, use_after_free, double_free, is_live, free_tcp_client_ctx,
  take_context, find, erase, connect, on_new_connection, give_back, recycle_tcp_handle,
  delete_entry, sub_client_closed, and_then,
}
use ocserver.Server.Clients.Memory.{
  IsValid, contexts, one, count-cons, count-remove, on_new_connection-Goes, recycle_tcp_handle-Goes,
}

-- The server before the first connection.
abbrev pub no_clients : Clients
no_clients = record {
  client_list = [];
  client_map = [];
  s_id = 0;
  clientid = λ c. 0;
  live = [];
  fresh = 0;
  closing = [];
}

-- What happens while no accepted client is closed.
pub data Step (s s' : Clients) : Type 0 where
  connects :
      (status_ok init started : Bool)
      → on_new_connection status_ok init started s ≡ ok s'
      → Step s s'
  recycles : (ctx : ℕ) → 0 < count ctx s.closing → recycle_tcp_handle ctx s ≡ ok s' → Step s s'

pub data Opened : Clients → Type 0 where
  starts : Opened no_clients
  goes_on : {s s' : Clients} → Opened s → Step s s' → Opened s'

abbrev state_of : Clients → Result → Clients
state_of d (ok s) = s
state_of d use_after_free = d
state_of d double_free = d

ok_injective : {s s' : Clients} → ok s ≡ ok s' → s ≡ s'
ok_injective {s = s} e = ap (state_of s) e

Step-IsValid : (s s' : Clients) → Step s s' → IsValid s → IsValid s'
Step-IsValid s s' (connects a b c e) v =
    let (r, d, w) = on_new_connection-Goes a b c s v in subst IsValid (ok_injective (sym d ∙ e)) w
Step-IsValid s s' (recycles ctx k e) v =
    let (r, d, w) = recycle_tcp_handle-Goes ctx s v k in subst IsValid (ok_injective (sym d ∙ e)) w

-- After any sequence of connections and recycled handles, no accepted client closed, each context has at most one owner among
-- the pool, the map and the closing handles, and is allocated.
pub Opened-IsValid : (s : Clients) → Opened s → IsValid s
Opened-IsValid s starts = record {
  owned = λ c. omega arith;
  single = λ c. omega arith;
  unused = λ c h. refl;
}
Opened-IsValid s (goes_on {s = r} q e) = Step-IsValid r s e (Opened-IsValid r q)

find_here : (k i d : ℕ) (m : List (ℕ × ℕ)) → (k == i) ≡ true → find k ((i, d) ∷ m) ≡ some d
unfolding find
find_here k i d m y = rw y refl

find_later : (k i d : ℕ) (m : List (ℕ × ℕ)) → (k == i) ≡ false → find k ((i, d) ∷ m) ≡ find k m
unfolding find
find_later k i d m y = rw y refl

find-count : (k c : ℕ) (m : List (ℕ × ℕ)) → find k m ≡ some c → 0 < count c (contexts m)
unfolding find
find-count k c [] e = absurd (none-ne-some _ e)
find-count k c ((i, d) ∷ m) e = elim (Bool-cases (k == i)) [
  | inl y ↦
      let q : d ≡ c = some-injective _ _ (sym (find_here k i d m y) ∙ e) in
      let o : one c d ≡ 1 = ground arith in omega (arith, count-cons c d (contexts m))
  | inr y ↦
      omega (arith, count-cons c d (contexts m), find-count k c m (sym (find_later k i d m y) ∙ e))
]

-- The client is in the map, under its own number.
abbrev pub IsAccepted : ℕ → Clients → Type 0
IsAccepted ctx s = find (s.clientid ctx) s.client_map ≡ some ctx

pub accepted-live : (ctx : ℕ) (s : Clients) → IsValid s → IsAccepted ctx s → is_live ctx s ≡ true
accepted-live ctx s v f =
    lt→ltb 0 (count ctx s.live) (omega (arith, v.owned ctx, find-count _ ctx s.client_map f))

pub removed_dead :
    (ctx : ℕ) (s : Clients)
    → IsValid s
    → IsAccepted ctx s
    → ltb 0 (count ctx (remove ctx s.live)) ≡ false
removed_dead ctx s v f =
    let l = ltb→lt 0 (count ctx s.live) (accepted-live ctx s v f) in
    let o : one ctx ctx ≡ 1 = ground arith in
    le→not_ltb 0 (count ctx (remove ctx s.live))
      (omega (arith, v.single ctx, count-remove ctx ctx s.live l))

-- The state after a close: the context is in the pool, and freed.
abbrev pub dangling : ℕ → Clients → Clients
dangling ctx s = record s {
  client_list = s.client_list ++ (ctx ∷ []);
  live = remove ctx s.live;
  client_map = erase (s.clientid ctx) s.client_map;
}

close_finds :
    (ctx : ℕ) (s : Clients)
    → is_live ctx s ≡ true
    → IsAccepted ctx s
    → sub_client_closed ctx s ≡ delete_entry (s.clientid ctx) ctx (give_back ctx s)
unfolding sub_client_closed
close_finds ctx s l f = rw (l, f) refl

give_back_pools :
    (ctx : ℕ) (s : Clients)
    → ltb backlog (length s.client_list) ≡ false
    → give_back ctx s ≡ ok (record s { client_list = s.client_list ++ (ctx ∷ []) })
unfolding give_back
give_back_pools ctx s n = rw n refl

give_back_frees :
    (ctx : ℕ) (s : Clients)
    → ltb backlog (length s.client_list) ≡ true
    → is_live ctx s ≡ true
    → give_back ctx s ≡ ok (record s { live = remove ctx s.live })
unfolding give_back free_tcp_client_ctx
give_back_frees ctx s y l = rw (y, l) refl

delete_live :
    (k ctx : ℕ) (s : Clients)
    → is_live ctx s ≡ true
    → delete_entry k ctx (ok s)
      ≡ ok (record s { live = remove ctx s.live; client_map = erase k s.client_map })
unfolding delete_entry free_tcp_client_ctx
delete_live k ctx s l = rw (l, delete_entry) refl

delete_dead :
    (k ctx : ℕ) (s : Clients) → is_live ctx s ≡ false → delete_entry k ctx (ok s) ≡ double_free
unfolding delete_entry free_tcp_client_ctx
delete_dead k ctx s d = rw (d, delete_entry) refl

pub close_pooled :
    (ctx : ℕ) (s : Clients)
    → is_live ctx s ≡ true
    → IsAccepted ctx s
    → ltb backlog (length s.client_list) ≡ false
    → sub_client_closed ctx s ≡ ok (dangling ctx s)
close_pooled ctx s l f n =
    close_finds ctx s l f
    ∙ ap (delete_entry (s.clientid ctx) ctx) (give_back_pools ctx s n)
    ∙ delete_live (s.clientid ctx) ctx (record s { client_list = s.client_list ++ (ctx ∷ []) }) l

pub close_freed :
    (ctx : ℕ) (s : Clients)
    → is_live ctx s ≡ true
    → IsAccepted ctx s
    → ltb backlog (length s.client_list) ≡ true
    → ltb 0 (count ctx (remove ctx s.live)) ≡ false
    → sub_client_closed ctx s ≡ double_free
close_freed ctx s l f y d =
    close_finds ctx s l f
    ∙ ap (delete_entry (s.clientid ctx) ctx) (give_back_frees ctx s y l)
    ∙ delete_dead (s.clientid ctx) ctx (record s { live = remove ctx s.live }) d

-- When an accepted client is closed in a valid state, its context is freed twice if the pool holds
-- more than 256, and otherwise it is put into the pool and freed: the pool's last context dangles.
pub sub_client_closed_dangles :
    (ctx : ℕ) (s : Clients)
    → IsValid s
    → IsAccepted ctx s
    → ((backlog < length s.client_list) × (sub_client_closed ctx s ≡ double_free))
      ⊎ ((length s.client_list ≤ backlog)
          × ((s' : Clients) × (sub_client_closed ctx s ≡ ok s')
              × (s'.client_list ≡ s.client_list ++ (ctx ∷ []))
              × (is_live ctx s' ≡ false)))
sub_client_closed_dangles ctx s v f =
    let l = accepted-live ctx s v f in
    let d = removed_dead ctx s v f in
    elim (Bool-cases (ltb backlog (length s.client_list))) [
      | inl y ↦ inl (ltb→lt _ _ y, close_freed ctx s l f y d)
      | inr n ↦ inr (not_ltb→le _ _ n, (dangling ctx s, close_pooled ctx s l f n, refl, d))
    ]

connect_dead :
    (init started : Bool) (ctx : ℕ) (s : Clients)
    → is_live ctx s ≡ false
    → connect init started (ctx, s) ≡ use_after_free
unfolding connect
connect_dead init started ctx s d = rw d refl

-- If the pool was empty when an accepted client is closed in a valid state, the next connection gets the freed context
-- and accesses it, whatever libuv answers.
pub reconnect_faults :
    (init started : Bool) (ctx : ℕ) (s : Clients)
    → IsValid s
    → IsAccepted ctx s
    → s.client_list ≡ []
    → and_then (sub_client_closed ctx s) (on_new_connection true init started) ≡ use_after_free
unfolding on_new_connection
reconnect_faults init started ctx s v f e =
    let n = le→not_ltb backlog (length s.client_list) (omega (arith, ap length e)) in
    ap (λ r. and_then r (on_new_connection true init started))
      (close_pooled ctx s (accepted-live ctx s v f) f n)
    ∙ ap (λ cs. connect init started (take_context (cs ++ (ctx ∷ [])) (dangling ctx s))) e
    ∙ connect_dead init started ctx (record (dangling ctx s) { client_list = [] })
        (removed_dead ctx s v f)
