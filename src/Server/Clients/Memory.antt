-- ===== src/Server/Clients/Memory.antt =====
-- src/uv_net.cpp: connections that open and handles that are recycled own each context at most once.
use ocserver.Common.{
  ℕ, ◌+◌, ◌≤◌, ◌<◌, ◌≡◌, refl, ap, sym, subst, Bool, true, false, List, [], ◌∷◌, ◌++◌, none, some,
  length, ltb, ◌==◌, if◌then◌else◌, arith, Bool-cases, Option-cases, inl, inr, lt→ltb,
}
use ocserver.Server.Writes.{backlog}
use ocserver.Server.Clients.{
  count, remove, Clients, Result, ok, is_live, free_tcp_client_ctx, take_context, find, insert,
  number_client, register, connect, on_new_connection, give_back, recycle_tcp_handle,
}

abbrev pub one : ℕ → ℕ → ℕ
one c x = if c == x then 1 else 0

pub count-cons : (c x : ℕ) (xs : List ℕ) → count c (x ∷ xs) ≡ one c x + count c xs
count-cons c x xs = ground arith

count-append : (c : ℕ) (xs ys : List ℕ) → count c (xs ++ ys) ≡ count c xs + count c ys
count-append c [] ys = omega arith
count-append c (x ∷ xs) ys =
    omega (arith, count-cons c x (xs ++ ys), count-cons c x xs, count-append c xs ys)

pub count-append_one : (c x : ℕ) (xs : List ℕ) → count c (xs ++ (x ∷ [])) ≡ count c xs + one c x
count-append_one c x xs = omega (arith, count-append c xs (x ∷ []), count-cons c x [])

one_self : (c : ℕ) → one c c ≡ 1
one_self c = ground arith

-- A context that is in the list is removed once, and no other.
pub count-remove :
    (c x : ℕ) (xs : List ℕ) → 0 < count x xs → count c (remove x xs) + one c x ≡ count c xs
count-remove c x [] h = absurd (omega arith)
count-remove c x (y ∷ xs) h = elim (Bool-cases (x == y)) [
  | inl e ↦ rw e (ground arith)
  | inr e ↦
      let h' : 0 < count x xs = ground arith in
      rw e (omega (arith, count-cons c y (remove x xs), count-cons c y xs, count-remove c x xs h'))
]

-- The contexts of the accepted clients.
abbrev pub contexts : List (ℕ × ℕ) → List ℕ
contexts [] = []
contexts ((k, c) ∷ m) = c ∷ contexts m

abbrev pub owners : ℕ → Clients → ℕ
owners c s = count c s.client_list + count c s.closing + count c (contexts s.client_map)

-- Each context has at most one owner, and that one's context is allocated.
pub record IsValid (s : Clients) : Type 0 where
  pub owned : (c : ℕ) → owners c s ≤ count c s.live
  pub single : (c : ℕ) → count c s.live ≤ 1
  pub unused : (c : ℕ) → s.fresh ≤ c → count c s.live ≡ 0

-- The same, with `ctx` in hand and in no list.
pub record HasSpare (ctx : ℕ) (s : Clients) : Type 0 where
  pub spare : (c : ℕ) → owners c s + one c ctx ≤ count c s.live
  pub single : (c : ℕ) → count c s.live ≤ 1
  pub unused : (c : ℕ) → s.fresh ≤ c → count c s.live ≡ 0

pub HasSpare-live : (ctx : ℕ) (s : Clients) → HasSpare ctx s → is_live ctx s ≡ true
HasSpare-live ctx s h = lt→ltb 0 (count ctx s.live) (omega (arith, h.spare ctx, one_self ctx))

take_context-HasSpare :
    (cs : List ℕ) (s : Clients)
    → s.client_list ≡ cs
    → IsValid s
    → HasSpare ((take_context cs s).0) ((take_context cs s).1)
unfolding take_context
take_context-HasSpare [] s e v = record {
  spare = λ c. omega (arith, v.owned c, count-cons c s.fresh s.live);
  single = λ c. elim (Bool-cases (c == s.fresh)) [
    | inl y ↦ let z : s.fresh ≤ c = ground arith in rw y (omega (arith, v.unused c z))
    | inr y ↦ rw y (v.single c)
  ];
  unused = λ c h.
      let z : one c s.fresh ≡ 0 = ground arith in
      omega (arith, count-cons c s.fresh s.live, v.unused c (omega arith));
}
take_context-HasSpare (x ∷ cs) s e v = record {
  spare = λ c. omega (arith, v.owned c, ap (count c) e, count-cons c x cs);
  single = v.single;
  unused = v.unused;
}

insert_absent : (k x : ℕ) (m : List (ℕ × ℕ)) → find k m ≡ none → insert k x m ≡ (k, x) ∷ m
unfolding insert
insert_absent k x m e = rw (e, insert) refl

insert_present : (k x d : ℕ) (m : List (ℕ × ℕ)) → find k m ≡ some d → insert k x m ≡ m
unfolding insert
insert_present k x d m e = rw (e, insert) refl

insert-contexts :
    (k x c : ℕ) (m : List (ℕ × ℕ))
    → count c (contexts (insert k x m)) ≤ count c (contexts m) + one c x
insert-contexts k x c m = elim (Option-cases (find k m)) [
  | inl e ↦
      omega
        (arith, ap (λ l. count c (contexts l)) (insert_absent k x m e), count-cons c x (contexts m))
  | inr (d, e) ↦ omega (arith, ap (λ l. count c (contexts l)) (insert_present k x d m e))
]

-- The state that an operation returns, and that it is valid.
abbrev pub Goes : Result → Type 0
Goes r = (s : Clients) × (r ≡ ok s) × IsValid s

pooled-IsValid :
    (ctx : ℕ) (s : Clients)
    → HasSpare ctx s
    → IsValid (record s { client_list = s.client_list ++ (ctx ∷ []) })
pooled-IsValid ctx s h = record {
  owned = λ c. omega (arith, h.spare c, count-append_one c ctx s.client_list);
  single = h.single;
  unused = h.unused;
}

register-IsValid :
    (started : Bool) (ctx : ℕ) (s : Clients)
    → HasSpare ctx s
    → IsValid (register started ctx (number_client ctx s))
unfolding register number_client
register-IsValid true ctx s h = record {
  owned = λ c. omega (arith, h.spare c, insert-contexts _ ctx c s.client_map);
  single = h.single;
  unused = h.unused;
}
register-IsValid false ctx s h = record {
  owned = λ c. omega (arith, h.spare c, count-cons c ctx s.closing);
  single = h.single;
  unused = h.unused;
}

connect-Goes :
    (init started : Bool) (ctx : ℕ) (s : Clients)
    → HasSpare ctx s
    → Goes (connect init started (ctx, s))
unfolding connect
connect-Goes true started ctx s h =
    (_, rw (HasSpare-live ctx s h) refl, register-IsValid started ctx s h)
connect-Goes false started ctx s h = (_, rw (HasSpare-live ctx s h) refl, pooled-IsValid ctx s h)

-- A new connection in a valid state, whatever libuv answers, accesses no freed context and leads to a
-- valid state.
pub on_new_connection-Goes :
    (status_ok init started : Bool) (s : Clients)
    → IsValid s
    → Goes (on_new_connection status_ok init started s)
unfolding on_new_connection
on_new_connection-Goes true init started s v =
    connect-Goes init started _ _ (take_context-HasSpare s.client_list s refl v)
on_new_connection-Goes false init started s v = (s, refl, v)

freed-IsValid :
    (ctx : ℕ) (s : Clients) → HasSpare ctx s → IsValid (record s { live = remove ctx s.live })
freed-IsValid ctx s h =
    let l : 0 < count ctx s.live = omega (arith, h.spare ctx, one_self ctx) in
    record {
      owned = λ c. omega (arith, h.spare c, count-remove c ctx s.live l);
      single = λ c. omega (arith, h.single c, count-remove c ctx s.live l);
      unused = λ c k. omega (arith, h.unused c k, count-remove c ctx s.live l);
    }

give_back-Goes : (ctx : ℕ) (s : Clients) → HasSpare ctx s → Goes (give_back ctx s)
unfolding give_back free_tcp_client_ctx
give_back-Goes ctx s h = elim (Bool-cases (ltb backlog (length s.client_list))) [
  | inl y ↦ (_, rw (y, HasSpare-live ctx s h) refl, freed-IsValid ctx s h)
  | inr n ↦ (_, rw n refl, pooled-IsValid ctx s h)
]

recycle_live :
    (ctx : ℕ) (s : Clients)
    → is_live ctx s ≡ true
    → recycle_tcp_handle ctx s ≡ give_back ctx (record s { closing = remove ctx s.closing })
unfolding recycle_tcp_handle
recycle_live ctx s e = rw e refl

-- In a valid state the callback of a handle that is being closed accesses and frees only an allocated
-- context, and leads to a valid state.
pub recycle_tcp_handle-Goes :
    (ctx : ℕ) (s : Clients) → IsValid s → 0 < count ctx s.closing → Goes (recycle_tcp_handle ctx s)
recycle_tcp_handle-Goes ctx s v k =
    let h : HasSpare ctx (record s { closing = remove ctx s.closing }) = record {
      spare = λ c. omega (arith, v.owned c, count-remove c ctx s.closing k);
      single = v.single;
      unused = v.unused;
    } in
    subst Goes (sym (recycle_live ctx s (lt→ltb 0 (count ctx s.live) (omega (arith, v.owned ctx)))))
      (give_back-Goes ctx _ h)
