-- ===== src/Server/Ending/Laws.antt =====
-- src/uv_net.cpp: what the end of StartThread leaves.
use ocserver.Common.{
  ℕ, ◌≡◌, refl, ap, ◌∙◌, sym, subst, Bool, true, false, List, [], ◌∷◌, none, some, ◌==◌, ==_self,
  if◌then◌else◌, codes, arith, All, Bool-cases, inl, inr,
}
use ocserver.Log.{Log, d_info, d_network}
use ocserver.Config.{ok}
use ocserver.Config.Steps.{ran, report-ok}
use ocserver.Server.Ending.{
  Loop, is_closing, uv_close, close_walk_cb, close_walk, close_handle, with_message, close,
  close_clients, close_server, after_walk,
}

abbrev pub IsApart : ℕ → List (ℕ × ℕ) → Type 0
IsApart c [] = Unit
IsApart c ((cid, ctx) ∷ m) = ((ctx == c) ≡ false) × IsApart c m

-- No client of the map is being closed, and none is there twice.
abbrev pub AreOpen : List (ℕ × ℕ) → Loop → Type 0
AreOpen [] s = Unit
AreOpen ((cid, ctx) ∷ m) s = (is_closing ctx s ≡ false) × IsApart ctx m × AreOpen m s

-- One of them is being closed, and the others still are not.
AreOpen-cons :
    (c : ℕ) (m : List (ℕ × ℕ)) (s : Loop)
    → IsApart c m
    → AreOpen m s
    → AreOpen m (record s { closing = c ∷ s.closing })
AreOpen-cons c [] s a o = tt
AreOpen-cons c ((cid, ctx) ∷ m) s (n, a) (e, b, o) = (rw n e, b, AreOpen-cons c m s a o)

locks : (m : List (ℕ × ℕ)) (s : Loop) → AreOpen m s → AreOpen m (record s { locked = true })
locks [] s o = tt
locks ((cid, ctx) ∷ m) s (e, a, o) = (e, a, locks m s o)

-- What was closing still is.
abbrev Grows : Loop → Loop → Type 0
Grows s s' = (h : ℕ) → is_closing h s ≡ true → is_closing h s' ≡ true

Grows-cons : (c : ℕ) (s : Loop) → Grows s (record s { closing = c ∷ s.closing })
Grows-cons c s h e = ground arith

AllClosing-Grows :
    (hs : List ℕ) (s s' : Loop)
    → Grows s s'
    → All (λ h. is_closing h s ≡ true) hs
    → All (λ h. is_closing h s' ≡ true) hs
AllClosing-Grows [] s s' g a = tt
AllClosing-Grows (h ∷ hs) s s' g (e, a) = (g h e, AllClosing-Grows hs s s' g a)

is_closing-cons : (c : ℕ) (s : Loop) → is_closing c (record s { closing = c ∷ s.closing }) ≡ true
is_closing-cons c s = ground (arith, ==_self c)

-- What a handle's turn of the walk leaves.
abbrev walked : ℕ → Loop → Loop
walked h s = if is_closing h s then s else record s { closing = h ∷ s.closing }

walked-is_closing : (h : ℕ) (s : Loop) → is_closing h (walked h s) ≡ true
walked-is_closing h s = elim (Bool-cases (is_closing h s)) [
  | inl y ↦
      subst (λ b. is_closing h (if b then s else record s { closing = h ∷ s.closing }) ≡ true)
        (sym y) y
  | inr n ↦
      subst (λ b. is_closing h (if b then s else record s { closing = h ∷ s.closing }) ≡ true)
        (sym n) (is_closing-cons h s)
]

walked-Grows : (h : ℕ) (s : Loop) → Grows s (walked h s)
walked-Grows h s k e = elim (Bool-cases (is_closing h s)) [
  | inl y ↦
      subst (λ b. is_closing k (if b then s else record s { closing = h ∷ s.closing }) ≡ true)
        (sym y) e
  | inr n ↦
      subst (λ b. is_closing k (if b then s else record s { closing = h ∷ s.closing }) ≡ true)
        (sym n) (Grows-cons h s k e)
]

walked-locked : (h : ℕ) (s : Loop) → (walked h s).locked ≡ s.locked
walked-locked h s = ground arith

-- The assertion of uv_close holds on each turn.
close_walk_cb-walked : (h : ℕ) (s : Loop) → close_walk_cb h s ≡ some (walked h s)
unfolding close_walk_cb uv_close
close_walk_cb-walked h s = elim (Bool-cases (is_closing h s)) [
  | inl y ↦ rw y refl
  | inr n ↦ rw n refl
]

-- The walk ends, with all its handles being closed.
record Walked (hs : List ℕ) (s : Loop) : Type 0 where
  after : Loop
  ends : close_walk hs s ≡ some after
  grows : Grows s after
  all_closing : All (λ h. is_closing h after ≡ true) hs
  locked_eq : after.locked ≡ s.locked

close_walk-Walked : (hs : List ℕ) (s : Loop) → Walked hs s
unfolding close_walk
close_walk-Walked [] s = record {
  after = s;
  ends = refl;
  grows = λ h e. e;
  all_closing = tt;
  locked_eq = refl;
}
close_walk-Walked (h ∷ hs) s =
    let w = close_walk-Walked hs (walked h s) in
    record {
      after = w.after;
      ends =
          ap (λ o. elim o [ none ↦ none | some s' ↦ close_walk hs s' ]) (close_walk_cb-walked h s)
          ∙ w.ends;
      grows = λ k e. w.grows k (walked-Grows h s k e);
      all_closing = (w.grows h (walked-is_closing h s), w.all_closing);
      locked_eq = w.locked_eq ∙ walked-locked h s;
    }

module _ (now : List ℕ) (frames : List (List ℕ)) (need_tls calls_back : ℕ → Bool) where
  uv_close-open :
      (c : ℕ) (s : Loop)
      → is_closing c s ≡ false
      → uv_close c s ≡ some (record s { closing = c ∷ s.closing })
  unfolding uv_close
  uv_close-open c s e = ap (λ b. if b then none else some (record s { closing = c ∷ s.closing })) e

  close_handle-open :
      (c : ℕ) (m : List (ℕ × ℕ)) (s : Loop)
      → is_closing c s ≡ false
      → IsApart c m
      → AreOpen m s
      → (s' : Loop) × (close_handle now frames need_tls calls_back c s ≡ some s')
        × (s'.handles ≡ s.handles)
        × (s'.locked ≡ s.locked)
        × AreOpen m s'
  unfolding close_handle
  close_handle-open c m s e a o =
      let f = λ (t b : Bool). if t then (if b then uv_close c s else some s) else uv_close c s in
      let next = record s { closing = c ∷ s.closing } in
      let closed = uv_close-open c s e in
      let open' = AreOpen-cons c m s a o in
      elim (Bool-cases (need_tls c)) [
        | inr n ↦ (next, ap (λ t. f t (calls_back c)) n ∙ closed, refl, refl, open')
        | inl y ↦ elim (Bool-cases (calls_back c)) [
          | inl b ↦ (
            next,
            ap (λ t. f t (calls_back c)) y ∙ ap (λ t. f true t) b ∙ closed,
            refl,
            refl,
            open',
          )
          | inr b ↦ (s, ap (λ t. f t (calls_back c)) y ∙ ap (λ t. f true t) b, refl, refl, o)
        ]
      ]

  close-open :
      (c : ℕ) (m : List (ℕ × ℕ)) (s : Loop) (log : Log)
      → is_closing c s ≡ false
      → IsApart c m
      → AreOpen m s
      → (s' : Loop) × (log' : Log) × (close now frames need_tls calls_back c s log
          ≡ ok (some s') log')
        × (s'.handles ≡ s.handles)
        × (s'.locked ≡ s.locked)
        × AreOpen m s'
  unfolding close
  close-open c m s log e a o =
      let (s', h, k, l, p) = close_handle-open c m s e a o in
      let (log', q) = report-ok now frames d_info d_network (codes "client close" ∷ []) log refl in
      (
        s',
        log',
        ap (λ r. with_message now frames need_tls calls_back r log) h ∙ ran _ _ _ _ _ q refl,
        k,
        l,
        p,
      )

  close_clients-open :
      (m : List (ℕ × ℕ)) (s : Loop) (log : Log)
      → AreOpen m s
      → (s' : Loop) × (log' : Log) × (close_clients now frames need_tls calls_back m s log
          ≡ ok (some s') log')
        × (s'.handles ≡ s.handles)
        × (s'.locked ≡ s.locked)
  unfolding close_clients
  close_clients-open [] s log o = (s, log, refl, refl, refl)
  close_clients-open ((cid, c) ∷ m) s log (e, a, o) =
      let (s', log', h, k, l, p) = close-open c m s log e a o in
      let (t, log2, h2, k2, l2) = close_clients-open m s' log' p in
      (t, log2, ran _ _ _ _ _ h h2, k2 ∙ k, l2 ∙ l)

  -- Behind run_loop StartThread closes the clients of the map and then walks over the handles: no
  -- assertion of uv_close fails, and it ends with every handle of the loop being closed, `if_exit` set and
  -- the mutex locked, with TLS or without, whenever evt_tls_close calls back. Condition: no client of the map is being closed already or is there twice.
  pub close_server_closes :
      (client_map : List (ℕ × ℕ)) (s : Loop) (log : Log)
      → AreOpen client_map s
      → (s' : Loop) × (log' : Log) × (close_server now frames need_tls calls_back client_map s log
          ≡ ok (some s') log')
        × All (λ h. is_closing h s' ≡ true) s.handles
        × (s'.if_exit ≡ true)
        × (s'.locked ≡ true)
  unfolding close_server
  close_server_closes client_map s log o =
      let (t, log1, h, k, l) =
        close_clients-open client_map (record s { locked = true }) log (locks client_map s o) in
      let (log2, q) =
        report-ok now frames d_info d_network (codes "Server is closed." ∷ []) log1 refl in
      let w = close_walk-Walked t.handles t in
      (
        record w.after { if_exit = true },
        log2,
        ran _ _ _ _ _ h (
            ap (λ o. after_walk now frames need_tls calls_back o log1) w.ends
            ∙ ran _ _ _ _ _ q refl),
        subst (λ hs. All (λ h. is_closing h w.after ≡ true) hs) k w.all_closing,
        refl,
        w.locked_eq ∙ l,
      )
