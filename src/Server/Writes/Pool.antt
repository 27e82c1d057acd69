-- ===== src/Server/Writes/Pool.antt =====
-- src/uv_net.cpp: every sequence of sends and completions keeps the pool of write requests sound.
use ocserver.Common.{
  ℕ, zero, suc, ◌+◌, ◌≤◌, ◌<◌, ◌≡◌, refl, ap, ◌∙◌, sym, subst, Bool, true, false, List, [], ◌∷◌,
  ◌++◌, none, some, length, All, ltb, arith, length-append, Bool-cases, Option-cases, inl, inr,
  not_ltb→le, le→not_ltb,
}
use mathlib.Core.Option.{some-injective, none-ne-some}
use ocserver.Server.Writes.{
  WriteParam, Writes, backlog, no_writes, Sending, sent, overflow, acquire, grow, fill, submit,
  send_with, sendinl, recycle, picked, after_send, alloc_write_param,
}

-- `buf.len` bytes of the buffer are written, and they lie in the allocation.
pub record IsSized (w : WriteParam) : Type 0 where
  pub in_allocation : w.len ≤ w.allocated

-- The requests are sized; the pool holds at most one more than `backlog`; and each request that was
-- allocated is in the pool, with libuv, or freed.
pub record IsValid (s : Writes) : Type 0 where
  pub pool_sized : All IsSized s.pool
  pub taken_sized : All IsSized s.taken
  pub bounded : length s.pool ≤ suc backlog
  pub counted : length s.pool + length s.taken + s.frees ≡ s.allocations

All-append_one :
    (ws : List WriteParam) (w : WriteParam)
    → All IsSized ws
    → IsSized w
    → All IsSized (ws ++ (w ∷ []))
All-append_one [] w a b = (b, tt)
All-append_one (v ∷ ws) w (c, a) b = (c, All-append_one ws w a b)

-- What `sendinl` leads to: no overflow, a valid state, and if libuv takes the request, the data as the
-- last one that it has.
abbrev pub Sends : Writes → List ℕ → ℕ → Bool → Sending → Type 0
Sends s senddata client accepts overflow = ⊥
Sends s senddata client false (sent b s') = IsValid s' × (b ≡ false) × (s'.taken ≡ s.taken)
Sends s senddata client true (sent b s') =
    IsValid s'
    × (b ≡ true)
    × ((w : WriteParam) × (s'.taken ≡ s.taken ++ (w ∷ []))
        × (w.bytes ≡ senddata)
        × (w.len ≡ length senddata)
        × (w.client ≡ client))

-- A request taken out of the pool, or a new one, and what is left.
record IsAcquired (s : Writes) (w : WriteParam) (s' : Writes) : Type 0 where
  sized : IsSized w
  pool_sized : All IsSized s'.pool
  taken_eq : s'.taken ≡ s.taken
  bounded : length s'.pool < suc backlog
  counted : length s'.pool + length s'.taken + s'.frees + 1 ≡ s'.allocations

acquire-IsAcquired :
    (ws : List WriteParam) (s : Writes)
    → s.pool ≡ ws
    → IsValid s
    → IsAcquired s ((acquire ws s).0) ((acquire ws s).1)
unfolding acquire alloc_write_param
acquire-IsAcquired [] s e v = record {
  sized = record { in_allocation = omega arith };
  pool_sized = v.pool_sized;
  taken_eq = refl;
  bounded = omega (arith, ap length e);
  counted = omega (arith, ap length e, v.counted);
}
acquire-IsAcquired (w ∷ ws) s e v =
    let (a, b) = subst (All IsSized) e v.pool_sized in
    record {
      sized = a;
      pool_sized = b;
      taken_eq = refl;
      bounded = omega (arith, ap length e, v.bounded);
      counted = omega (arith, ap length e, v.counted);
    }

grow_allocated : (w : WriteParam) (n : ℕ) → IsSized w → n ≤ (grow w n).allocated
unfolding grow
grow_allocated w n a = elim (Bool-cases (ltb w.len n)) [
  | inl y ↦ rw y (omega arith)
  | inr y ↦ rw y (omega (arith, a.in_allocation, not_ltb→le _ _ y))
]

fill-IsSized :
    (w : WriteParam) (senddata : List ℕ) (client : ℕ)
    → length senddata ≤ w.allocated
    → IsSized (fill w senddata client)
unfolding fill
fill-IsSized w senddata client h = record { in_allocation = h }

submit-Sends :
    (accepts : Bool) (w : WriteParam) (s s' : Writes) (senddata : List ℕ) (client : ℕ)
    → All IsSized s'.pool
    → All IsSized s'.taken
    → s'.taken ≡ s.taken
    → length s'.pool < suc backlog
    → length s'.pool + length s'.taken + s'.frees + 1 ≡ s'.allocations
    → length senddata ≤ w.allocated
    → Sends s senddata client accepts (submit accepts w s' senddata client)
unfolding submit fill
submit-Sends true w s s' senddata client a b e h c l =
    let f = fill w senddata client in
    rw (le→not_ltb w.allocated (length senddata) l) (
      record {
        pool_sized = a;
        taken_sized = All-append_one s'.taken f b (fill-IsSized w senddata client l);
        bounded = omega arith;
        counted = omega (arith, length-append s'.taken (f ∷ []));
      },
      refl,
      (f, ap (λ ws. ws ++ (f ∷ [])) e, refl, refl, refl),
    )
submit-Sends false w s s' senddata client a b e h c l =
    let f = fill w senddata client in
    rw (le→not_ltb w.allocated (length senddata) l) (
      record {
        pool_sized = All-append_one s'.pool f a (fill-IsSized w senddata client l);
        taken_sized = b;
        bounded = omega (arith, length-append s'.pool (f ∷ []));
        counted = omega (arith, length-append s'.pool (f ∷ []));
      },
      refl,
      e,
    )

-- `sendinl` of some data in a valid state writes inside its buffer and leaves a valid state. If libuv
-- takes the request it returns true, and the request is the last one that libuv has, with exactly
-- the data for this client; otherwise it returns false and libuv has the same requests as before.
pub sendinl-Sends :
    (accepts : Bool) (s : Writes) (b : ℕ) (bs : List ℕ) (client : ℕ)
    → IsValid s
    → Sends s (b ∷ bs) client accepts (sendinl accepts s (b ∷ bs) client)
unfolding sendinl send_with
sendinl-Sends accepts s b bs client v =
    let q = acquire-IsAcquired s.pool s refl v in
    submit-Sends accepts (grow (acquire s.pool s).0 (length (b ∷ bs))) s (acquire s.pool s).1
      (b ∷ bs) client q.pool_sized (subst (All IsSized) (sym q.taken_eq) v.taken_sized) q.taken_eq
      q.bounded q.counted (grow_allocated (acquire s.pool s).0 (length (b ∷ bs)) q.sized)

picked_later :
    (i : ℕ) (v w : WriteParam) (ws rest : List WriteParam)
    → picked i ws ≡ some (w, rest)
    → picked (suc i) (v ∷ ws) ≡ some (w, v ∷ rest)
picked_later i v w ws rest e = rw e refl

picked_nowhere :
    (i : ℕ) (v : WriteParam) (ws : List WriteParam)
    → picked i ws ≡ none
    → picked (suc i) (v ∷ ws) ≡ none
picked_nowhere i v ws e = rw e refl

-- The request that completes, and the others.
picked-All :
    (i : ℕ) (ws : List WriteParam) (w : WriteParam) (rest : List WriteParam)
    → All IsSized ws
    → picked i ws ≡ some (w, rest)
    → IsSized w × All IsSized rest × (length ws ≡ suc (length rest))
picked-All i [] w rest a e = absurd (none-ne-some _ e)
picked-All zero (v ∷ ws) w rest (b, a) e =
    let q = some-injective _ _ e in
    (
      subst IsSized (ap (λ z. z.0) q) b,
      subst (All IsSized) (ap (λ z. z.1) q) a,
      omega (arith, ap (λ z. length z.1) q),
    )
picked-All (suc i) (v ∷ ws) w rest (b, a) e = elim (Option-cases (picked i ws)) [
  | inl n ↦ absurd (none-ne-some _ (sym (picked_nowhere i v ws n) ∙ e))
  | inr ((x, ys), n) ↦
      let q = some-injective _ _ (sym (picked_later i v x ws ys n) ∙ e) in
      let (c, d, l) = picked-All i ws x ys a n in
      (
        subst IsSized (ap (λ z. z.0) q) c,
        subst (All IsSized) (ap (λ z. z.1) q) (b, d),
        omega (arith, l, ap (λ z. length z.1) q),
      )
]

recycle-IsValid :
    (w : WriteParam) (s : Writes)
    → IsSized w
    → All IsSized s.pool
    → All IsSized s.taken
    → length s.pool ≤ suc backlog
    → length s.pool + length s.taken + s.frees + 1 ≡ s.allocations
    → IsValid (recycle w s)
unfolding recycle
recycle-IsValid w s a b c d e = elim (Bool-cases (ltb backlog (length s.pool))) [
  | inl y ↦ rw y (record { pool_sized = b; taken_sized = c; bounded = d; counted = omega arith })
  | inr n ↦ rw n (record {
    pool_sized = All-append_one s.pool w b a;
    taken_sized = c;
    bounded = omega (arith, not_ltb→le _ _ n, length-append s.pool (w ∷ []));
    counted = omega (arith, length-append s.pool (w ∷ []));
  })
]

-- A completion, whichever request it is of, leaves a valid state.
pub after_send-IsValid : (i : ℕ) (s s' : Writes) → IsValid s → after_send i s ≡ some s' → IsValid s'
unfolding after_send
after_send-IsValid i s s' v e = elim (Option-cases (picked i s.taken)) [
  | inl n ↦ absurd (none-ne-some _ (sym (rw (n, after_send) refl) ∙ e))
  | inr ((w, rest), n) ↦
      let (a, b, l) = picked-All i s.taken w rest v.taken_sized n in
      subst IsValid (some-injective _ _ (sym (rw (n, after_send) refl) ∙ e)) (
        recycle-IsValid w (record s { taken = rest }) a v.pool_sized b v.bounded
          (omega (arith, l, v.counted)))
]

-- What happens to the requests: a call of `sendinl` with libuv's answer, or a completion.
pub data Step (s s' : Writes) : Type 0 where
  sends :
      (accepts result : Bool) (senddata : List ℕ) (client : ℕ)
      → sendinl accepts s senddata client ≡ sent result s'
      → Step s s'
  completes : (i : ℕ) → after_send i s ≡ some s' → Step s s'

-- The states that any sequence of steps from the start leads to.
pub data Reachable : Writes → Type 0 where
  starts : Reachable no_writes
  goes_on : {s s' : Writes} → Reachable s → Step s s' → Reachable s'

abbrev sent_state : Sending → Writes → Writes
sent_state (sent b s) d = s
sent_state overflow d = d

Sends-IsValid :
    (accepts b : Bool) (s s' : Writes) (senddata : List ℕ) (client : ℕ)
    → Sends s senddata client accepts (sent b s')
    → IsValid s'
Sends-IsValid true b s s' senddata client (v, _, _) = v
Sends-IsValid false b s s' senddata client (v, _, _) = v

sent_injective : {a b : Bool} {s s' : Writes} → sent a s ≡ sent b s' → s ≡ s'
sent_injective {s = s} e = ap (λ x. sent_state x s) e

Step-IsValid : (s s' : Writes) → Step s s' → IsValid s → IsValid s'
unfolding sendinl
Step-IsValid s s' (sends accepts result [] client e) v = subst IsValid (sent_injective e) v
Step-IsValid s s' (sends accepts result (b ∷ bs) client e) v =
    Sends-IsValid accepts result s s' (b ∷ bs) client
      (subst (Sends s (b ∷ bs) client accepts) e (sendinl-Sends accepts s b bs client v))
Step-IsValid s s' (completes i e) v = after_send-IsValid i s s' v e

-- After any sequence of sends and completions, in any order and with any answers of libuv, the pool
-- holds at most 257 requests, each request's `buf.len` lies in its allocation, and each allocated
-- request is in the pool, with libuv, or freed.
pub Reachable-IsValid : (s : Writes) → Reachable s → IsValid s
Reachable-IsValid s starts = record {
  pool_sized = tt;
  taken_sized = tt;
  bounded = omega arith;
  counted = omega arith;
}
Reachable-IsValid s (goes_on {s = r} q e) = Step-IsValid r s e (Reachable-IsValid r q)
