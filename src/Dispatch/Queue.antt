-- ===== src/Dispatch/Queue.antt =====
-- src/ev_dispatch.cpp and Core/src/jImpl.cpp: which service gets a message, and what becomes of the message.
use ocserver.Common.{
  ℕ, suc, ◌≡◌, refl, ap, ◌∙◌, Bool, true, false, List, [], ◌∷◌, ◌++◌, Option, none, some, ◌==◌,
  arith, ==_self, Bool-cases, inl, inr, All, same, if◌then◌else◌,
}
use ocserver.GameProto.{FromMsg}
use ocserver.Dispatch.Services.{
  CommChannel, get_service, load_java_srv, load_each, load_all_ava_java_srvs, load_java_srv_conf,
}
use ocserver.Dispatch.Trimming.{exec_transact-EndsNonzero}
use ocserver.Dispatch.{
  Dispatch, ok, reads_freed, double_free, no_front, no_fuel, ◌>>=◌, at, without, delete, post_msg,
  check_queue, serve, proc_msg, pop, turn, afterpost_cb,
}

-- Behind `without` the address is free.
at-without : (p : ℕ) (heap : List (ℕ × FromMsg)) → at p (without p heap) ≡ none
at-without p [] = refl
at-without p ((q, msg) ∷ heap) = ground (arith, at-without p heap)

delete-allocated :
    (p : ℕ) (msg : FromMsg) (s : Dispatch)
    → at p s.heap ≡ some msg
    → delete p s ≡ ok (record s { heap = without p s.heap })
unfolding delete
delete-allocated p msg s e = rw (e, delete) refl

delete-freed : (p : ℕ) (s : Dispatch) → at p s.heap ≡ none → delete p s ≡ double_free
unfolding delete
delete-freed p s e = rw (e, delete) refl

abbrev pub IsAllocated : ℕ → List (ℕ × FromMsg) → Type 0
IsAllocated p heap = (msg : FromMsg) × (at p heap ≡ some msg)

cons-IsAllocated :
    (q p : ℕ) (msg m : FromMsg) (heap : List (ℕ × FromMsg))
    → at q heap ≡ some m
    → IsAllocated q ((p, msg) ∷ heap)
cons-IsAllocated q p msg m heap e = elim (Bool-cases (q == p)) [
  | inl b ↦ (msg, rw b refl)
  | inr b ↦ (m, rw b e)
]

module _ (call : ℕ → List ℕ → ℕ → Bool × Option (List ℕ)) where
  -- Whether a service is found or not, the message is deleted.
  serve-deletes :
      (p : ℕ) (msg : FromMsg) (o : Option ℕ) (s : Dispatch)
      → at p s.heap ≡ some msg
      → (s' : Dispatch) × (serve call p msg o s ≡ ok s')
        × (s'.heap ≡ without p s.heap)
        × (s'.qfmsg ≡ s.qfmsg)
  unfolding serve
  serve-deletes p msg none s e = (_, delete-allocated p msg s e, refl, refl)
  serve-deletes p msg (some srv) s e =
      let (text, r, l) = exec_transact-EndsNonzero call srv msg.net_buffer [] 0 in
      let sent = record s { sent = (srv, msg.net_buffer) ∷ s.sent } in
      (
        record sent { heap = without p s.heap },
        ap (λ o. elim o [ none ↦ no_fuel | some r ↦ delete p sent ]) r
            ∙ delete-allocated p msg sent e,
        refl,
        refl,
      )

  proc_msg-deletes :
      (p : ℕ) (msg : FromMsg) (s : Dispatch)
      → at p s.heap ≡ some msg
      → (s' : Dispatch) × (proc_msg call p s ≡ ok s')
        × (s'.heap ≡ without p s.heap)
        × (s'.qfmsg ≡ s.qfmsg)
  unfolding proc_msg
  proc_msg-deletes p msg s e =
      let (s', r, h, q) = serve-deletes p msg (get_service msg.service_cmd s.services) s e in
      (
        s',
        ap
              (λ o. elim o [
                | none ↦ reads_freed
                | some m ↦ serve call p m (get_service m.service_cmd s.services) s
              ])
              e
            ∙ r,
        h,
        q,
      )

  turn-double_free :
      (p : ℕ) (ps : List ℕ) (msg : FromMsg) (s : Dispatch)
      → s.qfmsg ≡ p ∷ ps
      → at p s.heap ≡ some msg
      → turn call s ≡ double_free
  unfolding turn
  turn-double_free p ps msg s q e =
      let (s', r, h, _) = proc_msg-deletes p msg s e in
      ap
        (λ l. elim l [
          | [] ↦ no_front
          | x ∷ xs ↦ proc_msg call x s >>= delete x >>= λ t. ok (pop call t)
        ])
        q
      ∙ (ap (λ r. r >>= delete p >>= λ t. ok (pop call t)) r
          ∙ ap (λ r. r >>= λ t. ok (pop call t))
              (delete-freed p s' (ap (at p) h ∙ at-without p s.heap)))

  not_empty : (p : ℕ) (ps : List ℕ) (s : Dispatch) → s.qfmsg ≡ p ∷ ps → check_queue s ≡ false
  not_empty p ps s q = rw q refl

  callback-double_free :
      (p fuel : ℕ) (ps : List ℕ) (msg : FromMsg) (s : Dispatch)
      → s.qfmsg ≡ p ∷ ps
      → at p s.heap ≡ some msg
      → afterpost_cb call (suc fuel) s ≡ double_free
  unfolding afterpost_cb
  callback-double_free p fuel ps msg s q e =
      ap (λ b. elim b [ true ↦ ok s | false ↦ turn call s >>= afterpost_cb call fuel ])
        (not_empty p ps s q)
      ∙ (ap (λ r. r >>= afterpost_cb call fuel) (turn-double_free p ps msg s q e))

  posted :
      (p fuel : ℕ) (msg : FromMsg) (s : Dispatch) (qs : List ℕ)
      → s.qfmsg ≡ qs
      → All (λ q. IsAllocated q s.heap) qs
      → afterpost_cb call (suc fuel) (post_msg p msg s) ≡ double_free
  unfolding post_msg
  posted p fuel msg s [] q h =
      callback-double_free p fuel [] msg (post_msg p msg s) (ap (λ l. l ++ (p ∷ [])) q)
        (rw (==_self p) refl)
  posted p fuel msg s (f ∷ qs) q ((m, e), hs) =
      let (m', e') = cons-IsAllocated f p msg m s.heap e in
      callback-double_free f fuel (qs ++ (p ∷ [])) m' (post_msg p msg s) (ap (λ l. l ++ (p ∷ [])) q)
        e'

  -- If all messages in the queue are allocated, then after one more is posted, the callback processes the
  -- first message and then frees it a second time, whether there is a service for its command or not.
  pub afterpost_cb_double_free :
      (p fuel : ℕ) (msg : FromMsg) (s : Dispatch)
      → All (λ q. IsAllocated q s.heap) s.qfmsg
      → afterpost_cb call (suc fuel) (post_msg p msg s) ≡ double_free
  unfolding post_msg
  afterpost_cb_double_free p fuel msg s h = posted p fuel msg s s.qfmsg refl h

-- The configured services.
module _ (base : List ℕ) (find_class : List ℕ → Option ℕ) (new_object : ℕ → ℕ) where
  load_java_srv_fails :
      (a : List ℕ) (s : CommChannel) → (load_java_srv base find_class new_object a s).0 ≡ false
  unfolding load_java_srv
  load_java_srv_fails a s = ground arith

  load_java_srv-first :
      (a cmd : List ℕ) (apps : List (List ℕ))
      → get_service cmd
          (load_java_srv base find_class new_object a (record { ava_srvs = apps; reg_srvs = [] })).1
        ≡ (if same cmd a
            then elim (find_class (base ++ a)) [ none ↦ none | some cls ↦ some (new_object cls) ]
            else none)
  unfolding load_java_srv get_service
  load_java_srv-first a cmd apps = ground arith

  -- Of the services that the configuration names, a command finds only the first, and that only if its class
  -- exists; the others are never loaded, whatever classes there are, and false is returned.
  pub get_service-load_all_ava_java_srvs :
      (a cmd : List ℕ) (apps : List (List ℕ))
      → let s = (load_java_srv_conf (a ∷ apps) (record { ava_srvs = []; reg_srvs = [] })).1 in
        ((load_all_ava_java_srvs base find_class new_object s).0 ≡ false)
        × (get_service cmd (load_all_ava_java_srvs base find_class new_object s).1 ≡ (
            if same cmd a
            then elim (find_class (base ++ a)) [ none ↦ none | some cls ↦ some (new_object cls) ]
            else none))
  unfolding load_all_ava_java_srvs load_java_srv_conf
  get_service-load_all_ava_java_srvs a cmd apps =
      let s : CommChannel = record { ava_srvs = a ∷ apps; reg_srvs = [] } in
      let stops : load_each base find_class new_object (a ∷ apps) s
          ≡ (false, (load_java_srv base find_class new_object a s).1) =
        ap
          (λ b. elim b [
            | true ↦
                load_each base find_class new_object apps
                  (load_java_srv base find_class new_object a s).1
            | false ↦ (false, (load_java_srv base find_class new_object a s).1)
          ])
          (load_java_srv_fails a s) in
      (
        ap (λ r. r.0) stops,
        ap (λ r. get_service cmd r.1) stops ∙ load_java_srv-first a cmd (a ∷ apps),
      )
