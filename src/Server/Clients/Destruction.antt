-- ===== src/Server/Clients/Destruction.antt =====
-- src/uv_net.cpp: the contexts in the pool when the server is destroyed.
use ocserver.Common.{
  ℕ, ◌≡◌, ap, ◌∙◌, true, false, List, [], ◌∷◌, ◌++◌, length, ltb, if◌then◌else◌, arith, Bool-cases,
  inl, inr, ltb→lt, le→not_ltb, not_ltb→le,
}
use ocserver.Server.Writes.{backlog}
use ocserver.Server.Clients.{
  count, remove, Clients, ok, double_free, is_live, free_tcp_client_ctx, free_contexts, destroy,
  sub_client_closed, and_then,
}
use ocserver.Server.Clients.Memory.{IsValid, count-remove}
use ocserver.Server.Clients.Lifetime.{
  IsAccepted, accepted-live, removed_dead, dangling, close_pooled, close_freed,
}

free_live :
    (c : ℕ) (s : Clients)
    → is_live c s ≡ true
    → free_tcp_client_ctx c s ≡ ok (record s { live = remove c s.live })
unfolding free_tcp_client_ctx
free_live c s e = ap (λ b. if b then ok (record s { live = remove c s.live }) else double_free) e

free_dead : (c : ℕ) (s : Clients) → is_live c s ≡ false → free_tcp_client_ctx c s ≡ double_free
unfolding free_tcp_client_ctx
free_dead c s e = ap (λ b. if b then ok (record s { live = remove c s.live }) else double_free) e

-- What is freed stays so.
dead_remove :
    (d c : ℕ) (s : Clients)
    → is_live d s ≡ false
    → is_live c s ≡ true
    → is_live d (record s { live = remove c s.live }) ≡ false
dead_remove d c s e h =
    le→not_ltb 0 (count d (remove c s.live))
      (omega (arith, not_ltb→le _ _ e, count-remove d c s.live (ltb→lt _ _ h)))

-- A list whose last context is freed already.
free_contexts_dangling :
    (cs : List ℕ) (d : ℕ) (s : Clients)
    → is_live d s ≡ false
    → free_contexts (cs ++ (d ∷ [])) s ≡ double_free
unfolding free_contexts
free_contexts_dangling [] d s e = ap (λ r. and_then r (free_contexts [])) (free_dead d s e)
free_contexts_dangling (c ∷ cs) d s e = elim (Bool-cases (is_live c s)) [
  | inl y ↦
      ap (λ r. and_then r (free_contexts (cs ++ (d ∷ [])))) (free_live c s y)
      ∙ free_contexts_dangling cs d (record s { live = remove c s.live }) (dead_remove d c s e y)
  | inr n ↦ ap (λ r. and_then r (free_contexts (cs ++ (d ∷ [])))) (free_dead c s n)
]

-- If an accepted client is closed in a valid state and the server is then destroyed, a context is freed twice,
-- however many contexts the pool holds.
pub destroy_after_close :
    (ctx : ℕ) (s : Clients)
    → IsValid s
    → IsAccepted ctx s
    → and_then (sub_client_closed ctx s) destroy ≡ double_free
unfolding destroy
destroy_after_close ctx s v f =
    let l = accepted-live ctx s v f in
    let d = removed_dead ctx s v f in
    elim (Bool-cases (ltb backlog (length s.client_list))) [
      | inl y ↦ ap (λ r. and_then r destroy) (close_freed ctx s l f y d)
      | inr n ↦
          ap (λ r. and_then r destroy) (close_pooled ctx s l f n)
          ∙ ap (λ r. and_then r (λ s'. ok (record s' { client_list = [] })))
              (free_contexts_dangling s.client_list ctx (dangling ctx s) d)
    ]
