-- ===== src/Server/Ending.antt =====
-- src/uv_net.cpp: uvnet::StartThread with ClientConnS::Close and CloseWalkCB, when the loop has ended. A handle is the
-- address of the context or the object that holds it.
mod Laws
mod Tests
use ocserver.Common.{
  ℕ, Bool, true, false, List, [], ◌∷◌, Option, none, some, ltb, if◌then◌else◌, codes,
}
use ocserver.Log.{d_info, d_network}
use ocserver.Config.{M, ◌>>=◌, ◌>>◌, pure, report}
use ocserver.Server.Clients.{count}
use ocserver.Server.Running.{Net, run_loop}

-- The handles of the loop, those for which uv_close was called, whether `mutex_cl` is locked, and `if_exit`.
pub record Loop : Type 0 where
  pub handles : List ℕ
  pub closing : List ℕ
  pub locked : Bool
  pub if_exit : Bool

abbrev pub is_closing : ℕ → Loop → Bool
is_closing h s = ltb 0 (count h s.closing)

-- uv_close: none is its assertion that the handle is not closing.
unfoldable pub uv_close : ℕ → Loop → Option Loop
uv_close h s = if is_closing h s then none else some (record s { closing = h ∷ s.closing })

-- CloseWalkCB.
unfoldable pub close_walk_cb : ℕ → Loop → Option Loop
unfolding uv_close
close_walk_cb h s = if is_closing h s then some s else uv_close h s

-- uv_walk over the handles of the loop; none is uv_close's assertion.
unfoldable pub close_walk : List ℕ → Loop → Option Loop
unfolding close_walk_cb
close_walk [] s = some s
close_walk (h ∷ hs) s = elim (close_walk_cb h s) [ none ↦ none | some s' ↦ close_walk hs s' ]

-- `need_tls` is the member of a context, `calls_back` whether evt_tls_close comes to Close_tls before it returns.
module _ (now : List ℕ) (frames : List (List ℕ)) (need_tls calls_back : ℕ → Bool) where
  -- The part of Close before its message.
  unfoldable pub close_handle : ℕ → Loop → Option Loop
  close_handle ctx s =
      if need_tls ctx then (if calls_back ctx then uv_close ctx s else some s) else uv_close ctx s

  abbrev pub with_message : Option Loop → M (Option Loop)
  with_message none = pure none
  with_message (some s) =
      report now frames d_info d_network (codes "client close" ∷ []) >> pure (some s)

  unfoldable pub close : ℕ → Loop → M (Option Loop)
  close ctx s = with_message (close_handle ctx s)

  -- The loop over `client_map`.
  unfoldable pub close_clients : List (ℕ × ℕ) → Loop → M (Option Loop)
  close_clients [] s = pure (some s)
  close_clients ((cid, ctx) ∷ m) s =
      close ctx s >>= λ r. elim r [ none ↦ pure none | some s' ↦ close_clients m s' ]

  abbrev pub after_walk : Option Loop → M (Option Loop)
  after_walk none = pure none
  after_walk (some s) =
      report now frames d_info d_network (codes "Server is closed." ∷ [])
      >> pure (some (record s { if_exit = true }))

  -- StartThread from the end of run_loop on; the mutex is not unlocked.
  unfoldable pub close_server : List (ℕ × ℕ) → Loop → M (Option Loop)
  close_server client_map s = close_clients client_map (record s { locked = true }) >>= λ r.
      elim r [ none ↦ pure none | some s' ↦ after_walk (close_walk s'.handles s') ]

  -- StartThread, where `iret` is what uv_run returns.
  unfoldable pub start_thread :
      (ℕ → Option (List ℕ))
      → (ℕ → Option (List ℕ))
      → (ℕ → List ℕ)
      → ℕ
      → Net
      → List (ℕ × ℕ)
      → Loop
      → M (Net × Option Loop)
  start_thread name error_string decimal iret net client_map s = do
    ran ← run_loop now frames name error_string decimal iret net
    r ← close_server client_map s
    pure (ran.1, r)
