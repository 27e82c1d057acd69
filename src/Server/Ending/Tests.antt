-- ===== src/Server/Ending/Tests.antt =====
-- src/uv_net.cpp: a client with TLS and one without, and the handle of the server.
use ocserver.Common.{ℕ, ◌≡◌, refl, Bool, true, false, [], ◌∷◌, some, All, ◌==◌}
use ocserver.Log.{Log}
use ocserver.Config.{ok}
use ocserver.Config.Toy.{quiet}
use ocserver.Server.Ending.{Loop, is_closing, close_server}
use ocserver.Server.Ending.Laws.{close_server_closes}

abbrev three : Loop
three = record { handles = 1 ∷ 2 ∷ 3 ∷ []; closing = []; locked = false; if_exit = false }

abbrev with_tls : ℕ → Bool
with_tls c = c == 2

abbrev later : ℕ → Bool
later c = false

close_server_closes_example :
    (s' : Loop) × (log' : Log) × (close_server [] [] with_tls later
        ((0, 1) ∷ (1, 2) ∷ [])
        three
        quiet
      ≡ ok (some s') log')
    × All (λ h. is_closing h s' ≡ true) (1 ∷ 2 ∷ 3 ∷ [])
    × (s'.if_exit ≡ true)
    × (s'.locked ≡ true)
close_server_closes_example =
    close_server_closes [] [] with_tls later ((0, 1) ∷ (1, 2) ∷ []) three quiet
      (refl, (refl, tt), (refl, tt, tt))
