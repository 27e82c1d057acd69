-- ===== src/Server/Writes/Tests.antt =====
-- src/uv_net.cpp: the theorems on write requests at concrete runs.
use ocserver.Common.{◌≡◌, refl, true, [], ◌∷◌, some}
use ocserver.Server.Writes.{Writes, no_writes, sent, sendinl, after_send, WriteParam}
use ocserver.Server.Writes.Pool.{
  IsValid, Reachable, starts, goes_on, sends, completes, Reachable-IsValid, sendinl-Sends, Sends,
}

abbrev request : WriteParam
request = record { allocated = 10240; len = 2; bytes = 1 ∷ 2 ∷ []; client = 7 }

abbrev one_taken : Writes
one_taken = record { pool = []; taken = request ∷ []; allocations = 1; frees = 0 }

abbrev one_pooled : Writes
one_pooled = record { pool = request ∷ []; taken = []; allocations = 1; frees = 0 }

one_sent : sendinl true no_writes (1 ∷ 2 ∷ []) 7 ≡ sent true one_taken
unfolding sendinl
one_sent = refl

one_completed : after_send 0 one_taken ≡ some one_pooled
unfolding after_send
one_completed = refl

pooled-Reachable : Reachable one_pooled
pooled-Reachable =
    goes_on (goes_on starts (sends true true (1 ∷ 2 ∷ []) 7 one_sent)) (completes 0 one_completed)

Reachable-IsValid_example : IsValid one_pooled
Reachable-IsValid_example = Reachable-IsValid one_pooled pooled-Reachable

-- A request of two bytes is used again for three.
sendinl-Sends_example :
    Sends one_pooled (4 ∷ 5 ∷ 6 ∷ []) 8 true (sendinl true one_pooled (4 ∷ 5 ∷ 6 ∷ []) 8)
sendinl-Sends_example =
    sendinl-Sends true one_pooled 4 (5 ∷ 6 ∷ []) 8 (Reachable-IsValid one_pooled pooled-Reachable)
