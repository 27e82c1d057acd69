-- ===== src/Dispatch.antt =====
-- src/ev_dispatch.cpp: the queue of messages and their processing. A message is an address on the heap; the
-- mutex makes postMsg, checkQueue and a turn of the loop one step each. What the log gets is left out:
-- a message of the level D_INFO never throws.
pub mod Services
mod Queue
mod Trimming
mod Tests
use ocserver.Common.{
  ◌&&◌, ℕ, zero, suc, ◌+◌, Bool, true, false, not, List, [], ◌∷◌, ◌++◌, Option, none, some, length,
  ◌==◌, if◌then◌else◌,
}
use ocserver.GameProto.{FromMsg}
use ocserver.Dispatch.Services.{CommChannel, get_service, exec_transact}

-- `heap` are the messages that are allocated, `sent` what the services were given, the last one first.
pub record Dispatch : Type 0 where
  pub qfmsg : List ℕ
  pub heap : List (ℕ × FromMsg)
  pub services : CommChannel
  pub sent : List (ℕ × List ℕ)

-- The constructor; none is the exception of DebugLog with D_ERROR, at the first call of libuv that fails.
unfoldable pub new_dispatch : Bool → Bool → Bool → CommChannel → Option Dispatch
new_dispatch loop_init mutex_init async_init services =
    if loop_init && mutex_init && async_init
    then some (record { qfmsg = []; heap = []; services = services; sent = [] })
    else none

-- Start: whether the thread was created, and what is logged if not, for the text of libuv's error.
abbrev pub start : Option (List ℕ) → Bool × List ℕ
start none = (true, [])
start (some lasterrmsg) = (false, lasterrmsg)

-- What a step leads to: a freed message is read, or freed again, and an empty queue has no front.
pub data Stepped : Type 0 where
  ok : Dispatch → Stepped
  reads_freed double_free no_front no_fuel : Stepped

infixl 5 ◌>>=◌
abbrev pub ◌>>=◌ : Stepped → (Dispatch → Stepped) → Stepped
ok s >>= f = f s
reads_freed >>= f = reads_freed
double_free >>= f = double_free
no_front >>= f = no_front
no_fuel >>= f = no_fuel

abbrev pub at : ℕ → List (ℕ × FromMsg) → Option FromMsg
at p [] = none
at p ((q, msg) ∷ heap) = if p == q then some msg else at p heap

abbrev pub without : ℕ → List (ℕ × FromMsg) → List (ℕ × FromMsg)
without p [] = []
without p ((q, msg) ∷ heap) = let rest = without p heap in if p == q then rest else (q, msg) ∷ rest

unfoldable pub delete : ℕ → Dispatch → Stepped
delete p s = elim (at p s.heap) [
  | none ↦ double_free
  | some msg ↦ ok (record s { heap = without p s.heap })
]

-- `new FromMsg`, at the address that it gets, and postMsg.
unfoldable pub post_msg : ℕ → FromMsg → Dispatch → Dispatch
post_msg p msg s = record s { qfmsg = s.qfmsg ++ (p ∷ []); heap = (p, msg) ∷ s.heap }

abbrev pub check_queue : Dispatch → Bool
check_queue s = elim s.qfmsg [ [] ↦ true | p ∷ ps ↦ false ]

-- `call` is the service's Java method: its result and the buffer it wrote.
module _ (call : ℕ → List ℕ → ℕ → Bool × Option (List ℕ)) where
  -- A service is found for the command, or not.
  unfoldable pub serve : ℕ → FromMsg → Option ℕ → Dispatch → Stepped
  unfolding delete exec_transact
  serve p msg none s = delete p s
  serve p msg (some srv) s = elim (exec_transact call srv msg.net_buffer [] 0) [
    | none ↦ no_fuel
    | some r ↦ delete p (record s { sent = (srv, msg.net_buffer) ∷ s.sent })
  ]

  unfoldable pub proc_msg : ℕ → Dispatch → Stepped
  unfolding serve
  proc_msg p s = elim (at p s.heap) [
    | none ↦ reads_freed
    | some msg ↦ serve p msg (get_service msg.service_cmd s.services) s
  ]

  abbrev pub pop : Dispatch → Dispatch
  pop s = record s { qfmsg = elim s.qfmsg [ [] ↦ [] | p ∷ ps ↦ ps ] }

  -- One turn of the loop in afterpost_cb.
  unfoldable pub turn : Dispatch → Stepped
  unfolding proc_msg
  turn s = elim s.qfmsg [ [] ↦ no_front | p ∷ ps ↦ proc_msg p s >>= delete p >>= λ s'. ok (pop s') ]

  unfoldable pub afterpost_cb : ℕ → Dispatch → Stepped
  unfolding turn
  afterpost_cb zero s = if check_queue s then ok s else no_fuel
  afterpost_cb (suc fuel) s = elim (check_queue s) [
    | true ↦ ok s
    | false ↦ turn s >>= afterpost_cb fuel
  ]
