-- ===== src/AsyncQueue.antt =====
-- include/utils/async_queue.hpp: the queue between coroutines. Handlers are numbers; what the
-- source dispatches to a handler's executor is the list of completions that a call returns.
pub mod Fifo
pub mod Handlers
pub mod Turns
mod Examples
use file_hop_z.Base.{ℕ, Option, none, some, List, [], ◌∷◌, ◌++◌, ◌==◌, if◌then◌else◌}

-- `handler(error_code{}, value)` and `handler(operation_aborted, T{})`.
pub data Completion {ℓ} (T : Type ℓ) : Type ℓ where
  completed : ℕ → T → Completion T
  aborted : ℕ → Completion T

-- The fields `queue_` and `waiters_`.
pub record AsyncQueue {ℓ} (T : Type ℓ) : Type ℓ where
  pub queue : List T
  pub waiters : List ℕ

-- `std::remove` and `erase`.
unfoldable pub remove_waiter : ℕ → List ℕ → List ℕ
remove_waiter h [] = []
remove_waiter h (w ∷ ws) = let rest = remove_waiter h ws in if w == h then rest else w ∷ rest

module _ {ℓ} {T : Type ℓ} where
  abbrev pub new_queue : AsyncQueue T
  new_queue = record { queue = []; waiters = [] }

  -- A waiter takes the value at once; with no waiter it is queued.
  unfoldable pub push : T → AsyncQueue T → AsyncQueue T × List (Completion T)
  push v q = elim q.waiters [
    | [] ↦ (record q { queue = q.queue ++ (v ∷ []) }, [])
    | w ∷ ws ↦ (record q { waiters = ws }, completed w v ∷ [])
  ]

  unfoldable pub pop : ℕ → AsyncQueue T → AsyncQueue T × List (Completion T)
  pop h q = elim q.queue [
    | [] ↦ (record q { waiters = q.waiters ++ (h ∷ []) }, [])
    | v ∷ vs ↦ (record q { queue = vs }, completed h v ∷ [])
  ]

  -- What `pop` assigns to the cancellation slot of a handler that waits.
  unfoldable pub cancel : ℕ → AsyncQueue T → AsyncQueue T × List (Completion T)
  unfolding remove_waiter
  cancel h q = (record q { waiters = remove_waiter h q.waiters }, aborted h ∷ [])
