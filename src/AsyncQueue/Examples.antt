-- ===== src/AsyncQueue/Examples.antt =====
-- The queue at concrete histories.
use file_hop_z.Base.{ℕ, ◌≡◌, refl, not, inl, List, [], ◌∷◌, ◌++◌, ◌==◌, false}
use file_hop_z.AsyncQueue.{completed, aborted, new_queue, push, pop, cancel}
use file_hop_z.AsyncQueue.Fifo.{
  Call, pushes, pops, cancels, perform_all, IsIdle, values, perform_all_fifo,
}
use file_hop_z.AsyncQueue.Handlers.{keep, has}
use file_hop_z.AsyncQueue.Turns.{handlers, perform_all_delivers}

abbrev history : List (Call ℕ)
history = pops 1 ∷ pops 2 ∷ cancels 1 ∷ pushes 50 ∷ pushes 60 ∷ pushes 70 ∷ pops 3 ∷ []

perform_all_runs :
    perform_all history new_queue
    ≡ (record { queue = 70 ∷ []; waiters = [] }, aborted 1 ∷ completed 2 50 ∷ completed 3 60 ∷ [])
unfolding perform_all push pop cancel
perform_all_runs = refl

history_whole :
    let r = perform_all history new_queue in
    IsIdle r.0 × (50 ∷ 60 ∷ 70 ∷ [] ≡ values r.1 ++ r.0.queue)
history_whole = perform_all_fifo history new_queue (inl refl)

-- Five pops, the first of which is cancelled, and the last two of which wait on.
abbrev crowded : List (Call ℕ)
crowded = pops 1 ∷ pops 2 ∷ cancels 1 ∷ pops 3 ∷ pushes 50 ∷ pops 4 ∷ pushes 60 ∷ pops 5 ∷ []

-- Then the pop 4 is cancelled too, and two values come.
abbrev afterwards : List (Call ℕ)
afterwards = pushes 70 ∷ pushes 80 ∷ pops 6 ∷ []

crowded_runs :
    perform_all (cancels 4 ∷ afterwards) (perform_all crowded new_queue).0
    ≡ (record { queue = []; waiters = [] }, aborted 4 ∷ completed 5 70 ∷ completed 6 80 ∷ [])
unfolding perform_all push pop cancel
crowded_runs = refl

perform_all_delivers_example :
    let r = perform_all crowded new_queue in
    IsIdle r.0
    × (50 ∷ 60 ∷ [] ≡ values r.1 ++ r.0.queue)
    × (keep (λ k. not (k == 1)) (1 ∷ 2 ∷ 3 ∷ 4 ∷ 5 ∷ [])
        ≡ keep (λ k. not (k == 1)) (handlers r.1) ++ keep (λ k. not (k == 1)) r.0.waiters)
    × (has 4 (handlers (perform_all (cancels 4 ∷ afterwards) r.0).1) ≡ false)
unfolding keep has
perform_all_delivers_example =
    perform_all_delivers crowded afterwards new_queue (λ k. not (k == 1)) 4 (inl refl)
      (refl, (refl, (refl, (refl, (refl, (refl, (refl, (refl, tt)))))))) refl
