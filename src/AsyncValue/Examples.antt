-- ===== src/AsyncValue/Examples.antt =====
-- The value at a concrete history.
use file_hop_z.Base.{ℕ, ◌≡◌, refl, false, not, ◌==◌, List, [], ◌∷◌, ◌++◌}
use file_hop_z.AsyncQueue.{completed, aborted, remove_waiter}
use file_hop_z.AsyncQueue.Handlers.{keep, has}
use file_hop_z.AsyncValue.{new_value, set, update, notify_one, wait, cancel}
use file_hop_z.AsyncValue.Waiters.{
  Call, sets, updates, notifies, waits, cancels, perform_all, handlers, perform_all_serves,
}

abbrev history : List (Call ℕ)
history =
    waits 1
    ∷ waits 2
    ∷ waits 3
    ∷ updates 9
    ∷ notifies
    ∷ cancels 2
    ∷ waits 4
    ∷ waits 5
    ∷ notifies
    ∷ []

-- Then the wait 5 is cancelled too, and the value is set.
abbrev afterwards : List (Call ℕ)
afterwards = waits 6 ∷ sets 10 ∷ []

perform_all_runs : perform_all history (new_value 5) ≡ (
  record { value = 9; version = 1; waiters = 4 ∷ 5 ∷ [] },
  completed 1 9 ∷ aborted 2 ∷ completed 3 9 ∷ [],
)
unfolding perform_all set update notify_one wait cancel remove_waiter
perform_all_runs = refl

perform_all_serves_example :
    let r = perform_all history (new_value 5) in
    (keep (λ k. not (k == 2)) (1 ∷ 2 ∷ 3 ∷ 4 ∷ 5 ∷ [])
      ≡ keep (λ k. not (k == 2)) (handlers r.1) ++ keep (λ k. not (k == 2)) r.0.waiters)
    × (has 5 (handlers (perform_all (cancels 5 ∷ afterwards) r.0).1) ≡ false)
unfolding keep has
perform_all_serves_example =
    perform_all_serves history afterwards (new_value 5) (λ k. not (k == 2)) 5
      (refl, (refl, (refl, (refl, (refl, (refl, (refl, (refl, (refl, tt))))))))) refl
