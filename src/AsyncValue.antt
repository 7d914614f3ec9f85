-- ===== src/AsyncValue.antt =====
-- include/utils/async_value.hpp: a value with waiters. The lambdas that the source dispatches on
-- the value's strand run at once, since every caller is on the transport's strand.
pub mod Waiters
mod Examples
use file_hop_z.Base.{ℕ, ◌+◌, ◌%◌, List, [], ◌∷◌, ◌++◌, map}
use file_hop_z.Base.Bytes.{u64_mod}
use file_hop_z.AsyncQueue.{Completion, completed, aborted, remove_waiter}

-- The fields `value_`, `version_` and `waiters_`.
pub record AsyncValue {ℓ} (T : Type ℓ) : Type ℓ where
  pub value : T
  pub version : ℕ
  pub waiters : List ℕ

module _ {ℓ} {T : Type ℓ} where
  abbrev pub new_value : T → AsyncValue T
  new_value init = record { value = init; version = 0; waiters = [] }

  abbrev pub get : AsyncValue T → T
  get a = a.value

  -- Every waiter is woken with the new value.
  unfoldable pub set : T → AsyncValue T → AsyncValue T × List (Completion T)
  set v a = (
    record { value = v; version = (a.version + 1) % u64_mod; waiters = [] },
    map (λ w. completed w v) a.waiters,
  )

  -- The value changes, and nobody is woken.
  unfoldable pub update : T → AsyncValue T → AsyncValue T
  update v a = record a { value = v; version = (a.version + 1) % u64_mod }

  -- The longest waiter is woken with the value as it is.
  unfoldable pub notify_one : AsyncValue T → AsyncValue T × List (Completion T)
  notify_one a = elim a.waiters [
    | [] ↦ (a, [])
    | w ∷ ws ↦ (record a { waiters = ws }, completed w a.value ∷ [])
  ]

  -- `wait` always suspends: it does not look at the value.
  unfoldable pub wait : ℕ → AsyncValue T → AsyncValue T
  wait h a = record a { waiters = a.waiters ++ (h ∷ []) }

  unfoldable pub cancel : ℕ → AsyncValue T → AsyncValue T × List (Completion T)
  cancel h a = (record a { waiters = remove_waiter h a.waiters }, aborted h ∷ [])
