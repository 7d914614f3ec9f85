-- ===== src/AsyncValue/Waiters.antt =====
-- Waiters are served in the order of their waiting, each once, and one that is cancelled is not
-- woken.
use mathlib.Core.List.{append-nil}
use file_hop_z.Base.{ℕ, ◌≡◌, refl, ap, sym, ◌∙◌, Bool, false, List, [], ◌∷◌, ◌++◌, map, arith}
use file_hop_z.AsyncQueue.{Completion, completed, aborted}
use file_hop_z.AsyncQueue.Handlers.{
  keep, has, unchosen, keep-append, has-append, keep-remove_waiter, has-remove_waiter,
  has-remove_other, append-steps,
}
use file_hop_z.AsyncValue.{AsyncValue, set, update, notify_one, wait, cancel}

pub data Call {ℓ} (T : Type ℓ) : Type ℓ where
  sets : T → Call T
  updates : T → Call T
  notifies : Call T
  waits : ℕ → Call T
  cancels : ℕ → Call T

module _ {ℓ} {T : Type ℓ} where
  abbrev pub perform : Call T → AsyncValue T → AsyncValue T × List (Completion T)
  perform (sets v) a = set v a
  perform (updates v) a = (update v a, [])
  perform notifies a = notify_one a
  perform (waits h) a = (wait h a, [])
  perform (cancels h) a = cancel h a

  unfoldable pub perform_all : List (Call T) → AsyncValue T → AsyncValue T × List (Completion T)
  perform_all [] a = (a, [])
  perform_all (c ∷ cs) a =
      let (a', out) = perform c a in let (a'', later) = perform_all cs a' in (a'', out ++ later)

  abbrev pub joins : Call T → List ℕ
  joins (waits h) = h ∷ []
  joins _ = []

  abbrev pub joined : List (Call T) → List ℕ
  joined [] = []
  joined (c ∷ cs) = joins c ++ joined cs

  abbrev pub drops : Call T → List ℕ
  drops (cancels h) = h ∷ []
  drops _ = []

  -- No handler that is cancelled is chosen.
  abbrev pub Spares : (ℕ → Bool) → List (Call T) → Type 0
  Spares f [] = Unit
  Spares f (c ∷ cs) = (keep f (drops c) ≡ []) × Spares f cs

  -- The handlers that are woken.
  abbrev pub handlers : List (Completion T) → List ℕ
  handlers [] = []
  handlers (completed h v ∷ cs) = h ∷ handlers cs
  handlers (aborted h ∷ cs) = handlers cs

  handlers-append : (xs ys : List (Completion T)) → handlers (xs ++ ys) ≡ handlers xs ++ handlers ys
  handlers-append [] ys = refl
  handlers-append (completed h v ∷ xs) ys = ap (◌∷◌ h) (handlers-append xs ys)
  handlers-append (aborted h ∷ xs) ys = handlers-append xs ys

  handlers-completed : (v : T) (ws : List ℕ) → handlers (map (λ w. completed w v) ws) ≡ ws
  handlers-completed v [] = refl
  handlers-completed v (w ∷ ws) = ap (◌∷◌ w) (handlers-completed v ws)

  -- One call: the chosen handlers that it wakes come before those that wait on.
  abbrev Serves : (ℕ → Bool) → List ℕ → List ℕ → AsyncValue T × List (Completion T) → Type 0
  Serves f before new r = keep f before ++ keep f new ≡ keep f (handlers r.1) ++ keep f r.0.waiters

  notify_one-Serves :
      (f : ℕ → Bool) (a : AsyncValue T) (ws : List ℕ)
      → a.waiters ≡ ws
      → Serves f a.waiters [] (notify_one a)
  unfolding notify_one keep
  notify_one-Serves f a [] e = rw (e, notify_one) (ap (keep f) (sym e))
  notify_one-Serves f a (w ∷ ws) e =
      rw (e, notify_one) (append-nil (keep f (w ∷ ws)) ∙ keep-append f (w ∷ []) ws)

  perform-Serves :
      (f : ℕ → Bool) (c : Call T) (a : AsyncValue T)
      → keep f (drops c) ≡ []
      → Serves f a.waiters (joins c) (perform c a)
  unfolding set update wait cancel keep
  perform-Serves f (sets v) a e = ap (λ l. keep f l ++ []) (sym (handlers-completed v a.waiters))
  perform-Serves f (updates v) a e = append-nil (keep f a.waiters)
  perform-Serves f notifies a e = notify_one-Serves f a a.waiters refl
  perform-Serves f (waits h) a e = sym (keep-append f a.waiters (h ∷ []))
  perform-Serves f (cancels h) a e =
      append-nil (keep f a.waiters) ∙ sym (keep-remove_waiter f h a.waiters (unchosen f h e))

  perform_all-Serves :
      (f : ℕ → Bool) (cs : List (Call T)) (a : AsyncValue T)
      → Spares f cs
      → Serves f a.waiters (joined cs) (perform_all cs a)
  unfolding perform_all keep
  perform_all-Serves f [] a s = append-nil (keep f a.waiters)
  perform_all-Serves f (c ∷ cs) a s =
      let now = perform c a in
      let rest = perform_all cs now.0 in
      ap (◌++◌ (keep f a.waiters)) (keep-append f (joins c) (joined cs))
      ∙ append-steps (keep f a.waiters) (keep f (joins c)) (keep f (handlers now.1))
          (keep f now.0.waiters) (keep f (joined cs)) (keep f (handlers rest.1))
          (keep f rest.0.waiters) (perform-Serves f c a s.0) (perform_all-Serves f cs now.0 s.1)
      ∙ ap (λ l. l ++ keep f rest.0.waiters)
          (sym (
            ap (keep f) (handlers-append now.1 rest.1)
            ∙ keep-append f (handlers now.1) (handlers rest.1)))

  -- A handler that does not wait is not woken by a call that is not its own, and does not wait
  -- afterwards.
  abbrev IsOut : ℕ → AsyncValue T × List (Completion T) → Type 0
  IsOut h r = (has h (handlers r.1) ≡ false) × (has h r.0.waiters ≡ false)

  notify_one-IsOut :
      (h : ℕ) (a : AsyncValue T) (ws : List ℕ)
      → a.waiters ≡ ws
      → has h ws ≡ false
      → IsOut h (notify_one a)
  unfolding notify_one has
  notify_one-IsOut h a [] e n = rw (e, notify_one) (refl, ap (has h) e)
  notify_one-IsOut h a (w ∷ ws) e n = rw (e, notify_one) (ground arith, ground arith)

  perform-IsOut :
      (h : ℕ) (c : Call T) (a : AsyncValue T)
      → has h (joins c) ≡ false
      → has h a.waiters ≡ false
      → IsOut h (perform c a)
  unfolding set update wait cancel has
  perform-IsOut h (sets v) a n e = (ap (has h) (handlers-completed v a.waiters) ∙ e, refl)
  perform-IsOut h (updates v) a n e = (refl, e)
  perform-IsOut h notifies a n e = notify_one-IsOut h a a.waiters refl e
  perform-IsOut h (waits k) a n e = (refl, ground (arith, has-append h a.waiters (k ∷ [])))
  perform-IsOut h (cancels k) a n e = (refl, has-remove_other h k a.waiters e)

  perform_all-IsOut :
      (h : ℕ) (cs : List (Call T)) (a : AsyncValue T)
      → has h (joined cs) ≡ false
      → has h a.waiters ≡ false
      → IsOut h (perform_all cs a)
  unfolding perform_all has
  perform_all-IsOut h [] a n e = (refl, e)
  perform_all-IsOut h (c ∷ cs) a n e =
      let split = has-append h (joins c) (joined cs) in
      let now = perform c a in
      let (quiet, out) = perform-IsOut h c a (ground (arith, split)) e in
      let (silent, gone) = perform_all-IsOut h cs now.0 (ground (arith, split)) out in
      let rest = perform_all cs now.0 in
      (
        ap (has h) (handlers-append now.1 rest.1)
            ∙ has-append h (handlers now.1) (handlers rest.1)
            ∙ ground (arith, quiet, silent),
        gone,
      )

  cancel-IsOut :
      (h : ℕ) (later : List (Call T)) (a : AsyncValue T)
      → has h (joined later) ≡ false
      → has h (handlers (perform_all (cancels h ∷ later) a).1) ≡ false
  unfolding perform_all cancel
  cancel-IsOut h later a n =
      (perform_all-IsOut h later (cancel h a).0 n (has-remove_waiter h a.waiters)).0

  -- Over any history of `set`, `update`, `notify_one`, `wait` and cancellations: of any handlers
  -- none of which is cancelled, those who waited at first and those who joined are, in order, the
  -- woken ones and those who still wait; so each of them is woken at most once, and none before one
  -- that has waited longer. A handler that is cancelled then is not woken by anything that comes
  -- later, until it waits again.
  pub perform_all_serves :
      (cs later : List (Call T)) (a : AsyncValue T) (f : ℕ → Bool) (h : ℕ)
      → Spares f cs
      → has h (joined later) ≡ false
      → let r = perform_all cs a in
        (keep f (a.waiters ++ joined cs) ≡ keep f (handlers r.1) ++ keep f r.0.waiters)
        × (has h (handlers (perform_all (cancels h ∷ later) r.0).1) ≡ false)
  perform_all_serves cs later a f h s n = (
    keep-append f a.waiters (joined cs) ∙ perform_all-Serves f cs a s,
    cancel-IsOut h later (perform_all cs a).0 n,
  )

  -- Waking a waiter leaves the value alone.
  pub value-notify_one : (a : AsyncValue T) → (notify_one a).0.value ≡ a.value
  unfolding notify_one
  value-notify_one a = go a.waiters refl
    where
      go : (ws : List ℕ) → a.waiters ≡ ws → (notify_one a).0.value ≡ a.value
      go [] e = rw (e, notify_one) refl
      go (w ∷ ws) e = rw (e, notify_one) refl
