-- ===== src/AsyncQueue/Turns.antt =====
-- Handlers of the queue are served in the order of their calls, and one that is cancelled gets no
-- value.
use mathlib.Core.List.{append-nil}
use file_hop_z.Base.{ℕ, ◌≡◌, refl, ap, sym, ◌∙◌, Bool, false, inl, inr, List, [], ◌∷◌, ◌++◌, arith}
use file_hop_z.AsyncQueue.{AsyncQueue, Completion, completed, aborted, push, pop, cancel}
use file_hop_z.AsyncQueue.Fifo.{
  Call, pushes, pops, cancels, perform, perform_all, pushed, values, IsIdle, perform-Conserves,
  perform_all_fifo,
}
use file_hop_z.AsyncQueue.Handlers.{
  keep, has, unchosen, keep-append, has-append, keep-remove_waiter, has-remove_waiter,
  has-remove_other, append-steps,
}

module _ {ℓ} {T : Type ℓ} where
  -- The handlers that are given a value.
  abbrev pub handlers : List (Completion T) → List ℕ
  handlers [] = []
  handlers (completed h v ∷ cs) = h ∷ handlers cs
  handlers (aborted h ∷ cs) = handlers cs

  abbrev pub joins : Call T → List ℕ
  joins (pops h) = h ∷ []
  joins _ = []

  -- The handlers of the pops.
  abbrev pub popped : List (Call T) → List ℕ
  popped [] = []
  popped (c ∷ cs) = joins c ++ popped cs

  abbrev pub drops : Call T → List ℕ
  drops (cancels h) = h ∷ []
  drops _ = []

  -- No handler that is cancelled is chosen.
  abbrev pub Spares : (ℕ → Bool) → List (Call T) → Type 0
  Spares f [] = Unit
  Spares f (c ∷ cs) = (keep f (drops c) ≡ []) × Spares f cs

  handlers-append : (xs ys : List (Completion T)) → handlers (xs ++ ys) ≡ handlers xs ++ handlers ys
  handlers-append [] ys = refl
  handlers-append (completed h v ∷ xs) ys = ap (◌∷◌ h) (handlers-append xs ys)
  handlers-append (aborted h ∷ xs) ys = handlers-append xs ys

  -- One call: the chosen handlers that it serves come before those that wait on.
  abbrev Turns : (ℕ → Bool) → List ℕ → List ℕ → AsyncQueue T × List (Completion T) → Type 0
  Turns f before new r = keep f before ++ keep f new ≡ keep f (handlers r.1) ++ keep f r.0.waiters

  push-Turns :
      (f : ℕ → Bool) (v : T) (vs : List T) (ws : List ℕ)
      → Turns f ws [] (push v (record { queue = vs; waiters = ws }))
  unfolding push keep
  push-Turns f v vs [] = refl
  push-Turns f v vs (w ∷ ws) = append-nil (keep f (w ∷ ws)) ∙ keep-append f (w ∷ []) ws

  pop-Turns :
      (f : ℕ → Bool) (h : ℕ) (vs : List T) (ws : List ℕ)
      → IsIdle (record { queue = vs; waiters = ws })
      → Turns f ws (h ∷ []) (pop h (record { queue = vs; waiters = ws }))
  unfolding pop keep
  pop-Turns f h [] ws i = sym (keep-append f ws (h ∷ []))
  pop-Turns f h (v ∷ vs) ws (inl e) = absurd cc
  pop-Turns f h (v ∷ vs) [] (inr e) = sym (append-nil (keep f (h ∷ [])))
  pop-Turns f h (v ∷ vs) (w ∷ ws) (inr e) = absurd cc

  cancel-Turns :
      (f : ℕ → Bool) (h : ℕ) (q : AsyncQueue T)
      → keep f (h ∷ []) ≡ []
      → Turns f q.waiters [] (cancel h q)
  unfolding cancel keep
  cancel-Turns f h q e =
      append-nil (keep f q.waiters) ∙ sym (keep-remove_waiter f h q.waiters (unchosen f h e))

  perform-Turns :
      (f : ℕ → Bool) (c : Call T) (q : AsyncQueue T)
      → IsIdle q
      → keep f (drops c) ≡ []
      → Turns f q.waiters (joins c) (perform c q)
  perform-Turns f (pushes v) q i e = push-Turns f v q.queue q.waiters
  perform-Turns f (pops h) q i e = pop-Turns f h q.queue q.waiters i
  perform-Turns f (cancels h) q i e = cancel-Turns f h q e

  perform_all-Turns :
      (f : ℕ → Bool) (cs : List (Call T)) (q : AsyncQueue T)
      → IsIdle q
      → Spares f cs
      → Turns f q.waiters (popped cs) (perform_all cs q)
  unfolding perform_all keep
  perform_all-Turns f [] q i s = append-nil (keep f q.waiters)
  perform_all-Turns f (c ∷ cs) q i s =
      let now = perform c q in
      let rest = perform_all cs now.0 in
      ap (◌++◌ (keep f q.waiters)) (keep-append f (joins c) (popped cs))
      ∙ append-steps (keep f q.waiters) (keep f (joins c)) (keep f (handlers now.1))
          (keep f now.0.waiters) (keep f (popped cs)) (keep f (handlers rest.1))
          (keep f rest.0.waiters) (perform-Turns f c q i s.0)
          (perform_all-Turns f cs now.0 (perform-Conserves c q i).0 s.1)
      ∙ ap (λ l. l ++ keep f rest.0.waiters)
          (sym (
            ap (keep f) (handlers-append now.1 rest.1)
            ∙ keep-append f (handlers now.1) (handlers rest.1)))

  -- A handler that does not wait gets nothing from a call that is not its own, and does not wait
  -- afterwards.
  abbrev IsOut : ℕ → AsyncQueue T × List (Completion T) → Type 0
  IsOut h r = (has h (handlers r.1) ≡ false) × (has h r.0.waiters ≡ false)

  push-IsOut :
      (h : ℕ) (v : T) (vs : List T) (ws : List ℕ)
      → has h ws ≡ false
      → IsOut h (push v (record { queue = vs; waiters = ws }))
  unfolding push has
  push-IsOut h v vs [] e = (refl, refl)
  push-IsOut h v vs (w ∷ ws) e = (ground arith, ground arith)

  pop-IsOut :
      (h k : ℕ) (vs : List T) (ws : List ℕ)
      → has h (k ∷ []) ≡ false
      → has h ws ≡ false
      → IsOut h (pop k (record { queue = vs; waiters = ws }))
  unfolding pop has
  pop-IsOut h k [] ws n e = (refl, ground (arith, has-append h ws (k ∷ [])))
  pop-IsOut h k (v ∷ vs) ws n e = (n, e)

  perform-IsOut :
      (h : ℕ) (c : Call T) (q : AsyncQueue T)
      → has h (joins c) ≡ false
      → has h q.waiters ≡ false
      → IsOut h (perform c q)
  unfolding cancel has
  perform-IsOut h (pushes v) q n e = push-IsOut h v q.queue q.waiters e
  perform-IsOut h (pops k) q n e = pop-IsOut h k q.queue q.waiters n e
  perform-IsOut h (cancels k) q n e = (refl, has-remove_other h k q.waiters e)

  perform_all-IsOut :
      (h : ℕ) (cs : List (Call T)) (q : AsyncQueue T)
      → has h (popped cs) ≡ false
      → has h q.waiters ≡ false
      → IsOut h (perform_all cs q)
  unfolding perform_all has
  perform_all-IsOut h [] q n e = (refl, e)
  perform_all-IsOut h (c ∷ cs) q n e =
      let split = has-append h (joins c) (popped cs) in
      let now = perform c q in
      let (quiet, out) = perform-IsOut h c q (ground (arith, split)) e in
      let (silent, gone) = perform_all-IsOut h cs now.0 (ground (arith, split)) out in
      let rest = perform_all cs now.0 in
      (
        ap (has h) (handlers-append now.1 rest.1)
            ∙ has-append h (handlers now.1) (handlers rest.1)
            ∙ ground (arith, quiet, silent),
        gone,
      )

  cancel-IsOut :
      (h : ℕ) (later : List (Call T)) (q : AsyncQueue T)
      → has h (popped later) ≡ false
      → has h (handlers (perform_all (cancels h ∷ later) q).1) ≡ false
  unfolding perform_all cancel
  cancel-IsOut h later q n =
      (perform_all-IsOut h later (cancel h q).0 n (has-remove_waiter h q.waiters)).0

  -- Over any history of pushes, pops and cancellations, from a queue at which nobody waits while a
  -- value is queued: nobody waits while a value is queued in the end; the values that were queued
  -- and those pushed are, in order, the values handed out and those left in the queue, so that
  -- none is lost, repeated or reordered; and of any handlers none of which is cancelled, those
  -- that waited and those that popped are, in order, those that are given a value and those that
  -- wait on. A handler that is cancelled then is given no value by anything that comes later, until
  -- it pops again.
  pub perform_all_delivers :
      (cs later : List (Call T)) (q : AsyncQueue T) (f : ℕ → Bool) (h : ℕ)
      → IsIdle q
      → Spares f cs
      → has h (popped later) ≡ false
      → let r = perform_all cs q in
        IsIdle r.0
        × (q.queue ++ pushed cs ≡ values r.1 ++ r.0.queue)
        × (keep f (q.waiters ++ popped cs) ≡ keep f (handlers r.1) ++ keep f r.0.waiters)
        × (has h (handlers (perform_all (cancels h ∷ later) r.0).1) ≡ false)
  perform_all_delivers cs later q f h i s n =
      let (idle, whole) = perform_all_fifo cs q i in
      (
        idle,
        whole,
        keep-append f q.waiters (popped cs) ∙ perform_all-Turns f cs q i s,
        cancel-IsOut h later (perform_all cs q).0 n,
      )
