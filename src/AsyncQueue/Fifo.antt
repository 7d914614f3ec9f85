-- ===== src/AsyncQueue/Fifo.antt =====
-- The queue loses no value and reorders none, whatever is pushed, popped and cancelled.
use mathlib.Core.List.{append_assoc, append-nil}
use file_hop_z.Base.{ℕ, ◌≡◌, refl, ap, ◌≡⟨◌⟩◌, ◌∎, sym, ◌⊎◌, inl, inr, List, [], ◌∷◌, ◌++◌}
use file_hop_z.AsyncQueue.{AsyncQueue, Completion, completed, aborted, push, pop, cancel}

pub data Call {ℓ} (T : Type ℓ) : Type ℓ where
  pushes : T → Call T
  pops : ℕ → Call T
  cancels : ℕ → Call T

module _ {ℓ} {T : Type ℓ} where
  abbrev pub perform : Call T → AsyncQueue T → AsyncQueue T × List (Completion T)
  perform (pushes v) q = push v q
  perform (pops h) q = pop h q
  perform (cancels h) q = cancel h q

  -- A history of calls, and all completions in the order of their dispatch.
  unfoldable pub perform_all : List (Call T) → AsyncQueue T → AsyncQueue T × List (Completion T)
  perform_all [] q = (q, [])
  perform_all (c ∷ cs) q =
      let (q', out) = perform c q in let (q'', later) = perform_all cs q' in (q'', out ++ later)

  abbrev pub fresh : Call T → List T
  fresh (pushes v) = v ∷ []
  fresh (pops h) = []
  fresh (cancels h) = []

  abbrev pub pushed : List (Call T) → List T
  pushed [] = []
  pushed (c ∷ cs) = fresh c ++ pushed cs

  abbrev pub values : List (Completion T) → List T
  values [] = []
  values (completed h v ∷ cs) = v ∷ values cs
  values (aborted h ∷ cs) = values cs

  -- Nobody waits while a value is queued.
  abbrev pub IsIdle : AsyncQueue T → Type ℓ
  IsIdle q = (q.queue ≡ []) ⊎ (q.waiters ≡ [])

  pub values-append : (xs ys : List (Completion T)) → values (xs ++ ys) ≡ values xs ++ values ys
  values-append [] ys = refl
  values-append (completed h v ∷ xs) ys = ap (◌∷◌ v) (values-append xs ys)
  values-append (aborted h ∷ xs) ys = values-append xs ys

  -- One call: the values that it delivers come before those that stay.
  abbrev pub Conserves : AsyncQueue T → List T → AsyncQueue T × List (Completion T) → Type ℓ
  Conserves q new r = IsIdle r.0 × (q.queue ++ new ≡ values r.1 ++ r.0.queue)

  push-Conserves :
      (v : T) (vs : List T) (ws : List ℕ)
      → IsIdle (record { queue = vs; waiters = ws })
      → Conserves
          (record { queue = vs; waiters = ws })
          (v ∷ [])
          (push v (record { queue = vs; waiters = ws }))
  unfolding push
  push-Conserves v vs [] i = (inr refl, refl)
  push-Conserves v [] (w ∷ ws) i = (inl refl, refl)
  push-Conserves v (x ∷ vs) (w ∷ ws) (inl e) = cc
  push-Conserves v (x ∷ vs) (w ∷ ws) (inr e) = cc

  pop-Conserves :
      (h : ℕ) (vs : List T) (ws : List ℕ)
      → IsIdle (record { queue = vs; waiters = ws })
      → Conserves
          (record { queue = vs; waiters = ws })
          []
          (pop h (record { queue = vs; waiters = ws }))
  unfolding pop
  pop-Conserves h [] ws i = (inl refl, refl)
  pop-Conserves h (v ∷ vs) ws (inl e) = cc
  pop-Conserves h (v ∷ vs) ws (inr e) = (inr e, append-nil (v ∷ vs))

  cancel-Conserves : (h : ℕ) (q : AsyncQueue T) → IsIdle q → Conserves q [] (cancel h q)
  unfolding cancel
  cancel-Conserves h q (inl e) = (inl e, append-nil q.queue)
  cancel-Conserves h q (inr e) = (inr (rw e refl), append-nil q.queue)

  pub perform-Conserves :
      (c : Call T) (q : AsyncQueue T) → IsIdle q → Conserves q (fresh c) (perform c q)
  perform-Conserves (pushes v) q i = push-Conserves v q.queue q.waiters i
  perform-Conserves (pops h) q i = pop-Conserves h q.queue q.waiters i
  perform-Conserves (cancels h) q i = cancel-Conserves h q i

  -- The values in the queue and those pushed by any history of pushes, pops and cancellations are,
  -- in order, the values delivered and those left in the queue: none is lost, repeated or
  -- reordered, and nobody is left waiting while a value is queued.
  pub perform_all_fifo :
      (cs : List (Call T)) (q : AsyncQueue T)
      → IsIdle q
      → let r = perform_all cs q in IsIdle r.0 × (q.queue ++ pushed cs ≡ values r.1 ++ r.0.queue)
  unfolding perform_all
  perform_all_fifo [] q i = (i, append-nil q.queue)
  perform_all_fifo (c ∷ cs) q i =
      let (i', now) = perform-Conserves c q i in
      let (i'', later) = perform_all_fifo cs (perform c q).0 i' in
      let q' = (perform c q).0 in
      let out = (perform c q).1 in
      let rest = perform_all cs q' in
      (
        i'',
        q.queue ++ (fresh c ++ pushed cs)
            ≡⟨ sym (append_assoc q.queue (fresh c) (pushed cs)) ⟩ (q.queue ++ fresh c) ++ pushed cs
            ≡⟨ ap (λ l. l ++ pushed cs) now ⟩ (values out ++ q'.queue) ++ pushed cs
            ≡⟨ append_assoc (values out) q'.queue (pushed cs) ⟩
              values out ++ (q'.queue ++ pushed cs)
            ≡⟨ ap (◌++◌ (values out)) later ⟩ values out ++ (values rest.1 ++ rest.0.queue)
            ≡⟨ sym (append_assoc (values out) (values rest.1) rest.0.queue) ⟩
              (values out ++ values rest.1) ++ rest.0.queue
            ≡⟨ ap (λ l. l ++ rest.0.queue) (sym (values-append out rest.1)) ⟩
              values (out ++ rest.1) ++ rest.0.queue ∎,
      )
