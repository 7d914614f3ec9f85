-- ===== src/AsyncQueue/Handlers.antt =====
-- Lists of handlers, as the queue and the value of include/utils/async_queue.hpp and async_value.hpp
-- keep them, with some of them chosen.
use mathlib.Core.List.{append_assoc}
use file_hop_z.Base.{
  ℕ, ◌≡◌, refl, ap, sym, ◌∙◌, Bool, false, List, [], ◌∷◌, ◌++◌, ◌==◌, ◌||◌, if◌then◌else◌, arith,
}
use file_hop_z.AsyncQueue.{remove_waiter}

-- The chosen ones, in their order.
unfoldable pub keep : (ℕ → Bool) → List ℕ → List ℕ
keep f [] = []
keep f (h ∷ hs) = let rest = keep f hs in if f h then h ∷ rest else rest

unfoldable pub has : ℕ → List ℕ → Bool
has h [] = false
has h (w ∷ ws) = w == h || has h ws

pub keep-append : (f : ℕ → Bool) (xs ys : List ℕ) → keep f (xs ++ ys) ≡ keep f xs ++ keep f ys
unfolding keep
keep-append f [] ys = refl
keep-append f (x ∷ xs) ys = ground (arith, keep-append f xs ys)

pub has-append : (h : ℕ) (xs ys : List ℕ) → has h (xs ++ ys) ≡ (has h xs || has h ys)
unfolding has
has-append h [] ys = refl
has-append h (x ∷ xs) ys = ground (arith, has-append h xs ys)

-- Removing a handler that is not chosen leaves the chosen ones.
pub keep-remove_waiter :
    (f : ℕ → Bool) (h : ℕ) (ws : List ℕ) → f h ≡ false → keep f (remove_waiter h ws) ≡ keep f ws
unfolding keep remove_waiter
keep-remove_waiter f h [] e = refl
keep-remove_waiter f h (w ∷ ws) e = ground (arith, keep-remove_waiter f h ws)

pub has-remove_waiter : (h : ℕ) (ws : List ℕ) → has h (remove_waiter h ws) ≡ false
unfolding has remove_waiter
has-remove_waiter h [] = refl
has-remove_waiter h (w ∷ ws) = ground (arith, has-remove_waiter h ws)

pub has-remove_other :
    (h k : ℕ) (ws : List ℕ) → has h ws ≡ false → has h (remove_waiter k ws) ≡ false
unfolding has remove_waiter
has-remove_other h k [] e = refl
has-remove_other h k (w ∷ ws) e = ground (arith, has-remove_other h k ws)

pub unchosen : (f : ℕ → Bool) (h : ℕ) → keep f (h ∷ []) ≡ [] → f h ≡ false
unfolding keep
unchosen f h e = ground arith

-- What came out and what stayed of two steps in a row.
pub append-steps {ℓ} :
    {A : Type ℓ} (first new now then_left more later left : List A)
    → first ++ new ≡ now ++ then_left
    → then_left ++ more ≡ later ++ left
    → first ++ (new ++ more) ≡ (now ++ later) ++ left
append-steps first new now then_left more later left e g =
    sym (append_assoc first new more)
    ∙ ap (λ l. l ++ more) e
    ∙ append_assoc now then_left more
    ∙ ap (◌++◌ now) g
    ∙ sym (append_assoc now later left)
