-- ===== src/Sender/Handed.antt =====
-- A list of packets that is handed to a stream until one of them is refused: what the sends of
-- src/sender/sender.cpp come to.
use file_hop_z.Base.{
  ℕ, zero, suc, ◌+◌, ◌<◌, ◌≡◌, refl, sym, ap, ◌∙◌, inl, inr, true, false, List, [], ◌∷◌, ◌++◌, take,
  length, length-append, if◌then◌else◌, arith, Bool-cases,
}
use mathlib.Core.List.{append_assoc, append-nil}
use file_hop_z.Errors.{BoostError, failed}
use file_hop_z.Ftp.{Packet}
use file_hop_z.Sender.Sites.{unless_failed, hand}

-- The end of the transfer: what closing returns, unless there was an error.
abbrev pub close_after : BoostError → List Packet × BoostError → List Packet × BoostError
close_after closed (packets, ec) = (packets, if failed ec then ec else closed)

module _ (send : ℕ → BoostError) where
  -- Packets are handed over until one is refused; `ec` is the error that follows the last of them.
  unfoldable pub hand_all : List Packet → List Packet → BoostError → List Packet × BoostError
  hand_all handed [] ec = (handed, ec)
  hand_all handed (p ∷ ps) ec =
      let rest = hand_all (handed ++ (p ∷ [])) ps ec in
      if failed (send (length handed)) then hand send p handed else rest

  pub hand_all-append :
      (handed ps qs : List Packet) (ec ec' : BoostError)
      → failed ec ≡ false
      → unless_failed (hand_all handed ps ec) (λ h. hand_all h qs ec')
        ≡ hand_all handed (ps ++ qs) ec'
  unfolding hand_all
  hand_all-append handed [] qs ec ec' e = rw e refl
  hand_all-append handed (p ∷ ps) qs ec ec' e = elim (Bool-cases (failed (send (length handed)))) [
    | inl f ↦ rw (f, f) refl
    | inr f ↦ rw f (hand_all-append (handed ++ (p ∷ [])) ps qs ec ec' e)
  ]

  hand_all_ended :
      (handed ps : List Packet) (ec : BoostError) (go : List Packet → List Packet × BoostError)
      → failed ec ≡ true
      → unless_failed (hand_all handed ps ec) go ≡ hand_all handed ps ec
  unfolding hand_all
  hand_all_ended handed [] ec go e = rw e refl
  hand_all_ended handed (p ∷ ps) ec go e = elim (Bool-cases (failed (send (length handed)))) [
    | inl f ↦ rw (f, f) refl
    | inr f ↦ rw f (hand_all_ended (handed ++ (p ∷ [])) ps ec go e)
  ]

  pub unless_failed_ext :
      (r : List Packet × BoostError) (go go' : List Packet → List Packet × BoostError)
      → ((h : List Packet) → go h ≡ go' h)
      → unless_failed r go ≡ unless_failed r go'
  unless_failed_ext (handed, ec) go go' e =
      ap (λ r. if failed ec then (handed, ec) else r) (e handed)

  hand_all_closed :
      (closed : BoostError) (handed ps : List Packet) (ec : BoostError)
      → failed ec ≡ true
      → close_after closed (hand_all handed ps ec) ≡ hand_all handed ps ec
  unfolding hand_all
  hand_all_closed closed handed [] ec e = rw e refl
  hand_all_closed closed handed (p ∷ ps) ec e = elim (Bool-cases (failed (send (length handed)))) [
    | inl f ↦ rw (f, f) refl
    | inr f ↦ rw f (hand_all_closed closed (handed ++ (p ∷ [])) ps ec e)
  ]

  close_after-unless_failed :
      (closed : BoostError) (r : List Packet × BoostError)
      (go : List Packet → List Packet × BoostError)
      → unless_failed r (λ h. close_after closed (go h)) ≡ close_after closed (unless_failed r go)
  close_after-unless_failed closed (handed, ec) go = elim (Bool-cases (failed ec)) [
    | inl f ↦ rw (f, f) refl
    | inr f ↦ rw f refl
  ]

  pub entry_then :
      (closed : BoostError) (handed packets later : List Packet) (ec ec' : BoostError)
      (go : List Packet → List Packet × BoostError)
      → ((h : List Packet) → go h ≡ close_after closed (hand_all h later ec'))
      → let r : List Packet × BoostError =
          if failed ec then (packets, ec) else (packets ++ later, ec') in
        unless_failed (hand_all handed packets ec) go ≡ close_after closed (hand_all handed r.0 r.1)
  entry_then closed handed packets later ec ec' go e = elim (Bool-cases (failed ec)) [
    | inl f ↦
        rw f
          (hand_all_ended handed packets ec go f ∙ sym (hand_all_closed closed handed packets ec f))
    | inr f ↦ rw f (
        unless_failed_ext (hand_all handed packets ec) go
          (λ h. close_after closed (hand_all h later ec')) e
        ∙ close_after-unless_failed closed (hand_all handed packets ec) (λ h. hand_all h later ec')
        ∙ ap (close_after closed) (hand_all-append handed packets later ec ec' f))
  ]

  pub hand_all_refused :
      (handed ps : List Packet) (ec : BoostError) (k : ℕ)
      → ((j : ℕ) → j < k → failed (send (length handed + j)) ≡ false)
      → failed (send (length handed + k)) ≡ true
      → k < length ps
      → hand_all handed ps ec ≡ (handed ++ take (suc k) ps, send (length handed + k))
  unfolding hand_all
  hand_all_refused handed [] ec k took bad h = absurd (omega arith)
  hand_all_refused handed (p ∷ ps) ec zero took bad h =
      let here : length handed + 0 ≡ length handed = omega arith in
      let first : failed (send (length handed)) ≡ true =
        ap (λ n. failed (send n)) (sym here) ∙ bad in
      rw (first, here) refl
  hand_all_refused handed (p ∷ ps) ec (suc k) took bad h =
      let first : failed (send (length handed)) ≡ false =
        ap (λ n. failed (send n)) (omega arith) ∙ took 0 (omega arith) in
      let next : (j : ℕ) → length (handed ++ (p ∷ [])) + j ≡ length handed + suc j =
        λ j. omega (arith, length-append handed (p ∷ [])) in
      rw first (
        hand_all_refused (handed ++ (p ∷ [])) ps ec k
          (λ j l. ap (λ n. failed (send n)) (next j) ∙ took (suc j) (omega arith))
          (ap (λ n. failed (send n)) (next k) ∙ bad) (omega arith)
        ∙ ap (λ l. (l, send (length (handed ++ (p ∷ [])) + k)))
            (append_assoc handed (p ∷ []) (take (suc k) ps))
        ∙ ap (λ n. (handed ++ (p ∷ take (suc k) ps), send n)) (next k))

  pub hand_all_taken :
      (handed ps : List Packet) (ec : BoostError)
      → ((j : ℕ) → failed (send j) ≡ false)
      → hand_all handed ps ec ≡ (handed ++ ps, ec)
  unfolding hand_all
  hand_all_taken handed [] ec took = ap (λ l. (l, ec)) (sym (append-nil handed))
  hand_all_taken handed (p ∷ ps) ec took = rw (took (length handed)) (
      hand_all_taken (handed ++ (p ∷ [])) ps ec took
      ∙ ap (λ l. (l, ec)) (append_assoc handed (p ∷ []) ps))
