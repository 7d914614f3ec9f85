-- ===== src/Transport/Acks.antt =====
-- Acknowledgements: what one does to the packets in flight, and that all of them drain the link.
use file_hop_z.Base.{ℕ, ◌≡◌, Bool, true, List, [], ◌∷◌, ◌++◌, map}
use file_hop_z.Base.Dict.{Dict, contains}
use file_hop_z.AsyncQueue.{Completion, completed}
use file_hop_z.AsyncValue
use file_hop_z.AsyncValue.{AsyncValue}
use file_hop_z.Host.{Host}
use file_hop_z.Transport.{Transport, PacketLocal, Effect, wake_drainer}
use file_hop_z.Transport.Ack.{ack_handler}
use file_hop_z.Transport.Receive.{member}

module _ (H : Host) where
  -- What those who wait for the link to drain are told, in the order of the telling.
  abbrev pub drainers : List (Effect H) → List (Completion Bool)
  drainers [] = []
  drainers (wake_drainer c ∷ es) = c ∷ drainers es
  drainers (_ ∷ es) = drainers es

  -- Everyone in the list is told that the link has drained.
  abbrev pub all_told : List ℕ → List (Completion Bool)
  all_told = map (λ w. completed w true)

  -- Those who were told and those who still wait are those who waited.
  abbrev Tells : Transport H → Transport H × List (Effect H) → Type 0
  Tells t r =
      drainers r.1 ++ all_told r.0.drained_signal.waiters ≡ all_told t.drained_signal.waiters

  -- The acknowledgements arrive one after the other.
  unfoldable pub ack_all : List ℕ → Transport H → Transport H × List (Effect H)
  ack_all [] t = (t, [])
  ack_all (n ∷ ns) t =
      let (t', out) = ack_handler H n t in let (t'', later) = ack_all ns t' in (t'', out ++ later)

  -- The signal is set and nobody waits for it, if nothing is in flight.
  abbrev pub IsArmed : Transport H → Type 0
  IsArmed t = t.in_flight ≡ [] → (t.drained_signal.value ≡ true) × (t.drained_signal.waiters ≡ [])

  -- Every packet in flight has its number in the list.
  abbrev pub IsCovered : List ℕ → Dict PacketLocal → Type 0
  IsCovered ns d = (k : ℕ) → contains k d ≡ true → member k ns ≡ true
