-- ===== src/Transport/Delivery.antt =====
-- A packet that arrives once or many times is passed on once.
use file_hop_z.Base.{
  ℕ, ◌+◌, ◌≤◌, ◌≡◌, refl, Bool, true, false, List, [], ◌∷◌, ◌++◌, map, arith, ◌==◌, ◌&&◌,
  if◌then◌else◌,
}
use file_hop_z.Packet.{Packet, PacketType}
use file_hop_z.AsyncQueue
use file_hop_z.AsyncQueue.{AsyncQueue, Completion, completed}
use file_hop_z.Host.{Host}
use file_hop_z.Transport.{Transport, Effect, wake_receiver, wake_sender, wake_drainer}
use file_hop_z.Transport.Receive.{member, deliver}

-- The types that the receiving loop passes on.
abbrev pub is_passed : PacketType → Bool
is_passed PacketType.payload_data = true
is_passed PacketType.handshake = true
is_passed _ = false

-- Whether the packet is a copy of the one numbered `s`.
abbrev pub is_copy : ℕ → Packet → ℕ
is_copy s p = if p.header.sequence == s && is_passed p.header.type then 1 else 0

abbrev pub copies : ℕ → List Packet → ℕ
copies s [] = 0
copies s (p ∷ ps) = is_copy s p + copies s ps

pub copies-append : (s : ℕ) (ps qs : List Packet) → copies s (ps ++ qs) ≡ copies s ps + copies s qs
copies-append s [] qs = omega arith
copies-append s (p ∷ ps) qs = omega (arith, copies-append s ps qs)

module _ (H : Host) where
  -- The copies that one effect hands to a waiting reader.
  abbrev pub hands : ℕ → Effect H → ℕ
  hands s (wake_receiver (completed h p)) = is_copy s p
  hands s _ = 0

  abbrev pub handed : ℕ → List (Effect H) → ℕ
  handed s [] = 0
  handed s (e ∷ es) = hands s e + handed s es

  pub handed-append :
      (s : ℕ) (xs ys : List (Effect H)) → handed s (xs ++ ys) ≡ handed s xs + handed s ys
  handed-append s [] ys = omega arith
  handed-append s (x ∷ xs) ys = omega (arith, handed-append s xs ys)

  pub handed_senders :
      (s : ℕ) (cs : List (Completion H.float.Double)) → handed s (map wake_sender cs) ≡ 0
  handed_senders s [] = refl
  handed_senders s (c ∷ cs) = omega (arith, handed_senders s cs)

  pub handed_drainers : (s : ℕ) (cs : List (Completion Bool)) → handed s (map wake_drainer cs) ≡ 0
  handed_drainers s [] = refl
  handed_drainers s (c ∷ cs) = omega (arith, handed_drainers s cs)

  -- How often the packet may still be passed on, and how often it is queued.
  abbrev pub credit : ℕ → Transport H → ℕ
  credit s t =
      (if member s t.received_packets then 0 else 1) + copies s t.received_packets_queue.queue

  -- What a step hands out is paid from the credit.
  abbrev pub IsPaid : ℕ → Transport H → Transport H × List (Effect H) → Type 0
  IsPaid s t r = handed s r.1 + credit s r.0 ≤ credit s t

  push_parts :
      (s : ℕ) (p : Packet) (ps : List Packet) (ws : List ℕ)
      → handed s (map wake_receiver (AsyncQueue.push p (record { queue = ps; waiters = ws })).1)
          + copies s (AsyncQueue.push p (record { queue = ps; waiters = ws })).0.queue
        ≡ is_copy s p + copies s ps
  unfolding AsyncQueue.push
  push_parts s p ps [] = omega (arith, copies-append s ps (p ∷ []))
  push_parts s p ps (w ∷ ws) = omega arith

  -- A push moves one packet to a reader or to the queue.
  pub copies-push :
      (s : ℕ) (p : Packet) (q : AsyncQueue Packet)
      → handed s (map wake_receiver (AsyncQueue.push p q).1)
          + copies s (AsyncQueue.push p q).0.queue
        ≡ is_copy s p + copies s q.queue
  copies-push s p q = push_parts s p q.queue q.waiters

  pop_parts :
      (s h : ℕ) (ps : List Packet) (ws : List ℕ)
      → handed s (map wake_receiver (AsyncQueue.pop h (record { queue = ps; waiters = ws })).1)
          + copies s (AsyncQueue.pop h (record { queue = ps; waiters = ws })).0.queue
        ≡ copies s ps
  unfolding AsyncQueue.pop
  pop_parts s h [] ws = omega arith
  pop_parts s h (p ∷ ps) ws = omega arith

  -- A pop moves none, or one from the queue to the reader.
  pub copies-pop :
      (s h : ℕ) (q : AsyncQueue Packet)
      → handed s (map wake_receiver (AsyncQueue.pop h q).1) + copies s (AsyncQueue.pop h q).0.queue
        ≡ copies s q.queue
  copies-pop s h q = pop_parts s h q.queue q.waiters

  -- A packet that was not seen is paid by its own credit.
  pub deliver-IsPaid :
      (s : ℕ) (p : Packet) (t : Transport H)
      → member p.header.sequence t.received_packets ≡ false
      → IsPaid s t (deliver H p t)
  unfolding deliver member
  deliver-IsPaid s p t new = ground (arith, copies-push s p t.received_packets_queue)
