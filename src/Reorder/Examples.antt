-- ===== src/Reorder/Examples.antt =====
-- The loop at concrete packets.
use file_hop_z.Base.{
  ℕ, zero, suc, ◌+◌, ◌≤◌, ◌<◌, ◌≡◌, refl, true, none, List, [], ◌∷◌, arith, length,
}
use file_hop_z.Base.Dict.{Dict, lookup, erase, insert}
use file_hop_z.Packet.{Packet, PacketType}
use file_hop_z.Reorder.{
  Window, packet_chunk, initial_window, flush, buffer_packet, accept, accept_all,
}
use file_hop_z.Reorder.Flush.{chunks}
use file_hop_z.Reorder.Order.{Arrives, Accepted, accept-Accepted}
use file_hop_z.Reorder.Complete.{
  accept_all_complete, accept_all-Delivered, initial_window-InOrder, initial_window-SeenAtMost,
  Delivered, arrived, Traffic, Traffic-Orderly,
}
use file_hop_z.Reorder.Limits.{accept_all_wrapped, accept_full}

abbrev numbered : ℕ → Packet
numbered s = record {
  header = record { type = PacketType.payload_data; flags = 0; size = 1; sequence = s };
  region = s ∷ [];
}

abbrev confirmation : Packet
confirmation = record {
  header = record { type = PacketType.handshake; flags = 0; size = 0; sequence = 0 };
  region = [];
}

abbrev shuffled : List Packet
shuffled = numbered 3 ∷ numbered 2 ∷ confirmation ∷ numbered 3 ∷ numbered 1 ∷ numbered 2 ∷ []

accept_all_runs : accept_all shuffled initial_window ≡ (
  record { buffer = []; expected = 4 },
  packet_chunk (numbered 1) ∷ packet_chunk (numbered 2) ∷ packet_chunk (numbered 3) ∷ [],
)
unfolding accept_all accept buffer_packet flush lookup insert erase
accept_all_runs = refl

accept_waits : (accept (numbered 2) initial_window).1 ≡ []
unfolding accept buffer_packet flush lookup insert erase
accept_waits = refl

all_arrived : (s : ℕ) → 1 ≤ s → s ≤ 3 → arrived s shuffled ≡ true
all_arrived s low high = ground arith

shuffled-Traffic : Traffic numbered 3 shuffled
shuffled-Traffic = (
  λ d. (refl, omega arith, omega arith),
  (
    λ d. (refl, omega arith, omega arith),
    (
      (λ d. cc),
      (
        λ d. (refl, omega arith, omega arith),
        (λ d. (refl, omega arith, omega arith), (λ d. (refl, omega arith, omega arith), tt)),
      ),
    ),
  ),
)

accept_all_complete_example :
    accept_all shuffled initial_window ≡ (record { buffer = []; expected = 4 }, chunks numbered 1 3)
accept_all_complete_example =
    accept_all_complete numbered 3 shuffled (omega arith) shuffled-Traffic all_arrived

first-Arrives : Arrives numbered initial_window (numbered 2)
first-Arrives = record { genuine = λ d. refl; inside = λ d. omega arith; small = omega arith }

accept_kept :
    (n : ℕ) × Accepted numbered (numbered 2) initial_window (accept (numbered 2) initial_window) n
accept_kept =
    accept-Accepted numbered initial_window (numbered 2) (initial_window-InOrder numbered)
      first-Arrives

-- All three packets are delivered, as `accept_all_runs` computes.
accept_all-Delivered_example :
    (n : ℕ) × Delivered numbered shuffled initial_window
      (
        record { buffer = []; expected = 4 },
        packet_chunk (numbered 1) ∷ packet_chunk (numbered 2) ∷ packet_chunk (numbered 3) ∷ [],
      )
      n
unfolding accept_all accept buffer_packet flush lookup insert erase
accept_all-Delivered_example =
    accept_all-Delivered numbered shuffled initial_window (initial_window-InOrder numbered) (
      Traffic-Orderly numbered 3 shuffled initial_window (omega arith)
        (initial_window-InOrder numbered) (omega arith) (initial_window-SeenAtMost 3)
        shuffled-Traffic)

abbrev late_window : Window
late_window = record { buffer = []; expected = 0xffff_0000 }

accept_all_wrapped_example :
    accept_all (numbered 0xffff_0000 ∷ numbered 1 ∷ []) late_window ≡ (late_window, [])
accept_all_wrapped_example =
    accept_all_wrapped (numbered 0xffff_0000 ∷ numbered 1 ∷ []) late_window (omega arith)
      (omega arith)

-- `n` packets from number `from` on.
waiting : ℕ → ℕ → Dict Packet
waiting zero from = []
waiting (suc n) from = (from, numbered from) ∷ waiting n (from + 1)

length-waiting : (n from : ℕ) → length (waiting n from) ≡ n
unfolding waiting
length-waiting zero from = refl
length-waiting (suc n) from = omega (arith, length-waiting n (from + 1))

lookup-waiting : (n from s : ℕ) → s < from → lookup s (waiting n from) ≡ none
unfolding waiting lookup
lookup-waiting zero from s h = refl
lookup-waiting (suc n) from s h = ground (arith, lookup-waiting n (from + 1) s)

accept_full_example :
    accept (numbered 1) (record { buffer = waiting 65536 2; expected = 1 })
    ≡ (record { buffer = []; expected = 2 }, packet_chunk (numbered 1) ∷ [])
accept_full_example =
    accept_full (numbered 1) (record { buffer = waiting 65536 2; expected = 1 }) refl refl
      (lookup-waiting 65536 2 1 (omega arith)) (omega (arith, length-waiting 65536 2)) (omega arith)
