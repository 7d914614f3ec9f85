-- ===== src/Transfer/NetworkExamples.antt =====
-- A session over the stream at concrete entries and events.
use file_hop_z.Base.{
  ℕ, suc, zero, ◌-◌, ◌≤◌, ◌≡◌, refl, true, List, [], ◌∷◌, ◌++◌, length, take_all, arith, inl, map,
  drop,
}
use file_hop_z.Base.Bytes.{Bytes}
use file_hop_z.Errors.{success, ok}
use file_hop_z.Packet
use file_hop_z.Packet.{PacketType, content}
use file_hop_z.Transport.Receive.{receive_packet}
use file_hop_z.Reorder.Complete.{Traffic, arrived}
use file_hop_z.Stream.Steady.{IsSteady, taken}
use file_hop_z.Stream.Calls
use file_hop_z.Base.Dict.{lookup, insert, erase}
use file_hop_z.Reorder.{accept, buffer_packet, flush}
use file_hop_z.AsyncQueue
use file_hop_z.Host.FixedPoint.{toy_host}
use file_hop_z.Stream.Machine.{step, run, Event, packet_popped, receive_called}
use file_hop_z.Stream.RunExamples.{running}
use file_hop_z.Ftp
use file_hop_z.Ftp.{as_bytes}
use file_hop_z.Sender.{announce_packet, send_entries, path_handler, file_packets, read_chunks}
use file_hop_z.Ftp.Symlink.{symlink_packet}
use file_hop_z.Transfer.Examples.{
  entries, no_header, willing, willing-IsReliable, output, name, disk, staging, disk-IsOutput,
  staged-IsTree, final-IsTree, lines,
}
use file_hop_z.Transfer.Network.{
  session_packets, Carry, chunk_bytes, results, first, network_copies,
}
use file_hop_z.Transfer.Session.{new_receiver}
use file_hop_z.Transfer.Entries.{placed}
use file_hop_z.FilePath.{parts, pieces, collapse}
use file_hop_z.Disk.{strip, same_name}
use file_hop_z.Builder.Commits.{builder_operations}
use file_hop_z.Builder.Staging.{staged}
use file_hop_z.Confirmation.{read_answer, confirm_transfer}
use file_hop_z.Receiver.{Receiver, closes, start_transfer}
use file_hop_z.Stream.Serving.{woken}

abbrev packets : List Ftp.Packet
packets = session_packets no_header [] entries

abbrev pick : ℕ → List Ftp.Packet → Ftp.Packet
pick k [] = announce_packet [] 0
pick zero (p ∷ ps) = p
pick (suc k) (p ∷ ps) = pick k ps

abbrev framed : ℕ → Bytes → Packet.Packet
framed k bytes = record {
  header = record { type = PacketType.payload_data; flags = 0; size = length bytes; sequence = k };
  region = bytes;
}

abbrev sent : ℕ → Packet.Packet
sent k = framed k (as_bytes (pick (k - 1) packets))

content-framed : (k : ℕ) (bytes : Bytes) → content (framed k bytes) ≡ bytes
content-framed k bytes = take_all (length bytes) bytes (omega arith)

-- The second packet arrives before the first and again at the end; a receive waits from the start.
abbrev events : List (Event toy_host)
events =
    packet_popped 6 success (sent 2)
    ∷ packet_popped 6 success (sent 1)
    ∷ receive_called 5 7 0 3
    ∷ packet_popped 6 success (sent 3)
    ∷ receive_called 5 7 0 3
    ∷ receive_called 5 7 0 3
    ∷ packet_popped 6 success (sent 4)
    ∷ packet_popped 6 success (sent 5)
    ∷ packet_popped 6 success (sent 2)
    ∷ receive_called 5 7 0 3
    ∷ packet_popped 6 success (sent 6)
    ∷ packet_popped 6 success (sent 7)
    ∷ receive_called 5 7 0 3
    ∷ receive_called 5 7 0 3
    ∷ []

-- What the receive loop meets.
abbrev taken_packets : List Packet.Packet
taken_packets = taken toy_host 6 events

events_arrived : (s : ℕ) → 1 ≤ s → s ≤ 7 → arrived s taken_packets ≡ true
events_arrived s low high = ground arith

events-Traffic : Traffic sent 7 taken_packets
events-Traffic = (
  (λ d. (refl, omega arith, omega arith)),
  (
    (λ d. (refl, omega arith, omega arith)),
    (
      (λ d. (refl, omega arith, omega arith)),
      (
        (λ d. (refl, omega arith, omega arith)),
        (
          (λ d. (refl, omega arith, omega arith)),
          (
            (λ d. (refl, omega arith, omega arith)),
            (
              (λ d. (refl, omega arith, omega arith)),
              ((λ d. (refl, omega arith, omega arith)), tt),
            ),
          ),
        ),
      ),
    ),
  ),
)

events-IsSteady : IsSteady toy_host 6 events running
unfolding receive_packet step Calls.receive Calls.run_call Calls.chunks_turn Calls.chunks_received
    Calls.push_all accept buffer_packet flush lookup insert erase AsyncQueue.push AsyncQueue.pop
events-IsSteady = (
  (refl, refl),
  (
    (refl, refl),
    (
      tt,
      (
        (refl, refl),
        (
          tt,
          (
            tt,
            (
              (refl, refl),
              ((refl, refl), ((refl, refl), (tt, ((refl, refl), ((refl, refl), (tt, (tt, tt))))))),
            ),
          ),
        ),
      ),
    ),
  ),
)

events_read : (run toy_host events running).0.stream.ready_chunks.queue ≡ []
unfolding receive_packet run step Calls.receive Calls.run_call Calls.chunks_turn
    Calls.chunks_received Calls.push_all accept buffer_packet flush lookup insert erase
    AsyncQueue.push AsyncQueue.pop
events_read = refl

packets-Carry : Carry sent 1 packets
unfolding send_entries path_handler file_packets read_chunks symlink_packet
packets-Carry = (
  content-framed 1 _,
  (
    content-framed 2 _,
    (
      content-framed 3 _,
      (content-framed 4 _, (content-framed 5 _, (content-framed 6 _, (content-framed 7 _, tt)))),
    ),
  ),
)

abbrev got : List Bytes
got = map chunk_bytes (woken toy_host (run toy_host events running).1)

network_copies_example :
    (r : Receiver (builder_operations willing)) × (start_transfer
        (builder_operations willing)
        (results [] (drop 1 got))
        (confirm_transfer
          (builder_operations willing)
          []
          []
          (ok (first got))
          lines
          (λ bytes. success)
          (new_receiver willing output name disk)).0
      ≡ (r, closes))
    × (r.file_builder ≡ staged output staging [] (disk ++ placed output entries))
unfolding send_entries path_handler file_packets read_chunks symlink_packet strip same_name parts
    pieces collapse read_answer lookup
network_copies_example =
    network_copies toy_host 6 willing willing-IsReliable output name disk [] [] [] no_header lines
      entries sent events running disk-IsOutput staged-IsTree final-IsTree
      (refl, (refl, (refl, tt))) (omega arith) refl
      (record { running = refl; window = refl; idle = inl refl }) refl events-IsSteady (omega arith)
      events-Traffic events_arrived packets-Carry events_read
