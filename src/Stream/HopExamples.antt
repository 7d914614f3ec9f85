-- ===== src/Stream/HopExamples.antt =====
-- Data on its way between two concrete streams.
use file_hop_z.Base.{◌≡◌, refl, true, some, [], ◌∷◌, arith, replicate}
use file_hop_z.Base.Dict.{lookup}
use file_hop_z.Errors.{success, ok}
use file_hop_z.Packet.{Packet, received, datagram}
use file_hop_z.Crypto.{encrypt_data}
use file_hop_z.Crypto.Toy.{toy_ssl-IsAead}
use file_hop_z.AsyncQueue.{completed}
use file_hop_z.Host.FixedPoint.{toy_host}
use file_hop_z.Transport.{Transport, wake_receiver}
use file_hop_z.Transport.Ack.{send_ack}
use file_hop_z.Transport.Examples.{blank, idle}
use file_hop_z.Transport.Receive.{member}
use file_hop_z.Transport.Send.{send_packet}
use file_hop_z.Transport.Step.{datagram_arrived}
use file_hop_z.Reorder.{Chunk, initial_window}
use file_hop_z.Stream.{stream_packet, transport_asks, wake_reader}
use file_hop_z.Stream.Calls.{
  spawn_loop, shaken, shake_start, handshake_ended, send_call, receive_call, closed, forwarding,
  refused, Connection, new_connection, close_stopped, handshake_received, send, run_call, forward,
}
use file_hop_z.Stream.Calls
use file_hop_z.Stream.Machine.{
  Event, chunk_popped, packet_popped, transport_event, asks, stands, step,
}
use file_hop_z.Stream.Arrival.{heard}
use file_hop_z.Stream.Hop.{receive-send}
use file_hop_z.Stream.RunExamples.{running, sealed_packet}

abbrev session : Transport toy_host
session = record idle {
  connection_encrypted = true;
  sequence_counter = 1;
  crypto_context = record blank { is_ready = true; encryption_key = 3 ∷ [] };
}

abbrev talking : Connection toy_host
talking = record running { stream = record running.stream { transport = session } }

abbrev listening : Connection toy_host
listening = record running {
  stream = record running.stream {
    transport = record session { received_packets_queue = record { queue = []; waiters = 6 ∷ [] } };
  };
}

abbrev pair_chunk : Chunk
pair_chunk = record { size = 2; bytes = some (7 ∷ 8 ∷ []) }

abbrev arrival : Event toy_host
arrival =
    transport_event (datagram_arrived 40 9 (received (replicate 50 1) (datagram sealed_packet)))

receive-send_example :
    (r : Packet) × ((step toy_host arrival listening).1
      ≡ asks (transport_asks (send_ack toy_host 1 (heard toy_host 40 9 listening.stream.transport)))
        ∷ asks (transport_asks (wake_receiver (completed 6 r)))
        ∷ [])
    × ((step toy_host (packet_popped 6 success r) (step toy_host arrival listening).0).1
        ≡ asks (wake_reader (completed 4 pair_chunk)) ∷ [])
    × ((step toy_host
          (chunk_popped 4 success pair_chunk)
          (step toy_host (packet_popped 6 success r) (step toy_host arrival listening).0).0).1
        ≡ stands 4 (Calls.chunk_received (ok pair_chunk)) ∷ [])
unfolding Calls.send run_call forward stream_packet send_packet encrypt_data member lookup
receive-send_example =
    receive-send toy_host toy_ssl-IsAead (replicate 12 9) (replicate 40 0) (replicate 50 1)
      (7 ∷ 8 ∷ []) 2 6 5 30 40 6 4 9 initial_window sealed_packet talking listening refl
      (omega arith) refl
      (record { sends_encrypted = refl; reads_encrypted = refl; ready = refl; agreed = refl })
      (record {
        loop_waits = refl;
        window = refl;
        buffer_empty = refl;
        reader_waits = refl;
        stream_fine = refl;
        transport_fine = refl;
      })
      refl (omega arith) refl refl refl
