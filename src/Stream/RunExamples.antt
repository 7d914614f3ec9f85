-- ===== src/Stream/RunExamples.antt =====
-- The stream as a machine at concrete states and sequences of events.
use file_hop_z.Base.{
  ℕ, ◌≡◌, refl, true, false, none, some, List, [], ◌∷◌, ◌++◌, ◌≤◌, ◌||◌, not, arith, replicate, inl,
}
use file_hop_z.Base.Bytes.{Bytes}
use file_hop_z.Base.Dict.{lookup, insert}
use file_hop_z.Errors.{BoostError, success, ok, unexpected, make_error_code, ErrorCode}
use file_hop_z.Packet.{Packet, PacketType}
use file_hop_z.Crypto.{encrypt_data, init, set_peer_public_key, lexicographical_compare}
use file_hop_z.AsyncQueue
use file_hop_z.AsyncQueue.{completed}
use file_hop_z.Host.FixedPoint.{toy_host}
use file_hop_z.Transport.{start_loops, new_transport, end_packet}
use file_hop_z.Transport.Examples.{blank, idle}
use file_hop_z.Transport.Receive.{receive_packet}
use file_hop_z.Transport.Send.{send_packet, send_woken}
use file_hop_z.Transport.Timeout.{wait_in_flight_drained}
use file_hop_z.Transport.Handshake.{initiator_start, initiator_received}
use file_hop_z.Reorder.{initial_window, empty_chunk}
use file_hop_z.Reorder.Flush.{chunks}
use file_hop_z.Reorder.Complete.{arrived}
use file_hop_z.Stream.{
  end_start_loops, new_stream, close_loops, initiator, begin_loops, stream_packet, data_packet,
}
use file_hop_z.Stream.Calls.{
  spawn_loop, shaken, shake_start, handshake_ended, send_call, receive_call, closed, forwarding,
  refused, Connection, new_connection, close_stopped, handshake_sent, handshake_received, send,
  run_call, forward,
}
use file_hop_z.Stream.Calls
use file_hop_z.Stream.Machine.{
  Event, send_called, receive_called, chunk_popped, packet_popped, loop_cancelled, close_called,
  close_posted, key_arrived, stands, step, run,
}
use file_hop_z.Stream.Kept.{run_error_told}
use file_hop_z.Stream.Serving.{woken, readers}
use file_hop_z.Stream.Delivery.{run_delivers}
use file_hop_z.Stream.Closing.{run_closing_unheard}
use file_hop_z.Stream.Reopening.{reopened_refused}
use file_hop_z.Stream.Sealed.{IsSealedAs, IsSealed}
use file_hop_z.Stream.Confidential.{run_confidential, run_woken_confidential}

-- A stream whose loop is the coroutine 6, and which the receive 4 waits at.
abbrev pub running : Connection toy_host
running = record {
  stream = record {
    handshake_mode = initiator;
    transport = record idle { received_packets_queue = record { queue = []; waiters = 6 ∷ [] } };
    ready_chunks = record { queue = []; waiters = 4 ∷ [] };
    loops_running = true;
    stopping_loops = false;
    stream_error = success;
  };
  loops = (6, initial_window) ∷ [];
}

abbrev idle_error : BoostError
idle_error = make_error_code ErrorCode.connection_idle_timeout

abbrev lost : Connection toy_host
lost = record running { stream = record running.stream { stream_error = idle_error } }

run_error_told_example :
    let c' = (run toy_host (close_called 8 ∷ receive_called 3 6 0 1 ∷ []) lost).0 in
    (step toy_host (receive_called 5 6 0 2) c'
      ≡ (c', stands 5 (Calls.chunk_received (unexpected idle_error)) ∷ []))
    × (step toy_host (chunk_popped 5 success empty_chunk) c'
        ≡ (c', stands 5 (Calls.chunk_received (unexpected idle_error)) ∷ []))
    × ((close_stopped toy_host c').2 ≡ closed idle_error)
unfolding make_error_code
run_error_told_example =
    run_error_told toy_host (close_called 8 ∷ receive_called 3 6 0 1 ∷ []) lost 5 6 0 2 empty_chunk
      success refl refl refl

abbrev sent : ℕ → Packet
sent s = record {
  header = record { type = PacketType.payload_data; flags = 0; size = 1; sequence = s };
  region = s ∷ [];
}

-- The second packet arrives first; the receives 4 and 5 take the two chunks.
abbrev swapped : List (Event toy_host)
swapped =
    packet_popped 6 success (sent 2)
    ∷ receive_called 5 7 0 3
    ∷ packet_popped 6 success (sent 1)
    ∷ []

swapped_arrived : (s : ℕ) → 1 ≤ s → s ≤ 2 → arrived s (sent 2 ∷ sent 1 ∷ []) ≡ true
swapped_arrived s low high = ground arith

run_delivers_example :
    woken toy_host (run toy_host swapped running).1
      ++ (run toy_host swapped running).0.stream.ready_chunks.queue
    ≡ chunks sent 1 2
unfolding lookup receive_packet step Calls.receive
run_delivers_example =
    run_delivers toy_host 6 sent 2 swapped running
      (record { running = refl; window = refl; idle = inl refl }) refl
      ((refl, refl), (tt, ((refl, refl), tt))) (omega arith)
      ((λ d. (refl, omega arith, omega arith)), ((λ d. (refl, omega arith, omega arith)), tt))
      swapped_arrived

-- `close` ends while the receive 4 waits.
abbrev closing : List (Event toy_host)
closing =
    close_called 8
    ∷ loop_cancelled 6
    ∷ packet_popped 6 toy_host.operation_aborted (sent 0)
    ∷ close_posted 8
    ∷ []

run_closing_unheard_example :
    ((run toy_host closing running).0.stream.ready_chunks ≡ record { queue = []; waiters = 4 ∷ [] })
    × ((run toy_host closing running).0.stream.stream_error ≡ success)
    × (readers toy_host (run toy_host closing running).1 ≡ [])
unfolding receive_packet step Calls.close wait_in_flight_drained close_loops
run_closing_unheard_example =
    run_closing_unheard toy_host closing running (tt, (tt, ((refl, refl), (tt, tt))))

abbrev closed_idle : Connection toy_host
closed_idle = record running { stream = record running.stream { transport = idle } }

reopened_refused_example :
    ((AsyncQueue.pop 3
        (begin_loops toy_host 50 (close_stopped toy_host closed_idle).0.stream
          ).transport.received_packets_queue).1
      ≡ completed 3 (end_packet toy_host 70001) ∷ [])
    × ((handshake_received toy_host receive_call 3 9 60 none success
          (end_packet toy_host 70001)
          closed_idle).2
        ≡ refused receive_call (make_error_code ErrorCode.invalid_handshake_key_size))
reopened_refused_example =
    reopened_refused toy_host closed_idle closed_idle receive_call 3 9 50 60 none refl

abbrev peer_key : Packet
peer_key = record {
  header = record { type = PacketType.handshake; flags = 0; size = 32; sequence = 0 };
  region = 3 ∷ [];
}

-- The first send makes the handshake and waits for the peer's key, which arrives.
abbrev opening : List (Event toy_host)
opening =
    send_called (replicate 40 0) (1 ∷ []) 2 6 5 10 (some (replicate 12 9))
    ∷ key_arrived (send_call (replicate 40 0) (1 ∷ [])) 2 6 20 (some (replicate 12 9)) success
        peer_key
    ∷ []

abbrev pub cipher : Bytes
cipher = replicate 12 9 ++ (7 ∷ 8 ∷ replicate 16 7)

abbrev pub sealed_packet : Packet
sealed_packet = record {
  header = record { type = PacketType.payload_data; flags = 0; size = 30; sequence = 1 };
  region = cipher ++ replicate 10 0;
}

run_confidential_example :
    let c = (run toy_host opening (new_connection toy_host initiator 9 blank)).0 in
    ((not c.stream.loops_running || c.stream.transport.connection_encrypted) ≡ true)
    × (encrypt_data toy_host.ssl
          (some (replicate 12 9))
          c.stream.transport.crypto_context
          (7 ∷ 8 ∷ [])
        ≡ ok cipher)
    × IsSealed toy_host (some (replicate 12 9)) (7 ∷ 8 ∷ []) (
        handshake_sent toy_host
          (send_call (replicate 40 0) (7 ∷ 8 ∷ []))
          2
          6
          30
          (some (replicate 12 9))
          success
          c)
    × IsSealed toy_host (some (replicate 12 9)) (7 ∷ 8 ∷ []) (
        handshake_received toy_host
          (send_call (replicate 40 0) (7 ∷ 8 ∷ []))
          2
          6
          30
          (some (replicate 12 9))
          success
          peer_key
          c)
unfolding run step Calls.send Calls.start_call begin_loops start_loops shake_start initiator_start
    init shaken handshake_received Calls.shake_received initiator_received set_peer_public_key
    lexicographical_compare handshake_ended end_start_loops run_call forward stream_packet
    send_packet encrypt_data new_transport new_stream spawn_loop insert
run_confidential_example =
    run_confidential toy_host initiator 9 blank opening (replicate 40 0) (7 ∷ 8 ∷ []) 2 6 5 30
      (some (replicate 12 9)) success peer_key

-- A send is woken after the stream was closed.
run_woken_confidential_example :
    let c = (run toy_host opening (new_connection toy_host initiator 9 blank)).0 in
    let c' = (run toy_host (close_called 8 ∷ close_posted 8 ∷ []) c).0 in
    (c.stream.transport.connection_encrypted ≡ true)
    × (c'.stream.transport.connection_encrypted ≡ true)
    × IsSealedAs toy_host
        (some (replicate 12 9))
        c'.stream.transport.crypto_context
        (7 ∷ 8 ∷ [])
        (send_woken toy_host 2
          (data_packet (replicate 40 0) (7 ∷ 8 ∷ []))
          30
          (some (replicate 12 9))
          success
          c'.stream.transport).2
unfolding run step Calls.send Calls.start_call begin_loops start_loops shake_start initiator_start
    init shaken handshake_received Calls.shake_received initiator_received set_peer_public_key
    lexicographical_compare handshake_ended end_start_loops run_call forward stream_packet
    send_packet encrypt_data new_transport new_stream spawn_loop insert
run_woken_confidential_example =
    run_woken_confidential toy_host initiator 9 blank opening (close_called 8 ∷ close_posted 8 ∷ [])
      (replicate 40 0) (7 ∷ 8 ∷ []) 2 30 (some (replicate 12 9)) success refl
