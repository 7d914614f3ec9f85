-- ===== src/Transport/Examples.antt =====
-- The transport at concrete states, over fixed point numbers and a stand-in for OpenSSL.
use file_hop_z.Base.{ℕ, ◌+◌, ◌*◌, ◌≤◌, ◌≡◌, refl, true, false, none, List, [], ◌∷◌, arith}
use file_hop_z.Base.Dict.{lookup}
use file_hop_z.Errors.{success, unexpected, make_error_code, ErrorCode}
use file_hop_z.Packet.{Packet, PacketType}
use file_hop_z.Crypto.{CryptoContext}
use file_hop_z.Crypto.Toy.{toy_ssl}
use file_hop_z.Host.FixedPoint.{toy_host, fixed_point-IsRounding}
use file_hop_z.Transport.{Transport, PacketLocal, new_transport}
use file_hop_z.Transport.Send.{returned, is_blocked, send_packet}
use file_hop_z.Transport.Receive.{member, receive_packet}
use file_hop_z.Transport.Timeout.{
  timed_out, timeout_turn, wait_in_flight_drained, drained, drain_resumed,
}
use file_hop_z.Transport.Step.{
  Event, loops_start, loops_stop, packet_offered, datagram_arrived, timer_fired, packet_wanted,
  step, run,
}
use file_hop_z.Transport.Window.{IsSound}
use file_hop_z.Transport.Sound.{step-IsSound, run-new_transport-IsSound}
use file_hop_z.Transport.Delivery.{handed, copies}
use file_hop_z.Transport.AtMostOnce.{run_at_most_once}
use file_hop_z.Transport.Admission.{IsAdmitted, send_packet-IsAdmitted}
use file_hop_z.Transport.Peer.{without_foreign, run_foreign}
use file_hop_z.Transport.Timeouts.{
  is_late, timed_out_iff, timeout_turn_backs_off, is_blocked_drained,
}
use file_hop_z.Transport.Failure.{run_after_failure}

abbrev pub blank : CryptoContext toy_ssl
blank = record {
  is_ready = false;
  key_handle = none;
  own_public_key = [];
  peer_public_key = [];
  encryption_key = [];
}

-- Loops that run, and a peer with the port 9.
abbrev pub idle : Transport toy_host
idle = record {
  loops_started = true;
  stopping_loops = false;
  connection_encrypted = false;
  loop_error = success;
  sequence_counter = 70000;
  sshthresh = 64000;
  last_peer_activity = 0;
  peer_endpoint = 9;
  peer_endpoint_known = true;
  cwnd = record { value = 64000; version = 0; waiters = [] };
  received_packets_queue = record { queue = []; waiters = [] };
  received_packets = [];
  in_flight = [];
  drained_signal = record { value = false; version = 0; waiters = [] };
  crypto_context = blank;
}

abbrev pub data_packet : ℕ → Packet
data_packet n = record {
  header = record { type = PacketType.payload_data; flags = 0; size = 2; sequence = n };
  region = 1 ∷ 2 ∷ [];
}

abbrev flying : ℕ → ℕ × PacketLocal
flying n = (n, record { send_time = 10 * n; packet = data_packet n })

-- Two packets in flight, and a sender that waits.
abbrev busy : Transport toy_host
busy = record idle {
  in_flight = flying 7 ∷ flying 8 ∷ [];
  cwnd = record { value = 2000; version = 0; waiters = 1 ∷ [] };
}

busy-IsSound : IsSound toy_host busy
unfolding lookup
busy-IsSound = record {
  capped = omega arith;
  nodup = (refl, (refl, tt));
  keyed = λ s l e. ground arith;
  positive = refl;
  limited = refl;
}

abbrev burst : List (Event toy_host)
burst =
    loops_start 0
    ∷ packet_wanted 4
    ∷ datagram_arrived 5 9 (data_packet 3)
    ∷ datagram_arrived 6 9 (data_packet 3)
    ∷ datagram_arrived 7 8 (data_packet 4)
    ∷ packet_offered 1 (data_packet 0) 8 none
    ∷ timer_fired 900
    ∷ []

timer_keeps_bounds : IsSound toy_host (step toy_host (timer_fired 900) busy).0
timer_keeps_bounds =
    step-IsSound toy_host fixed_point-IsRounding (timer_fired 900) busy busy-IsSound

run-new_transport-IsSound_example :
    IsSound toy_host (run toy_host burst (new_transport toy_host 9 blank)).0
run-new_transport-IsSound_example =
    run-new_transport-IsSound toy_host fixed_point-IsRounding 9 blank burst

run_at_most_once_example :
    handed toy_host 3 (run toy_host burst (new_transport toy_host 9 blank)).1
      + copies 3
          (run toy_host burst (new_transport toy_host 9 blank)).0.received_packets_queue.queue
    ≤ 1
run_at_most_once_example = run_at_most_once toy_host 3 9 blank burst refl

run_foreign_example : run toy_host burst idle ≡ run toy_host (without_foreign toy_host 9 burst) idle
run_foreign_example = run_foreign toy_host burst idle refl

send_packet-IsAdmitted_example :
    IsAdmitted toy_host
      (data_packet 0)
      50
      none
      idle
      (data_packet 70000)
      (send_packet toy_host 1 (data_packet 0) 50 none idle)
unfolding send_packet
send_packet-IsAdmitted_example =
    send_packet-IsAdmitted toy_host 1 (data_packet 0) 50 none idle (data_packet 70000) refl

-- Two more wait for the link to drain.
abbrev draining : Transport toy_host
draining = record busy {
  drained_signal = record { value = false; version = 0; waiters = 3 ∷ 4 ∷ [] };
}

busy_timed_out : member 7 (timed_out 900 busy.in_flight) ≡ is_late 900 (lookup 7 busy.in_flight)
unfolding lookup
busy_timed_out = timed_out_iff 900 7 busy.in_flight (refl, (refl, tt))

timeout_turn_backs_off_example :
    ((timeout_turn toy_host 900 busy).0.cwnd.value ≡ 1000)
    × ((timeout_turn toy_host 900 busy).0.in_flight ≡ busy.in_flight)
    × (is_blocked toy_host (timeout_turn toy_host 900 busy).0 ≡ true)
unfolding timeout_turn timed_out member
timeout_turn_backs_off_example =
    timeout_turn_backs_off toy_host fixed_point-IsRounding 900 7 busy refl

drained_free : is_blocked toy_host (record busy { in_flight = [] }) ≡ false
unfolding lookup
drained_free =
    is_blocked_drained toy_host fixed_point-IsRounding (record busy { in_flight = [] })
      (record {
        capped = omega arith;
        nodup = tt;
        keyed = λ s l e. ground arith;
        positive = refl;
        limited = refl;
      })
      refl

abbrev broken : Transport toy_host
broken = record busy { loop_error = make_error_code ErrorCode.packet_too_large }

run_after_failure_example :
    (send_packet toy_host 1
        (data_packet 0)
        950
        none
        (run toy_host (timer_fired 900 ∷ loops_stop ∷ []) broken).0
      ≡ (
        (run toy_host (timer_fired 900 ∷ loops_stop ∷ []) broken).0,
        [],
        returned broken.loop_error,
      ))
    × (receive_packet toy_host success
          (data_packet 1)
          (run toy_host (timer_fired 900 ∷ loops_stop ∷ []) broken).0
        ≡ unexpected broken.loop_error)
    × (wait_in_flight_drained toy_host 1 (run toy_host (timer_fired 900 ∷ loops_stop ∷ []) broken).0
        ≡ ((run toy_host (timer_fired 900 ∷ loops_stop ∷ []) broken).0, drained false))
    × (drain_resumed toy_host (run toy_host (timer_fired 900 ∷ loops_stop ∷ []) broken).0 ≡ false)
unfolding make_error_code
run_after_failure_example =
    run_after_failure toy_host (timer_fired 900 ∷ loops_stop ∷ []) broken 1 (data_packet 0)
      (data_packet 1) 950 none success refl refl refl
