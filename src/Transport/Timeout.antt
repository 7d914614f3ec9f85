-- ===== src/Transport/Timeout.antt =====
-- ProtoHopZ::timeout_loop and wait_in_flight_drained. A turn of the loop decides which packets
-- have timed out, resends them one after the other, and waits for the timer.
use file_hop_z.Base.{ℕ, ◌+◌, Bool, true, false, List, [], ◌∷◌, map, ltb, leb, ◌&&◌, if◌then◌else◌}
use file_hop_z.Base.Dict.{Dict, contains}
use file_hop_z.Errors.{BoostError, failed, ErrorCode, make_error_code}
use file_hop_z.Packet.{timeout, idle_timeout}
use file_hop_z.AsyncValue
use file_hop_z.Host.{Host, max_double}
use file_hop_z.Transport.{Transport, PacketLocal, Effect, wake_drainer}
use file_hop_z.Transport.Ack.{is_drained}
use file_hop_z.Transport.Send.{resend_packet}
use file_hop_z.Transport.Receive.{LoopOutcome, continues, stops}

-- The sequence numbers of the packets that were sent more than `timeout` before `now`.
unfoldable pub timed_out : ℕ → Dict PacketLocal → List ℕ
timed_out now [] = []
timed_out now ((s, local) ∷ d) =
    let rest = timed_out now d in if ltb (local.send_time + timeout) now then s ∷ rest else rest

-- `resend_packet` and the timer completed with `ec`.
unfoldable pub timeout_resumed : BoostError → LoopOutcome
timeout_resumed ec = if failed ec then stops ec else continues

-- How a step of `wait_in_flight_drained` ends.
pub data DrainOutcome : Type 0 where
  drained : Bool → DrainOutcome
  waiting : DrainOutcome

module _ (H : Host) where
  -- A timeout halves the threshold and falls back to a window of one packet.
  unfoldable pub shrink_window : List ℕ → Transport H → Transport H
  shrink_window late t = elim late [
    | [] ↦ t
    | s ∷ ss ↦ record t {
      sshthresh =
          max_double H.float (H.float.over t.cwnd.value (H.float.of_nat 2)) (H.float.of_nat 2);
      cwnd = AsyncValue.update (H.float.of_nat 1) t.cwnd;
    }
  ]

  -- A turn up to the first resend: the new state and the numbers to resend.
  unfoldable pub timeout_turn : ℕ → Transport H → Transport H × List ℕ × LoopOutcome
  unfolding shrink_window
  timeout_turn now t =
      if leb (t.last_peer_activity + idle_timeout) now && t.connection_encrypted
      then (t, [], stops (make_error_code ErrorCode.connection_idle_timeout))
      else (let late = timed_out now t.in_flight in (shrink_window late t, late, continues))

  -- One number of the inner loop: what is handed to the socket.
  unfoldable pub resend_turn : ℕ → Transport H → List (Effect H)
  resend_turn sequence t = if contains sequence t.in_flight then resend_packet H sequence t else []

  -- From the entry to the strand on; `handler` waits for the signal or the timer.
  unfoldable pub wait_in_flight_drained : ℕ → Transport H → Transport H × DrainOutcome
  wait_in_flight_drained handler t =
      if failed t.loop_error
      then (t, drained false)
      else if is_drained H t
      then (t, drained true)
      else (record t { drained_signal = AsyncValue.wait handler t.drained_signal }, waiting)

  -- The timer of `wait_in_flight_drained` won: `wait_for_one` cancels the wait for the signal.
  unfoldable pub drain_cancelled : ℕ → Transport H → Transport H × List (Effect H)
  drain_cancelled handler t =
      let (d, told) = AsyncValue.cancel handler t.drained_signal in
      (record t { drained_signal = d }, map wake_drainer told)

  -- After the signal or the timer.
  unfoldable pub drain_resumed : Transport H → Bool
  drain_resumed t = if is_drained H t then if failed t.loop_error then false else true else false
