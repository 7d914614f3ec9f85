-- ===== src/Transport/Ack.antt =====
-- ProtoHopZ::ack_handler and send_ack: acknowledgements, and the congestion window.
use file_hop_z.Base.{ℕ, Bool, true, false, List, [], ◌∷◌, ◌++◌, map, if◌then◌else◌}
use file_hop_z.Base.Dict.{contains, erase}
use file_hop_z.Packet.{Packet, PacketType, datagram}
use file_hop_z.AsyncValue
use file_hop_z.Host.{Host, min_double}
use file_hop_z.Transport.{Transport, Effect, wake_sender, wake_drainer, send_datagram, max_cwnd}

module _ (H : Host) where
  abbrev pub is_drained : Transport H → Bool
  is_drained t = elim t.in_flight [ [] ↦ true | e ∷ d ↦ false ]

  -- Slow start below the threshold, and congestion avoidance from it on.
  unfoldable pub next_cwnd : H.float.Double → H.float.Double → H.float.Double
  next_cwnd sshthresh cwnd =
      if H.float.less cwnd sshthresh
      then min_double H.float (H.float.plus cwnd (H.float.of_nat 1)) (max_cwnd H)
      else min_double H.float (H.float.plus cwnd (H.float.over (H.float.of_nat 1) cwnd))
          (max_cwnd H)

  -- `if(in_flight_.empty()) drained_signal_.set(true)`
  unfoldable pub signal_drained : Transport H → Transport H × List (Effect H)
  signal_drained t =
      if is_drained t
      then (let (d, woken) = AsyncValue.set true t.drained_signal in
          (record t { drained_signal = d }, map wake_drainer woken))
      else (t, [])

  -- `cwnd_.notify_one()`
  abbrev pub notify_sender : Transport H → Transport H × List (Effect H)
  notify_sender t =
      let (c, woken) = AsyncValue.notify_one t.cwnd in
      (record t { cwnd = c }, map wake_sender woken)

  -- The packet is out of flight and the window grows, before anybody is woken.
  unfoldable pub acknowledged : ℕ → Transport H → Transport H
  unfolding next_cwnd
  acknowledged sequence t = record t {
    in_flight = erase sequence t.in_flight;
    cwnd = AsyncValue.update (next_cwnd t.sshthresh t.cwnd.value) t.cwnd;
  }

  unfoldable pub ack_handler : ℕ → Transport H → Transport H × List (Effect H)
  unfolding acknowledged signal_drained
  ack_handler sequence t =
      if contains sequence t.in_flight
      then (let (t', senders) = notify_sender (acknowledged sequence t) in
          let (t'', drainers) = signal_drained t' in (t'', senders ++ drainers))
      else (t, [])

  abbrev pub ack_packet : ℕ → Packet
  ack_packet sequence = record {
    header = record { type = PacketType.ack; flags = 0; size = 0; sequence = sequence };
    region = [];
  }

  -- The acknowledgement goes out at once, and nobody waits for it.
  unfoldable pub send_ack : ℕ → Transport H → Effect H
  send_ack sequence t = send_datagram t.peer_endpoint (datagram (ack_packet sequence))
