-- ===== src/Transport.antt =====
-- ProtoHopZ of src/protohopz/protohopz.cpp: the state of the transport, its start, its stop and
-- its errors. Coroutines suspend only where they wait, and what runs between two waits runs alone
-- on the strand; each such stretch is one function here and in the child modules.
pub mod Ack
pub mod Send
pub mod Receive
pub mod Timeout
pub mod Handshake
pub mod Step
pub mod Window
pub mod SoundLoops
pub mod Sound
pub mod Delivery
pub mod DeliverySteps
pub mod AtMostOnce
pub mod Admission
pub mod Channel
pub mod Peer
pub mod Acks
pub mod Timeouts
pub mod Keeps
pub mod Failure
pub mod Encrypted
pub mod HandshakeResults
pub mod Agreement
pub mod Examples
mod SecureExamples
use file_hop_z.Base.{
  ℕ, ◌+◌, ◌%◌, Bool, true, false, not, ◌&&◌, ◌||◌, List, [], ◌∷◌, ◌++◌, map, ◌==◌, if◌then◌else◌,
}
use file_hop_z.Base.Bytes.{Bytes, u32_mod}
use file_hop_z.Base.Dict.{Dict}
use file_hop_z.Errors.{BoostError, success, failed, same_error}
use file_hop_z.Packet.{Packet, PacketType}
use file_hop_z.AsyncQueue
use file_hop_z.AsyncQueue.{AsyncQueue, Completion}
use file_hop_z.AsyncValue
use file_hop_z.AsyncValue.{AsyncValue}
use file_hop_z.Crypto.{CryptoContext}
use file_hop_z.Host.{Host, Float}

-- `PHZ::PacketLocal`
pub record PacketLocal : Type 0 where
  pub send_time : ℕ
  pub packet : Packet

module _ (H : Host) where
  -- The fields of `ProtoHopZ`. Times are milliseconds of the steady clock; the socket and the
  -- strand have no state of their own here.
  pub record Transport : Type 0 where
    pub loops_started : Bool
    pub stopping_loops : Bool
    pub connection_encrypted : Bool
    pub loop_error : BoostError
    pub sequence_counter : ℕ
    pub sshthresh : H.float.Double
    pub last_peer_activity : ℕ
    pub peer_endpoint : H.Endpoint
    pub peer_endpoint_known : Bool
    pub cwnd : AsyncValue H.float.Double
    pub received_packets_queue : AsyncQueue Packet
    pub received_packets : List ℕ
    pub in_flight : Dict PacketLocal
    pub drained_signal : AsyncValue Bool
    pub crypto_context : CryptoContext H.ssl

  -- What the transport asks of its surroundings.
  pub data Effect : Type 0 where
    send_datagram : H.Endpoint → Bytes → Effect
    wake_sender : Completion H.float.Double → Effect
    wake_receiver : Completion Packet → Effect
    wake_drainer : Completion Bool → Effect
    cancel_loops : Effect
    cancel_socket : Effect

  abbrev pub initial_cwnd : H.float.Double
  initial_cwnd = H.float.of_nat 64

  abbrev pub max_cwnd : H.float.Double
  max_cwnd = H.float.of_nat 1024

  unfoldable pub new_transport : H.Endpoint → CryptoContext H.ssl → Transport
  new_transport endpoint crypto = record {
    loops_started = false;
    stopping_loops = false;
    connection_encrypted = false;
    loop_error = success;
    sequence_counter = 0;
    sshthresh = H.float.of_nat 64;
    last_peer_activity = 0;
    peer_endpoint = endpoint;
    peer_endpoint_known = not (H.port endpoint == 0);
    cwnd = AsyncValue.new_value initial_cwnd;
    received_packets_queue = AsyncQueue.new_queue;
    received_packets = [];
    in_flight = [];
    drained_signal = AsyncValue.new_value false;
    crypto_context = crypto;
  }

  unfoldable pub start_loops : ℕ → Transport → Transport
  start_loops now t = record t {
    stopping_loops = false;
    loop_error = success;
    last_peer_activity = now;
    loops_started = true;
  }

  -- `++sequence_counter_`
  abbrev pub next_sequence : Transport → ℕ
  next_sequence t = (t.sequence_counter + 1) % u32_mod

  -- The local marker that wakes `received_packets_queue_.pop()`.
  abbrev pub end_packet : ℕ → Packet
  end_packet sequence = record {
    header = record { type = PacketType.end_transfer; flags = 0; size = 0; sequence = sequence };
    region = [];
  }

  abbrev push_marker : Transport → Transport × List Effect
  push_marker t =
      let (q, woken) = AsyncQueue.push (end_packet (next_sequence t)) t.received_packets_queue in
      (
        record t { sequence_counter = next_sequence t; received_packets_queue = q },
        map wake_receiver woken,
      )

  -- `stop_loops`, from its entry to the strand on.
  unfoldable pub stop_loops : Transport → Transport × List Effect
  stop_loops t =
      let (t', woken) = push_marker (record t {
        stopping_loops = true;
        in_flight = [];
        received_packets = [];
        drained_signal = AsyncValue.update false t.drained_signal;
      }) in
      (record t' { loops_started = false }, cancel_loops ∷ cancel_socket ∷ woken)

  unfoldable pub store_loop_error : BoostError → Transport → Transport × List Effect
  store_loop_error ec t =
      if not (failed ec) || failed t.loop_error
      then (t, [])
      else let (c, senders) = AsyncValue.notify_one t.cwnd in
        let (d, drainers) = AsyncValue.set true t.drained_signal in
        let (t', receivers) =
          push_marker
            (record t { loop_error = ec; loops_started = false; cwnd = c; drained_signal = d }) in
        (
          t',
          cancel_loops
              ∷ cancel_socket
              ∷ (map wake_sender senders ++ (map wake_drainer drainers ++ receivers)),
        )

  -- What happens when one of the two loops returns.
  unfoldable pub handle_loop_result : BoostError → Transport → Transport × List Effect
  handle_loop_result ec t =
      if not (failed ec)
      then (t, [])
      else if t.stopping_loops && same_error ec H.operation_aborted
      then (t, [])
      else store_loop_error ec t
