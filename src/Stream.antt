-- ===== src/Stream.antt =====
-- ProtoStream of src/protohopz/protostream.cpp: its state, the packet of send, the flags that
-- start_loops and close set, and the errors. The calls, cut where they wait, are in Calls, all
-- events together in Machine, and the reordering of its receive loop in Reorder.
pub mod Calls
pub mod Machine
pub mod Kept
pub mod Serving
pub mod Steady
pub mod Delivery
pub mod Closing
pub mod Reopening
pub mod Secure
pub mod SecureSteps
pub mod Sealed
pub mod Confidential
pub mod Arrival
pub mod Hop
pub mod Errors
pub mod Through
mod Examples
pub mod RunExamples
mod HopExamples
use file_hop_z.Base.{
  ℕ, Bool, true, false, not, List, [], ◌∷◌, ◌++◌, map, drop, length, ltb, ◌&&◌, ◌||◌, if◌then◌else◌,
}
use file_hop_z.Base.Bytes.{Bytes, u16_mod}
use file_hop_z.Errors.{
  BoostError, success, failed, same_error, Expected, ok, unexpected, ErrorCode, make_error_code,
}
use file_hop_z.Packet.{Packet, PacketType, packet_payload_size}
use file_hop_z.AsyncQueue
use file_hop_z.AsyncQueue.{AsyncQueue, Completion}
use file_hop_z.Host.{Host}
use file_hop_z.Crypto.{CryptoContext}
use file_hop_z.Transport.{Transport, Effect, new_transport, start_loops}
use file_hop_z.Reorder.{Chunk, empty_chunk}

pub data HandshakeMode : Type 0 where
  initiator : HandshakeMode
  responder : HandshakeMode

-- The packet with the data; `stale` is what its memory held before.
abbrev pub data_packet : Bytes → Bytes → Packet
data_packet stale data_bytes = record {
  header = record {
    type = PacketType.payload_data;
    flags = 0;
    size = length data_bytes;
    sequence = 0;
  };
  region = data_bytes ++ drop (length data_bytes) stale;
}

-- What `send` hands to the transport.
unfoldable pub stream_packet : Bytes → Bytes → Expected Packet
stream_packet stale data_bytes =
    if ltb packet_payload_size (length data_bytes)
    then unexpected (make_error_code ErrorCode.stream_payload_too_large)
    else ok (data_packet stale data_bytes)

module _ (H : Host) where
  pub record Stream : Type 0 where
    pub handshake_mode : HandshakeMode
    pub transport : Transport H
    pub ready_chunks : AsyncQueue Chunk
    pub loops_running : Bool
    pub stopping_loops : Bool
    pub stream_error : BoostError

  -- What the stream asks of its surroundings, its calls' results aside.
  pub data StreamEffect : Type 0 where
    transport_asks : Effect H → StreamEffect
    wake_reader : Completion Chunk → StreamEffect
    cancel_chunks_loop : StreamEffect

  -- The constructor with an endpoint; the other one passes the default endpoint, of port 0.
  unfoldable pub new_stream : HandshakeMode → H.Endpoint → CryptoContext H.ssl → Stream
  new_stream mode peer_endpoint crypto = record {
    handshake_mode = mode;
    transport = new_transport H peer_endpoint crypto;
    ready_chunks = AsyncQueue.new_queue;
    loops_running = false;
    stopping_loops = false;
    stream_error = success;
  }

  -- The start of `start_loops`, before the handshake.
  unfoldable pub begin_loops : ℕ → Stream → Stream
  begin_loops now s = record s {
    stopping_loops = false;
    stream_error = success;
    transport = start_loops H now s.transport;
  }

  -- After the handshake: the loop is spawned, if there was no error.
  unfoldable pub end_start_loops : BoostError → Stream → Stream × BoostError
  end_start_loops ec s = if failed ec then (s, ec) else (record s { loops_running = true }, ec)

  -- The chunk of `receive` once `pop` completed with an error value or a chunk.
  unfoldable pub receive_popped : BoostError → Chunk → Stream → Expected Chunk
  receive_popped ec chunk s =
      if failed ec
      then unexpected ec
      else if failed s.stream_error
      then unexpected s.stream_error
      else ok chunk

  -- `close` between the draining and `transport_.stop_loops()`; the loop is cancelled.
  unfoldable pub close_loops : Stream → Stream
  close_loops s = record s { loops_running = false; stopping_loops = true }

  -- The error of the loop; who waits in `receive` is woken with an empty chunk.
  unfoldable pub store_stream_error : BoostError → Stream → Stream × List StreamEffect
  store_stream_error ec s =
      if not (failed ec) || failed s.stream_error
      then (s, [])
      else (let (q, woken) = AsyncQueue.push empty_chunk s.ready_chunks in
          (
            record s { stream_error = ec; loops_running = false; ready_chunks = q },
            cancel_chunks_loop ∷ map wake_reader woken,
          ))

  unfoldable pub handle_receive_chunks_result : BoostError → Stream → Stream × List StreamEffect
  unfolding store_stream_error
  handle_receive_chunks_result ec s =
      if not (failed ec)
      then (s, [])
      else if s.stopping_loops && same_error ec H.operation_aborted
      then (s, [])
      else store_stream_error ec s
