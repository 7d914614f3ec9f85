-- ===== src/Stream/Examples.antt =====
-- The stream at concrete states.
use file_hop_z.Base.{◌≡◌, refl, true, false, none, [], ◌∷◌, ◌++◌, replicate, arith}
use file_hop_z.Base.Bytes.{codes}
use file_hop_z.Errors.{BoostError, success, ok, unexpected, make_error_code, ErrorCode}
use file_hop_z.Packet.{Packet, content}
use file_hop_z.AsyncQueue.{completed}
use file_hop_z.Host.FixedPoint.{toy_host}
use file_hop_z.Transport.{new_transport}
use file_hop_z.Ftp
use file_hop_z.Ftp.{as_bytes, get_payload, read_packet, create_directory}
use file_hop_z.Reorder.{empty_chunk}
use file_hop_z.Stream.{
  Stream, initiator, cancel_chunks_loop, wake_reader, stream_packet, handle_receive_chunks_result,
  receive_popped,
}
use file_hop_z.Stream.Errors.{handle_receive_chunks_result_told}
use file_hop_z.Stream.Through.{read_packet-stream_packet}

abbrev waiting : Stream toy_host
waiting = record {
  handshake_mode = initiator;
  transport = new_transport toy_host 9 (record {
    is_ready = false;
    key_handle = none;
    own_public_key = [];
    peer_public_key = [];
    encryption_key = [];
  });
  ready_chunks = record { queue = []; waiters = 4 ∷ [] };
  loops_running = true;
  stopping_loops = false;
  stream_error = success;
}

abbrev lost : BoostError
lost = make_error_code ErrorCode.connection_idle_timeout

lost_told :
    ((handle_receive_chunks_result toy_host lost waiting).0.stream_error ≡ lost)
    × ((handle_receive_chunks_result toy_host lost waiting).0.loops_running ≡ false)
    × ((handle_receive_chunks_result toy_host lost waiting).1
        ≡ cancel_chunks_loop ∷ wake_reader (completed 4 empty_chunk) ∷ [])
    × (receive_popped toy_host success empty_chunk
          (handle_receive_chunks_result toy_host lost waiting).0
        ≡ unexpected lost)
    × ((later : BoostError)
        → (handle_receive_chunks_result toy_host later
            (handle_receive_chunks_result toy_host lost waiting).0).0.stream_error
          ≡ lost)
unfolding make_error_code
lost_told =
    handle_receive_chunks_result_told toy_host lost waiting 4 [] empty_chunk refl refl refl refl

abbrev folder : Ftp.Packet
folder = record {
  header = record { type = create_directory; flags = 0; size = 1; file_id = 3 };
  data_bytes = codes "d";
}

read_packet-stream_packet_example :
    (q : Packet) × (stream_packet (replicate 20 5) (as_bytes folder) ≡ ok q)
    × (content q ≡ as_bytes folder)
    × (read_packet (replicate 3 6) (content q)
        ≡ ok (record { header = folder.header; data_bytes = codes "d" ++ (6 ∷ 6 ∷ []) }))
read_packet-stream_packet_example =
    read_packet-stream_packet (replicate 20 5) (replicate 3 6) folder (record {
      type_ok = tt;
      flags_ok = omega arith;
      size_ok = omega arith;
      file_id_ok = omega arith;
      whole = omega arith;
    })
