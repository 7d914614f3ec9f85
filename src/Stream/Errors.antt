-- ===== src/Stream/Errors.antt =====
-- The first error of the stream's loop is kept, and a receiver that waits is told of it.
use file_hop_z.Base.{ℕ, ◌≡◌, true, false, List, [], ◌∷◌, ◌&&◌, arith}
use file_hop_z.Errors.{BoostError, failed, same_error, unexpected, success}
use file_hop_z.AsyncQueue
use file_hop_z.AsyncQueue.{Completion, completed}
use file_hop_z.Host.{Host}
use file_hop_z.Reorder.{Chunk, empty_chunk}
use file_hop_z.Stream.{
  Stream, cancel_chunks_loop, wake_reader, handle_receive_chunks_result, receive_popped,
}

module _ (H : Host) where
  -- A loop that ends with an error, other than a cancellation while the stream is closing, leaves
  -- the first error stored, and whoever receives then is told that error, also the one who waits
  -- already: it is woken with an empty chunk, in place of which `receive` returns the error.
  pub handle_receive_chunks_result_told :
      (ec : BoostError) (s : Stream H) (w : ℕ) (ws : List ℕ) (chunk : Chunk)
      → failed ec ≡ true
      → (s.stopping_loops && same_error ec H.operation_aborted) ≡ false
      → failed s.stream_error ≡ false
      → s.ready_chunks.waiters ≡ w ∷ ws
      → ((handle_receive_chunks_result H ec s).0.stream_error ≡ ec)
        × ((handle_receive_chunks_result H ec s).0.loops_running ≡ false)
        × ((handle_receive_chunks_result H ec s).1
            ≡ cancel_chunks_loop ∷ wake_reader (completed w empty_chunk) ∷ [])
        × (receive_popped H success chunk (handle_receive_chunks_result H ec s).0 ≡ unexpected ec)
        × ((later : BoostError)
            → (handle_receive_chunks_result H later
                (handle_receive_chunks_result H ec s).0).0.stream_error
              ≡ ec)
  unfolding handle_receive_chunks_result receive_popped AsyncQueue.push
  handle_receive_chunks_result_told ec s w ws chunk bad other clean waits =
      (ground arith, ground arith, ground arith, ground arith, λ later. ground arith)
