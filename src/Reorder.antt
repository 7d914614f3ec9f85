-- ===== src/Reorder.antt =====
-- ProtoStream::receive_chunks_loop of src/protohopz/protostream.cpp: the reordering of packets
-- into the stream's chunks. One call of `accept` is one turn of the loop's body after
-- `receive_packet`; the chunks that it pushes to `ready_chunks_` are its second result.
pub mod Flush
pub mod Order
pub mod Complete
pub mod Limits
mod Examples
use file_hop_z.Base.{
  ℕ, zero, suc, ◌+◌, ◌%◌, ◌^◌, Bool, true, false, Option, none, some, List, [], ◌∷◌, ◌++◌, ltb, leb,
  ◌==◌, if◌then◌else◌, length,
}
use file_hop_z.Base.Bytes.{Bytes, u32_mod}
use file_hop_z.Base.Dict.{Dict, lookup, contains, erase, insert}
use file_hop_z.Packet.{PacketType, Packet, content, is_data, max_packets_buffer}

-- `ProtoStream::Chunk`; `none` is a null pointer.
pub record Chunk : Type 0 where
  pub size : ℕ
  pub bytes : Option Bytes

-- `Chunk()`, and `Chunk(data, size)` on a pointer to at least `size` bytes.
abbrev pub empty_chunk : Chunk
empty_chunk = record { size = 0; bytes = none }

abbrev pub is_empty : Chunk → Bool
is_empty c = elim c.bytes [ none ↦ c.size == 0 | some b ↦ false ]

abbrev pub packet_chunk : Packet → Chunk
packet_chunk p = record { size = p.header.size; bytes = some (content p) }

abbrev pub sequence_window_size : ℕ
sequence_window_size = 65536

-- The local variables of the loop.
pub record Window : Type 0 where
  pub buffer : Dict Packet
  pub expected : ℕ

abbrev pub initial_window : Window
initial_window = record { buffer = []; expected = 1 }

-- The inner loop: it pushes and erases as long as the expected packet is in the buffer.
unfoldable pub flush : ℕ → Window → List Chunk → Window × List Chunk
flush zero w out = (w, out)
flush (suc fuel) w out = elim (lookup w.expected w.buffer) [
  | none ↦ (w, out)
  | some p ↦
      flush fuel
        (record { buffer = erase w.expected w.buffer; expected = (w.expected + 1) % u32_mod })
        (out ++ (packet_chunk p ∷ []))
]

-- The hard cap: a full buffer is cleared, and the stream goes on from the new packet.
abbrev pub cap_buffer : Packet → Window → Window
cap_buffer p w =
    if leb max_packets_buffer (length w.buffer)
    then record { buffer = []; expected = p.header.sequence }
    else w

-- `packets_buffer.emplace`, and the inner loop, whose rounds the buffer's size bounds.
unfoldable pub buffer_packet : Packet → Window → Window × List Chunk
unfolding flush
buffer_packet p w =
    let filled = insert p.header.sequence p w.buffer in
    flush (length filled) (record w { buffer = filled }) []

unfoldable pub accept : Packet → Window → Window × List Chunk
accept p w =
    if is_data p.header.type
    then if ltb p.header.sequence w.expected
      then (w, [])
      else if ltb ((w.expected + sequence_window_size) % u32_mod) p.header.sequence
      then (w, [])
      else if contains p.header.sequence w.buffer
      then (w, [])
      else buffer_packet p (cap_buffer p w)
    else (w, [])

-- The loop over the packets that `receive_packet` returns, and all chunks pushed.
unfoldable pub accept_all : List Packet → Window → Window × List Chunk
accept_all [] w = (w, [])
accept_all (p ∷ ps) w =
    let (w', out) = accept p w in let (w'', later) = accept_all ps w' in (w'', out ++ later)
