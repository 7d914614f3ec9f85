-- ===== src/Reorder/Limits.antt =====
-- Where the reordering gives up: the last 65536 sequence numbers, and a buffer filled to the cap.
use native.Mathlib.Nat.{mod-eq_of_lt}
use file_hop_z.Base.{
  ◌+◌, ◌≤◌, ◌<◌, ◌≡◌, refl, true, none, List, [], ◌∷◌, arith, length, le→leb, ==_refl,
}
use file_hop_z.Base.Bytes.{u32_mod}
use file_hop_z.Base.Dict.{lookup, erase, insert, lookup_head}
use file_hop_z.Packet.{Packet, is_data, max_packets_buffer}
use file_hop_z.Reorder.{
  Window, packet_chunk, sequence_window_size, flush, cap_buffer, buffer_packet, accept, accept_all,
}

accept_wrapped :
    (p : Packet) (w : Window)
    → w.expected < u32_mod
    → u32_mod ≤ w.expected + sequence_window_size
    → accept p w ≡ (w, [])
unfolding accept
accept_wrapped p w small wraps = ground arith

-- From the expected number 2 ^ 32 - 65536 on, the upper end of the window wraps below the expected
-- number, and the loop drops every packet that it is given: nothing is delivered any more.
pub accept_all_wrapped :
    (ps : List Packet) (w : Window)
    → w.expected < u32_mod
    → u32_mod ≤ w.expected + sequence_window_size
    → accept_all ps w ≡ (w, [])
unfolding accept_all
accept_all_wrapped [] w small wraps = refl
accept_all_wrapped (p ∷ ps) w small wraps =
    rw (accept_wrapped p w small wraps, accept_all_wrapped ps w small wraps)

buffer_packet_alone :
    (p : Packet)
    → p.header.sequence + 1 < u32_mod
    → buffer_packet p (record { buffer = []; expected = p.header.sequence })
      ≡ (record { buffer = []; expected = p.header.sequence + 1 }, packet_chunk p ∷ [])
unfolding buffer_packet insert flush erase
buffer_packet_alone p small =
    rw (lookup_head p.header.sequence p [], flush, mod-eq_of_lt small, ==_refl p.header.sequence)
      refl

-- A buffer that holds the cap of 65536 packets, as many as the window admits ahead of the expected
-- one, is cleared when the expected packet arrives: that packet alone is delivered, and the
-- waiting ones are forgotten.
pub accept_full :
    (p : Packet) (w : Window)
    → is_data p.header.type ≡ true
    → p.header.sequence ≡ w.expected
    → lookup w.expected w.buffer ≡ none
    → max_packets_buffer ≤ length w.buffer
    → w.expected + sequence_window_size < u32_mod
    → accept p w ≡ (record { buffer = []; expected = w.expected + 1 }, packet_chunk p ∷ [])
unfolding accept
accept_full p w real next gone full small =
    let alone : buffer_packet p (cap_buffer p w)
        ≡ (record { buffer = []; expected = p.header.sequence + 1 }, packet_chunk p ∷ []) =
      rw (le→leb max_packets_buffer (length w.buffer) full) (buffer_packet_alone p (omega arith)) in
    ground (arith, alone, mod-eq_of_lt small)
