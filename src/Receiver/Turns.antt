-- ===== src/Receiver/Turns.antt =====
-- What the loop of `start_transfer` does with a chunk that a packet was written to.
use file_hop_z.Base.{◌≡◌, refl, ap, ◌∙◌, true, false, List, [], ◌∷◌, ◌++◌, drop, take-append}
use file_hop_z.Base.Bytes.{Bytes}
use file_hop_z.Errors.{success, Expected, ok}
use file_hop_z.Ftp.{Packet, get_payload, as_bytes}
use file_hop_z.Ftp.Codec.{IsPacket, read_packet-as_bytes, length-get_payload}
use file_hop_z.Receiver.{
  FileBuilder, Receiver, waits, closes, taken_up, handle_packet, finish, take_packet, transfer_turn,
  start_transfer, go_on,
}

-- The packet as the receiver has it: what it held before stands behind the payload.
abbrev pub reread : Bytes → Packet → Packet
reread stale p = record {
  header = p.header;
  data_bytes = get_payload p ++ drop p.header.size stale;
}

-- The chunks that carry packets.
abbrev pub chunks_of : Bytes → List Packet → List (Bytes × Expected Bytes)
chunks_of stale [] = []
chunks_of stale (p ∷ ps) = (stale, ok (as_bytes p)) ∷ chunks_of stale ps

pub chunks_of-append :
    (stale : Bytes) (ps qs : List Packet)
    → chunks_of stale (ps ++ qs) ≡ chunks_of stale ps ++ chunks_of stale qs
chunks_of-append stale [] qs = refl
chunks_of-append stale (p ∷ ps) qs =
    ap (◌∷◌ (stale, ok (as_bytes p))) (chunks_of-append stale ps qs)

pub get_payload-reread :
    (stale : Bytes) (p : Packet) → IsPacket p → get_payload (reread stale p) ≡ get_payload p
get_payload-reread stale p v =
    take-append (get_payload p) (drop p.header.size stale) p.header.size
      (length-get_payload p v.whole)

module _ (B : FileBuilder) where
  take_packet_handled :
      (p : Packet) (r r' : Receiver B)
      → handle_packet B p r ≡ (r', success)
      → r'.end_transfer_flag ≡ false
      → take_packet B p r ≡ (r', waits)
  unfolding take_packet
  take_packet_handled p r r' h f = ap (taken_up B) h ∙ rw f refl

  take_packet_ended :
      (p : Packet) (r r' : Receiver B)
      → handle_packet B p r ≡ (r', success)
      → r'.end_transfer_flag ≡ true
      → take_packet B p r ≡ finish B r'
  unfolding take_packet
  take_packet_ended p r r' h f = ap (taken_up B) h ∙ rw f refl

  transfer_turn_packet :
      (stale : Bytes) (p : Packet) (r : Receiver B)
      → IsPacket p
      → transfer_turn B stale (ok (as_bytes p)) r ≡ take_packet B (reread stale p) r
  unfolding transfer_turn
  transfer_turn_packet stale p r v = rw (read_packet-as_bytes stale p v, transfer_turn) refl

  -- A packet that is handled without an error and does not end the transfer is followed by the
  -- next chunk.
  pub start_transfer_handled :
      (stale : Bytes) (p : Packet) (rs : List (Bytes × Expected Bytes)) (r r' : Receiver B)
      → IsPacket p
      → handle_packet B (reread stale p) r ≡ (r', success)
      → r'.end_transfer_flag ≡ false
      → start_transfer B ((stale, ok (as_bytes p)) ∷ rs) r ≡ start_transfer B rs r'
  unfolding start_transfer
  start_transfer_handled stale p rs r r' v h f =
      ap (λ t. go_on B t.1 t.0 (start_transfer B rs t.0))
        (transfer_turn_packet stale p r v ∙ take_packet_handled (reread stale p) r r' h f)

  -- The packet that ends the transfer leads to the commit, and the loop ends as that does.
  pub start_transfer_ended :
      (stale : Bytes) (p : Packet) (r r' r'' : Receiver B)
      → IsPacket p
      → handle_packet B (reread stale p) r ≡ (r', success)
      → r'.end_transfer_flag ≡ true
      → finish B r' ≡ (r'', closes)
      → start_transfer B ((stale, ok (as_bytes p)) ∷ []) r ≡ (r'', closes)
  unfolding start_transfer
  start_transfer_ended stale p r r' r'' v h f e =
      ap (λ t. go_on B t.1 t.0 (start_transfer B [] t.0))
        (transfer_turn_packet stale p r v ∙ (take_packet_ended (reread stale p) r r' h f ∙ e))
