-- ===== src/Transfer/Network.antt =====
-- A session whose packets reach the receiver through the stream.
use mathlib.Core.List.{append-nil}
use file_hop_z.Base.{
  ℕ, ◌+◌, ◌<◌, ◌≤◌, ◌≡◌, refl, sym, ap, ◌∙◌, true, none, some, List, [], ◌∷◌, ◌++◌, map, length,
  drop,
}
use file_hop_z.Base.Bytes.{Bytes, u64_mod}
use file_hop_z.Errors.{Expected, success, ok}
use file_hop_z.Packet
use file_hop_z.Packet.{content}
use file_hop_z.Host.{Host}
use file_hop_z.Reorder.{Chunk, initial_window, sequence_window_size}
use file_hop_z.Reorder.Flush.{chunks}
use file_hop_z.Reorder.Complete.{Traffic, arrived}
use file_hop_z.Stream.Calls.{Connection}
use file_hop_z.Stream.Machine.{Event, run}
use file_hop_z.Stream.Serving.{woken, Serves}
use file_hop_z.Stream.Steady.{IsSteady, taken}
use file_hop_z.Stream.Delivery.{run_delivers}
use file_hop_z.Disk.{Nodes, Device}
use file_hop_z.Builder.Commits.{builder_operations}
use file_hop_z.Builder.Staging.{IsReliable, child, staged}
use file_hop_z.Builder.Commit.Steps.{begun}
use file_hop_z.Builder.Commit.Output.{IsOutput}
use file_hop_z.Confirmation.{read_answer, confirm_transfer}
use file_hop_z.Ftp
use file_hop_z.Ftp.{PacketHeader, as_bytes}
use file_hop_z.Receiver.{Receiver, closes, start_transfer}
use file_hop_z.Receiver.Turns.{chunks_of}
use file_hop_z.Sender.{Entry, announce_packet, send_entries, bytes_to_send}
use file_hop_z.Sender.Announced.{file_sizes}
use file_hop_z.Transfer.Entries.{placed, IsTree}
use file_hop_z.Transfer.Whole.{AreApart}
use file_hop_z.Transfer.Session.{new_receiver, session_copies}

-- The memory of a chunk.
abbrev pub chunk_bytes : Chunk → Bytes
chunk_bytes c = elim c.bytes [ none ↦ [] | some bytes ↦ bytes ]

-- What `receive` returns for the chunks of a list, one after the other.
abbrev pub results : Bytes → List Bytes → List (Bytes × Expected Bytes)
results stale [] = []
results stale (b ∷ bs) = (stale, ok b) ∷ results stale bs

abbrev pub first : List Bytes → Bytes
first [] = []
first (b ∷ bs) = b

-- The data packets from the number `k` on carry the packets of a file transfer.
abbrev pub Carry : (ℕ → Packet.Packet) → ℕ → List Ftp.Packet → Type 0
Carry sent k [] = Unit {0}
Carry sent k (p ∷ ps) = (content (sent k) ≡ as_bytes p) × Carry sent (k + 1) ps

chunks-Carry :
    (sent : ℕ → Packet.Packet) (k : ℕ) (ps : List Ftp.Packet)
    → Carry sent k ps
    → map chunk_bytes (chunks sent k (length ps)) ≡ map as_bytes ps
chunks-Carry sent k [] carried = refl
chunks-Carry sent k (p ∷ ps) (here, carried) = λ i. here i ∷ chunks-Carry sent (k + 1) ps carried i

results-map :
    (stale : Bytes) (ps : List Ftp.Packet) → results stale (map as_bytes ps) ≡ chunks_of stale ps
results-map stale [] = refl
results-map stale (p ∷ ps) = ap (◌∷◌ (stale, ok (as_bytes p))) (results-map stale ps)

-- The packets of a session: the announced size, and the transfer.
abbrev pub session_packets : PacketHeader → Bytes → List Entry → List Ftp.Packet
session_packets stale_header stale_sender es =
    announce_packet stale_sender (bytes_to_send es 0)
    ∷ (send_entries stale_header stale_sender es 0).0

module _ (H : Host) (loop : ℕ) where
  received_packets :
      (sent : ℕ → Packet.Packet) (ps : List Ftp.Packet) (events : List (Event H)) (c : Connection H)
      → Serves H loop initial_window c
      → c.stream.ready_chunks.queue ≡ []
      → IsSteady H loop events c
      → length ps < sequence_window_size
      → Traffic sent (length ps) (taken H loop events)
      → ((s : ℕ) → 1 ≤ s → s ≤ length ps → arrived s (taken H loop events) ≡ true)
      → Carry sent 1 ps
      → (run H events c).0.stream.ready_chunks.queue ≡ []
      → map chunk_bytes (woken H (run H events c).1) ≡ map as_bytes ps
  received_packets sent ps events c serves empty steady short traffic all carried read =
      ap (map chunk_bytes) (
        sym (append-nil (woken H (run H events c).1))
        ∙ ap (◌++◌ (woken H (run H events c).1)) (sym read)
        ∙ run_delivers H loop sent (length ps) events c serves empty steady short traffic all)
      ∙ chunks-Carry sent 1 ps carried

  module _ (device : Device) (d : IsReliable device) (root : List Bytes) (name : ℕ → Bytes)
      (base : Nodes) where
    -- A session over the network copies the tree. The data packets numbered from 1 carry the
    -- announced size and the packets of the transfer, fewer than 65536; each of them is taken by
    -- the receive loop of the receiver's stream at least once, in any order, with repetitions and
    -- with other packets in between, in any interleaving with receives, sends and the transport's
    -- events in which the loop goes on, no other loop runs, no handshake is on its way and nobody
    -- closes the stream; and the receives take every chunk. Then the receiver, which is told the
    -- size by the first chunk and whose user accepts, takes the transfer from the other chunks and
    -- ends with its stream closed, and the file system holds what it held before and after that
    -- every entry, each once, at its path below the output directory, with its content or target,
    -- and nothing else. The entries are directories, files that open and links, in the order of a
    -- walk; their paths are acceptable to the receiver, name nothing by "." or ".." or an empty part,
    -- and fit into packets, a link's together with its target, which is not empty; their places are
    -- free in the output and in the staging directory, and none is in the staging directory; their
    -- files have less than 2^64 bytes together. The output directory was there, the name of the
    -- staging directory was free, and the device refuses nothing.
    pub network_copies :
        (stale stale_answer stale_sender : Bytes) (stale_header : PacketHeader) (lines : List Bytes)
        (es : List Entry) (sent : ℕ → Packet.Packet) (events : List (Event H)) (c : Connection H)
        → IsOutput root (name 0) base
        → IsTree (child root (name 0)) (begun (child root (name 0)) base) es
        → IsTree root base es
        → AreApart (child root (name 0)) root es
        → file_sizes es < u64_mod
        → read_answer lines ≡ some true
        → Serves H loop initial_window c
        → c.stream.ready_chunks.queue ≡ []
        → IsSteady H loop events c
        → length (session_packets stale_header stale_sender es) < sequence_window_size
        → Traffic sent (length (session_packets stale_header stale_sender es)) (taken H loop events)
        → ((s : ℕ)
            → 1 ≤ s
            → s ≤ length (session_packets stale_header stale_sender es)
            → arrived s (taken H loop events) ≡ true)
        → Carry sent 1 (session_packets stale_header stale_sender es)
        → (run H events c).0.stream.ready_chunks.queue ≡ []
        → let got = map chunk_bytes (woken H (run H events c).1) in
          (r : Receiver (builder_operations device)) × (start_transfer
              (builder_operations device)
              (results stale (drop 1 got))
              (confirm_transfer
                (builder_operations device)
                stale
                stale_answer
                (ok (first got))
                lines
                (λ bytes. success)
                (new_receiver device root name base)).0
            ≡ (r, closes))
          × (r.file_builder ≡ staged root (child root (name 0)) [] (base ++ placed root es))
    network_copies stale stale_answer stale_sender stale_header lines es sent events c o s f a small
          accepted serves empty steady short traffic all carried read =
        let ps : List Ftp.Packet = session_packets stale_header stale_sender es in
        let told : map chunk_bytes (woken H (run H events c).1) ≡ map as_bytes ps =
          received_packets sent ps events c serves empty steady short traffic all carried read in
        rw (told, results-map stale (send_entries stale_header stale_sender es 0).0)
          (session_copies device d root name base stale stale_answer stale_sender stale_header lines
            es o s f a small accepted)
