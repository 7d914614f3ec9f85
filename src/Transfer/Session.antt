-- ===== src/Transfer/Session.antt =====
-- A session from the announcement of the size to the end of the transfer.
use file_hop_z.Base.{ℕ, ◌<◌, ◌≡◌, ap, ◌∙◌, true, some, List, [], ◌++◌, arith}
use file_hop_z.Base.Bytes.{Bytes, u64_mod}
use file_hop_z.Errors.{success, ok}
use file_hop_z.Disk.{Nodes, Device}
use file_hop_z.Builder.{file_builder}
use file_hop_z.Builder.Commits.{builder_operations}
use file_hop_z.Builder.Staging.{IsReliable, child, staged}
use file_hop_z.Builder.Commit.Steps.{begun}
use file_hop_z.Builder.Commit.Output.{IsOutput}
use file_hop_z.Confirmation.{read_answer, confirm_transfer}
use file_hop_z.Confirmation.Agreement.{confirm_transfer_agrees}
use file_hop_z.Ftp.{PacketHeader, as_bytes}
use file_hop_z.Receiver.{Receiver, closes, start_transfer}
use file_hop_z.Receiver.Turns.{chunks_of}
use file_hop_z.Sender.{Entry, announce_packet, send_entries, bytes_to_send}
use file_hop_z.Sender.Announced.{file_sizes, bytes_to_send_sum}
use file_hop_z.Transfer.Handled.{receiving}
use file_hop_z.Transfer.Entries.{placed, IsTree}
use file_hop_z.Transfer.Whole.{AreApart, start_transfer_copies}

-- A receiver as it is constructed.
abbrev pub new_receiver :
    (device : Device) → List Bytes → (ℕ → Bytes) → Nodes → Receiver (builder_operations device)
new_receiver device root name base =
    receiving (builder_operations device) 0
      (record { bytes_to_transfer = 0; bytes_transferred = 0; last_progress = 0 })
      (file_builder device name root base)

module _ (device : Device) (d : IsReliable device) (root : List Bytes) (name : ℕ → Bytes)
    (base : Nodes) where
  -- A session copies the tree. The receiver is told the size of what the sender walks, its user
  -- accepts, and it takes the packets of the transfer: then it ends with its stream closed, and the
  -- file system holds what it held before and after that every entry, each once, at its path below
  -- the output directory, with its content or target, and nothing else; the staging directory is
  -- gone. The entries are directories, files that open and links, in the order of a walk; their
  -- paths are acceptable to the receiver, name nothing by "." or ".." or an empty part, and fit into
  -- packets, a link's together with its target, which is not empty; their places are free in the
  -- output and in the staging directory, and none is in the staging directory; their files have less
  -- than 2^64 bytes together. The output directory was there, the name of the staging directory was
  -- free, and the device refuses nothing.
  pub session_copies :
      (stale stale_answer stale_sender : Bytes) (stale_header : PacketHeader) (lines : List Bytes)
      (es : List Entry)
      → IsOutput root (name 0) base
      → IsTree (child root (name 0)) (begun (child root (name 0)) base) es
      → IsTree root base es
      → AreApart (child root (name 0)) root es
      → file_sizes es < u64_mod
      → read_answer lines ≡ some true
      → (r : Receiver (builder_operations device)) × (start_transfer
            (builder_operations device)
            (chunks_of stale (send_entries stale_header stale_sender es 0).0)
            (confirm_transfer
              (builder_operations device)
              stale
              stale_answer
              (ok (as_bytes (announce_packet stale_sender (bytes_to_send es 0))))
              lines
              (λ bytes. success)
              (new_receiver device root name base)).0
          ≡ (r, closes))
        × (r.file_builder ≡ staged root (child root (name 0)) [] (base ++ placed root es))
  session_copies stale stale_answer stale_sender stale_header lines es o s f a small accepted =
      let total : bytes_to_send es 0 ≡ file_sizes es =
        bytes_to_send_sum es 0 (omega (arith, small)) ∙ omega arith in
      let (reply, told, read) =
        confirm_transfer_agrees (builder_operations device) stale_sender stale stale_answer
          (bytes_to_send es 0) lines true (new_receiver device root name base)
          (omega (arith, total, small)) accepted in
      rw (ap (λ t. t.0) told, total)
        (start_transfer_copies device d root name stale base stale_header stale_sender es
          (record { bytes_to_transfer = file_sizes es; bytes_transferred = 0; last_progress = 0 }) o
          s f a)
