-- ===== src/Sender/Chunks.antt =====
-- The chunks of a file are the file, and each fits into a packet.
use mathlib.Core.List.{append-nil}
use file_hop_z.Base.{
  ℕ, zero, suc, ◌≤◌, ◌<◌, ◌≡◌, ◌∙◌, List, [], ◌∷◌, ◌++◌, take, drop, length, length-take,
  length-drop, take-append-drop, take_all, All, arith, ◌==◌, Bool-cases, inl, inr,
}
use file_hop_z.Base.Bytes.{Bytes}
use file_hop_z.Ftp.{packet_size}
use file_hop_z.Sender.{read_chunks}

abbrev pub joined : List Bytes → Bytes
joined [] = []
joined (c ∷ cs) = c ++ joined cs

-- Reading a file chunk by chunk, until a chunk is short, gives the whole file in order, and every
-- chunk fits into a packet, if there is more fuel than the file has bytes.
pub joined-read_chunks :
    (fuel : ℕ) (content : Bytes)
    → length content < fuel
    → (joined (read_chunks fuel content) ≡ content)
      × All (λ c. length c ≤ packet_size) (read_chunks fuel content)
unfolding read_chunks
joined-read_chunks zero content h = absurd (omega arith)
joined-read_chunks (suc fuel) content h =
    let size : length (take packet_size content) ≤ packet_size =
      omega (arith, length-take packet_size content) in
    elim (Bool-cases (length (take packet_size content) == packet_size)) [
      | inl e ↦
          let full : length (take packet_size content) ≡ packet_size = ground arith in
          let (same, fits) = joined-read_chunks fuel (drop packet_size content) (
            omega
              (arith, full, length-take packet_size content, length-drop packet_size content)) in
          rw (e, same) (take-append-drop packet_size content, (size, fits))
      | inr e ↦
          let short : length content ≤ packet_size =
            ground (arith, length-take packet_size content) in
          rw e
            (append-nil (take packet_size content) ∙ take_all packet_size content short, (size, tt))
    ]
