-- ===== src/Transfer/Rebuild.antt =====
-- The staging directory after the sender's entries: a copy of what was walked.
use mathlib.Core.List.{append_assoc, append-nil}
use file_hop_z.Base.{
  ℕ, suc, ◌+◌, ◌≤◌, ◌<◌, ◌≡◌, refl, sym, ap, ◌∙◌, false, none, List, [], ◌∷◌, ◌++◌, map, drop,
  length, length-append, All, arith,
}
use file_hop_z.Base.Bytes.{Bytes, u32_mod}
use file_hop_z.Errors.{failed, Expected, ok}
use file_hop_z.FilePath.{parts}
use file_hop_z.Disk.{Node, Location, Nodes, Device, find}
use file_hop_z.Disk
use file_hop_z.Builder.{Builder}
use file_hop_z.Builder.Commits.{builder_operations}
use file_hop_z.Builder.Staging.{
  IsReliable, IsFree, IsStagedAs, child, staged, writing, create_directory_free, create_file_free,
  create_symlink_free,
}
use file_hop_z.Builder.Writes.{write_end, close_file_end}
use file_hop_z.Ftp.{
  Packet, PacketHeader, packet_size, as_bytes, get_payload, set_payload, create_directory,
  create_symlink, end_file,
}
use file_hop_z.Ftp.Symlink.{written, symlink_packet_fits, written-IsPacket, extract_symlink-written}
use file_hop_z.Progress.{Progress, print_progress}
use file_hop_z.Receiver.{Receiver, TransferOutcome, start_transfer}
use file_hop_z.Receiver.Turns.{chunks_of, chunks_of-append}
use file_hop_z.Sender.{
  Entry, directory, regular, unreadable, symlink, unsupported, empty_packet, chunk_packet,
  create_file_packet, read_chunks, file_packets, path_handler,
}
use file_hop_z.Sender.Announced.{file_sizes}
use file_hop_z.Sender.Chunks.{joined, joined-read_chunks}
use file_hop_z.Sender.Packets.{
  Carries, empty_packet-Carries, set_payload-Carries, create_file_packet-Carries,
  chunk_packet-Carries,
}
use file_hop_z.Transfer.Handled.{
  receiving, start_transfer_directory, start_transfer_file, start_transfer_data,
  start_transfer_close, start_transfer_symlink,
}
use file_hop_z.Transfer.Entries.{entry_path, entry_node, IsEntry}

-- The progress after chunks.
abbrev progressed : List Bytes → Progress → Progress
progressed [] pr = pr
progressed (c ∷ cs) pr = progressed cs (print_progress (length c) pr)

module _ (device : Device) (d : IsReliable device) (root staging : List Bytes) (stale : Bytes) where
  -- The receiver in the midst of a transfer, with this builder.
  abbrev pub with_builder : ℕ → Progress → Builder → Receiver (builder_operations device)
  with_builder n pr b = receiving (builder_operations device) n pr b

  -- The loop on the rest of the chunks.
  abbrev pub goes_on :
      List (Bytes × Expected Bytes)
      → ℕ
      → Progress
      → Builder
      → Receiver (builder_operations device) × TransferOutcome
  goes_on rs n pr b = start_transfer (builder_operations device) rs (with_builder n pr b)

  start_transfer_chunks :
      (id : ℕ) (stale_sender : Bytes) (cs : List Bytes) (rs : List (Bytes × Expected Bytes)) (n : ℕ)
      (pr : Progress) (ns : Nodes) (l : Location) (content : Bytes)
      → id < u32_mod
      → All (λ c. length c ≤ packet_size) cs
      → find l ns ≡ none
      → goes_on
          (chunks_of stale (map (chunk_packet id stale_sender) cs) ++ rs)
          (length (joined cs) + n)
          pr
          (writing root staging ns l id content)
        ≡ goes_on rs n (progressed cs pr) (writing root staging ns l id (content ++ joined cs))
  start_transfer_chunks id stale_sender [] rs n pr ns l content i h f =
      let none_left : 0 + n ≡ n = omega arith in
      ap (λ k. goes_on rs k pr (writing root staging ns l id content)) none_left
      ∙ ap (λ x. goes_on rs n pr (writing root staging ns l id x)) (sym (append-nil content))
  start_transfer_chunks id stale_sender (c ∷ cs) rs n pr ns l content i h f =
      let p : Packet = chunk_packet id stale_sender c in
      let rest : List (Bytes × Expected Bytes) =
        chunks_of stale (map (chunk_packet id stale_sender) cs) ++ rs in
      let b : Bytes → Builder = λ x. writing root staging ns l id x in
      let sum : length (c ++ joined cs) + n ≡ length c + (length (joined cs) + n) =
        omega (arith, length-append c (joined cs)) in
      ap (λ k. goes_on ((stale, ok (as_bytes p)) ∷ rest) k pr (b content)) sum
      ∙ (start_transfer_data (builder_operations device) stale rest (length (joined cs) + n) pr
            (b content) (b (content ++ c)) id c p (chunk_packet-Carries id stale_sender c i h.0)
            (write_end device root staging ns l id content c d f)
          ∙ (start_transfer_chunks id stale_sender cs rs n (print_progress (length c) pr) ns l
                (content ++ c) i h.1 f
              ∙ ap (λ x. goes_on rs n (progressed (c ∷ cs) pr) (b x))
                  (append_assoc content c (joined cs))))

  -- The packets of a regular file leave it in the staging directory.
  start_transfer_regular :
      (stale_header : PacketHeader) (stale_sender path content : Bytes) (id : ℕ)
      (rs : List (Bytes × Expected Bytes)) (n : ℕ) (pr : Progress) (ns : Nodes) (dir : List Bytes)
      (name : Bytes)
      → id < u32_mod
      → length path ≤ packet_size
      → IsStagedAs staging path dir name
      → IsFree ns dir name
      → (pr' : Progress) × (goes_on
            (chunks_of stale (file_packets stale_header stale_sender id path content) ++ rs)
            (length content + n)
            pr
            (staged root staging [] ns)
          ≡ goes_on rs n pr'
              (staged root staging [] (ns ++ ((child dir name, Disk.regular content) ∷ []))))
  unfolding file_packets
  start_transfer_regular stale_header stale_sender path content id rs n pr ns dir name i fits s f =
      let cs : List Bytes = read_chunks (suc (length content)) content in
      let whole : (joined cs ≡ content) × All (λ c. length c ≤ packet_size) cs =
        joined-read_chunks (suc (length content)) content (omega arith) in
      let first : Packet = create_file_packet stale_header id stale_sender path in
      let body : List Packet = map (chunk_packet id stale_sender) cs in
      let last : Packet = empty_packet end_file id stale_sender in
      let end : List (Bytes × Expected Bytes) = (stale, ok (as_bytes last)) ∷ rs in
      let l : Location = child dir name in
      let b : Bytes → Builder = λ x. writing root staging ns l id x in
      (
        progressed cs pr,
        start_transfer_file (builder_operations device) stale
              (chunks_of stale (body ++ (last ∷ [])) ++ rs) (length content + n) pr
              (staged root staging [] ns) (b []) id path first
              (create_file_packet-Carries stale_header id stale_sender path i fits)
              (create_file_free device root staging ns dir name d f path id s)
            ∙ (ap (λ x. goes_on x (length content + n) pr (b []))
                  (ap (λ x. x ++ rs) (chunks_of-append stale body (last ∷ []))
                    ∙ append_assoc (chunks_of stale body) ((stale, ok (as_bytes last)) ∷ []) rs)
                ∙ (ap (λ x. goes_on (chunks_of stale body ++ end) (length x + n) pr (b []))
                      (sym whole.0)
                    ∙ (start_transfer_chunks id stale_sender cs end n pr ns l [] i whole.1 f.free
                        ∙ (ap (λ x. goes_on end n (progressed cs pr) (b x)) whole.0
                            ∙ start_transfer_close (builder_operations device) stale rs n
                                (progressed cs pr) (b content)
                                (staged root staging [] (ns ++ ((l, Disk.regular content) ∷ []))) id
                                last (empty_packet-Carries end_file id stale_sender tt i)
                                (close_file_end device root staging ns l id content d))))),
      )

  -- The packets of an entry leave it in the staging directory, and the next file id is one.
  pub start_transfer_entry :
      (stale_header : PacketHeader) (stale_sender : Bytes) (e : Entry) (id : ℕ)
      (rs : List (Bytes × Expected Bytes)) (n : ℕ) (pr : Progress) (ns : Nodes)
      → id < u32_mod
      → IsEntry staging ns e
      → (failed (path_handler stale_header stale_sender e id).2 ≡ false)
        × ((path_handler stale_header stale_sender e id).1 < u32_mod)
        × (pr' : Progress) × (goes_on
              (chunks_of stale (path_handler stale_header stale_sender e id).0 ++ rs)
              (file_sizes (e ∷ []) + n)
              pr
              (staged root staging [] ns)
            ≡ goes_on rs n pr' (
                staged root staging []
                  (ns ++ ((staging ++ parts (entry_path e), entry_node e) ∷ []))))
  unfolding path_handler
  start_transfer_entry stale_header stale_sender (directory path) id rs n pr ns i e =
      let p : Packet = (set_payload path (empty_packet create_directory id stale_sender)).0 in
      let b : Location → Builder = λ l. staged root staging [] (ns ++ ((l, Disk.directory) ∷ [])) in
      let none_left : 0 + n ≡ n = omega arith in
      (
        refl,
        omega arith,
        pr,
        ap (λ k. goes_on ((stale, ok (as_bytes p)) ∷ rs) k pr (staged root staging [] ns)) none_left
            ∙ (start_transfer_directory (builder_operations device) stale rs n pr
                  (staged root staging [] ns) (b (child e.dir e.name)) id path p
                  (set_payload-Carries create_directory id stale_sender path tt i e.sendable)
                  (create_directory_free device root staging ns e.dir e.name d e.free path [] e.at)
                ∙ ap (λ l. goes_on rs n pr (b l)) (sym e.at.place)),
      )
  start_transfer_entry stale_header stale_sender (regular path content) id rs n pr ns i e =
      let sum : length content + 0 + n ≡ length content + n = omega arith in
      let packets : List (Bytes × Expected Bytes) =
        chunks_of stale (file_packets stale_header stale_sender id path content) ++ rs in
      let (pr', same) =
        start_transfer_regular stale_header stale_sender path content id rs n pr ns e.dir e.name i
          e.sendable e.at e.free in
      (
        refl,
        omega arith,
        pr',
        ap (λ k. goes_on packets k pr (staged root staging [] ns)) sum
            ∙ (same
                ∙ ap
                    (λ l.
                      goes_on rs n pr'
                        (staged root staging [] (ns ++ ((l, Disk.regular content) ∷ []))))
                    (sym e.at.place)),
      )
  start_transfer_entry stale_header stale_sender (unreadable path content) id rs n pr ns i e =
      absurd e.sendable
  start_transfer_entry stale_header stale_sender (symlink path target) id rs n pr ns i e =
      let p : Packet = written stale_sender path target in
      let b : Location → Builder =
        λ l. staged root staging [] (ns ++ ((l, Disk.link target) ∷ [])) in
      let none_left : 0 + n ≡ n = omega arith in
      let carries : Carries create_symlink 0 (get_payload p) p = record {
        valid = written-IsPacket stale_sender path target e.sendable.0;
        type_is = refl;
        file_id_is = refl;
        payload_is = refl;
      } in
      rw (symlink_packet_fits stale_sender path target e.sendable.0, path_handler)
        (
          refl,
          i,
          pr,
          ap (λ k. goes_on ((stale, ok (as_bytes p)) ∷ rs) k pr (staged root staging [] ns))
                none_left
              ∙ (start_transfer_symlink (builder_operations device) stale rs n pr
                    (staged root staging [] ns) (b (child e.dir e.name)) path target (get_payload p)
                    0 p carries
                    (extract_symlink-written stale_sender (drop p.header.size stale) path target
                      e.sendable.0)
                    (create_symlink_free device root staging ns e.dir e.name d e.free path target []
                      e.sendable.1 e.at)
                  ∙ ap (λ l. goes_on rs n pr (b l)) (sym e.at.place)),
        )
  start_transfer_entry stale_header stale_sender (unsupported path) id rs n pr ns i e =
      absurd e.sendable
