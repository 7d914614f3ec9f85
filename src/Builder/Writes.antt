-- ===== src/Builder/Writes.antt =====
-- Writing a staged file and closing it, on a device that refuses nothing: the builder of src/utils/file_builder.cpp.
use file_hop_z.Base.{
  ℕ, ◌≡◌, refl, ap, ◌∙◌, false, none, List, [], ◌∷◌, ◌++◌, length, length-append, min, take_all,
  ==_refl, arith,
}
use file_hop_z.Base.Dict.{lookup_head, insert_head, erase_head}
use file_hop_z.Base.Bytes.{Bytes}
use file_hop_z.Errors.{success}
use file_hop_z.Disk.{regular, Location, Nodes, Device, find}
use file_hop_z.Disk.Laws.{insert_last, find_last}
use file_hop_z.Builder.{OpenFile, put, written, arrive, stream_write, write, close_file}
use file_hop_z.Builder.Staging.{IsReliable, staged, overwrite_end, writing}

module _ (device : Device) where
  put_end :
      (ns : Nodes) (l : Location) (content bytes : Bytes)
      → find l ns ≡ none
      → put (length content) bytes l (ns ++ ((l, regular content) ∷ []))
        ≡ ns ++ ((l, regular (content ++ bytes)) ∷ [])
  put_end ns l content bytes free =
      rw
        (
          find_last l (regular content) ns free,
          put,
          overwrite_end bytes content,
          insert_last l (regular (content ++ bytes)) (regular content) ns free,
        )
        refl

  stream_write_end :
      (ns : Nodes) (l : Location) (content bytes : Bytes)
      → IsReliable device
      → find l ns ≡ none
      → stream_write device bytes
          (record { location = l; offset = length content; broken = false })
          (ns ++ ((l, regular content) ∷ []))
        ≡ (
          ns ++ ((l, regular (content ++ bytes)) ∷ []),
          record { location = l; offset = length (content ++ bytes); broken = false },
        )
  unfolding stream_write
  stream_write_end ns l content bytes d free =
      let whole : min (device.taken l (length bytes)) (length bytes) ≡ length bytes =
        omega (arith, d.takes l (length bytes)) in
      let f : OpenFile = record { location = l; offset = length content; broken = false } in
      ap (arrive device bytes f (ns ++ ((l, regular content) ∷ []))) whole
      ∙ rw
          (
            ==_refl (length bytes),
            take_all (length bytes) bytes (omega arith),
            put_end ns l content bytes free,
            length-append content bytes,
          )
          refl

  pub write_end :
      (root staging : List Bytes) (ns : Nodes) (l : Location) (file_id : ℕ) (content bytes : Bytes)
      → IsReliable device
      → find l ns ≡ none
      → write device bytes file_id (writing root staging ns l file_id content)
        ≡ (writing root staging ns l file_id (content ++ bytes), success)
  unfolding write
  write_end root staging ns l file_id content bytes d free =
      let f : OpenFile = record { location = l; offset = length content; broken = false } in
      rw (lookup_head file_id f [], write)
        (ap (written device file_id (writing root staging ns l file_id content))
            (stream_write_end ns l content bytes d free)
          ∙ ap
              (λ fs.
                (staged root staging fs (ns ++ ((l, regular (content ++ bytes)) ∷ [])), success))
              (insert_head file_id (record f { offset = length (content ++ bytes) }) f []))

  pub close_file_end :
      (root staging : List Bytes) (ns : Nodes) (l : Location) (file_id : ℕ) (content : Bytes)
      → IsReliable device
      → close_file device file_id (writing root staging ns l file_id content)
        ≡ (staged root staging [] (ns ++ ((l, regular content) ∷ [])), success)
  unfolding close_file
  close_file_end root staging ns l file_id content d =
      let f : OpenFile = record { location = l; offset = length content; broken = false } in
      rw (lookup_head file_id f [], close_file, d.flushes l, erase_head file_id f []) refl
