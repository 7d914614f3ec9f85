-- ===== src/Progress.antt =====
-- The progress display of src/file_transfer.cpp, without the text that it prints.
pub mod Bounds
mod Examples
use file_hop_z.Base.{ℕ, ◌+◌, ◌*◌, ◌/◌, ◌%◌, ltb, ◌==◌, if◌then◌else◌}
use file_hop_z.Base.Bytes.{u16_mod, u64_mod}

-- The fields of `File_transfer` that it uses.
pub record Progress : Type 0 where
  pub bytes_to_transfer : ℕ
  pub bytes_transferred : ℕ
  pub last_progress : ℕ

-- The percentage, of 16 bits and cut at 100.
unfoldable pub percentage : ℕ → ℕ → ℕ
percentage transferred total =
    let new_progress = (transferred * 100 % u64_mod / total) % u16_mod in
    if ltb 100 new_progress then 100 else new_progress

unfoldable pub print_progress : ℕ → Progress → Progress
print_progress n p =
    if p.bytes_to_transfer == 0
    then p
    else (let transferred = (p.bytes_transferred + n) % u64_mod in
        let new_progress = percentage transferred p.bytes_to_transfer in
        record p {
          bytes_transferred = transferred;
          last_progress =
              if ltb p.last_progress new_progress then new_progress else p.last_progress;
        })
