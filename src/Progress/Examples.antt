-- ===== src/Progress/Examples.antt =====
-- The progress display at concrete numbers.
use file_hop_z.Base.{◌*◌, ◌/◌, ◌≡◌, refl, max, arith}
use file_hop_z.Progress.{Progress, percentage, print_progress}
use file_hop_z.Progress.Bounds.{print_progress_true}

abbrev half_way : Progress
half_way = record { bytes_to_transfer = 3000; bytes_transferred = 1400; last_progress = 46 }

print_progress_runs : (print_progress 700 half_way).last_progress ≡ 70
unfolding print_progress percentage
print_progress_runs = refl

print_progress_true_example :
    ((print_progress 700 half_way).bytes_transferred ≡ 2100)
    × ((print_progress 700 half_way).last_progress ≡ max 46 (2100 * 100 / 3000))
print_progress_true_example =
    print_progress_true 700 half_way (omega arith) (omega arith) (omega arith)
