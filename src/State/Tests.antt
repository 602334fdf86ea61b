-- ===== src/State/Tests.antt =====
-- A synchronization that is half done.
use downloader.Base.{ℕ, ◌≤◌, ◌≡◌, refl, ◌↔◌, none, some, arith}
use downloader.State.{Descriptor, pos, descriptor}
use downloader.State.Progress.{descriptor_lem}

abbrev halfway : Descriptor
halfway = record {
  current_block_head_number = none;
  latest_inspected_head_block_number = none;
  latest_inspected_archive_block_number = some 150;
  start_block_number = some 100;
  end_block_number = some 200;
  percentage_completed = none;
}

descriptor_lem_example :
    (p : ℕ) × ((descriptor halfway).percentage_completed ≡ some (pos p))
    × (p ≤ 100)
    × ((p ≡ 100) ↔ ◌≡◌ {A = ℕ} 150 200)
descriptor_lem_example =
    descriptor_lem halfway 100 150 200 refl refl refl (omega arith) (omega arith) (omega arith)

halfway_percentage : (descriptor halfway).percentage_completed ≡ some (pos 50)
unfolding descriptor
halfway_percentage = refl
