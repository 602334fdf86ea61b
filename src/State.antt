-- ===== src/State.antt =====
-- pkg/state: the keys of the synchronization state, the descriptor, and the progress that it reports.
-- A `big.Int` that may be nil is an option; the cache is a list of byte strings by key.
pub mod Progress
pub mod Store
mod Tests
use downloader.Base.{
  String, ℕ, zero, suc, ◌+◌, ◌*◌, ◌-◌, ◌/◌, ◌%◌, Option, none, some, List, ◌∷◌, ◌==◌, if◌then◌else◌,
  ltb, nat_eq,
}

abbrev pub Key : Type 0
Key = String

abbrev pub current_block_head : Key
current_block_head = "inspector:state:current-block-head-1"

abbrev pub unknown_head_block : Key
unknown_head_block = "unknown-head-key"

abbrev pub latest_inspected_head_block : Key
latest_inspected_head_block = "inspector:state:latest-inspected-head-block-1"

abbrev pub latest_inspected_archive_block : Key
latest_inspected_archive_block = "inspector:state:latest-inspected-archive-block-1"

abbrev pub archive_start_block_number : Key
archive_start_block_number = "inspector:state:archive-start-block-number"

abbrev pub archive_end_block_number : Key
archive_end_block_number = "inspector:state:archive-end-block-number"

-- An integer of math/big.
pub data ℤ : Type 0 where
  pos : ℕ → ℤ
  negsuc : ℕ → ℤ

pub record Descriptor : Type 0 where
  pub current_block_head_number : Option ℕ
  pub latest_inspected_head_block_number : Option ℕ
  pub latest_inspected_archive_block_number : Option ℕ
  pub start_block_number : Option ℕ
  pub end_block_number : Option ℕ
  pub percentage_completed : Option ℤ

pub data Error : Type 0 where
  unknown_key : Key → Error
  unknown_direction : String → Error
  cache_failed : String → Error

-- `SetDescriptorKey`.
unfoldable pub set_descriptor_key : Key → ℕ → Descriptor → Option Error × Descriptor
set_descriptor_key key n d =
    if key == current_block_head
    then (none, record d { current_block_head_number = some n })
    else if key == latest_inspected_head_block
    then (none, record d { latest_inspected_head_block_number = some n })
    else if key == latest_inspected_archive_block
    then (none, record d { latest_inspected_archive_block_number = some n })
    else if key == archive_start_block_number
    then (none, record d { start_block_number = some n })
    else if key == archive_end_block_number
    then (none, record d { end_block_number = some n })
    else (some (unknown_key key), d)

unfoldable pub get_head_block_key_by_direction : String → Key × Option Error
get_head_block_key_by_direction direction =
    if direction == "head"
    then (latest_inspected_head_block, none)
    else if direction == "archive"
    then (latest_inspected_archive_block, none)
    else (unknown_head_block, some (unknown_direction direction))

-- `Sub` of two natural numbers.
abbrev pub difference : ℕ → ℕ → ℤ
difference a b = if ltb a b then negsuc (b - a - 1) else pos (a - b)

-- `Mul` by a natural number.
abbrev pub scale : ℕ → ℤ → ℤ
scale k (pos n) = pos (k * n)
scale k (negsuc n) = if nat_eq k 0 then pos 0 else negsuc (k * suc n - 1)

-- `big.Int.Div`, the Euclidean division, by an integer that is not zero.
abbrev opposite : ℤ → ℤ
opposite (pos zero) = pos 0
opposite (pos (suc n)) = negsuc n
opposite (negsuc n) = pos (suc n)

abbrev pub divide : ℤ → ℕ → ℤ
divide (pos n) d = pos (n / d)
divide (negsuc n) d = negsuc (n / d)

abbrev pub quotient : ℤ → ℤ → ℤ
quotient a (pos d) = divide a d
quotient a (negsuc d) = opposite (divide a (suc d))

abbrev percentage : ℕ → ℕ → ℕ → ℤ
percentage start latest end =
    if nat_eq end start
    then pos 0
    else quotient (scale 100 (difference latest start)) (difference end start)

-- `State.Descriptor`.
unfoldable pub descriptor : Descriptor → Descriptor
descriptor d = elim d.end_block_number [
  | none ↦ d
  | some end ↦ elim d.latest_inspected_archive_block_number [
    | none ↦ d
    | some latest ↦ elim d.start_block_number [
      | none ↦ d
      | some start ↦ record d { percentage_completed = some (percentage start latest end) }
    ]
  ]
]
