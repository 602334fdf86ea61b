-- ===== src/State/Store.antt =====
-- `Set`, `Get`, `Exists` and `Load` of pkg/state over the cache. `big.Int.Bytes` and `SetBytes` are
-- parameters.
pub mod Recovery
pub mod Samples
pub mod Sets
mod Tests
use downloader.Base.{ℕ, String, ◌≡◌, Bool, Option, none, some, List}
use downloader.Cache.{Client, Reply, value, nil, failure, get, write, exists}
use downloader.State.{
  Key, Descriptor, Error, cache_failed, set_descriptor_key, current_block_head,
  latest_inspected_head_block, latest_inspected_archive_block, archive_start_block_number,
  archive_end_block_number,
}

-- `Bytes` and `SetBytes` of math/big.
pub record Big : Type 0 where
  pub bytes : ℕ → List ℕ
  pub set_bytes : List ℕ → ℕ

pub record IsBig (big : Big) : Type 0 where
  pub bytes_back : (n : ℕ) → big.set_bytes (big.bytes n) ≡ n

abbrev pub written : {S : Type 0} → Descriptor → Option String × S → Option Error × (Descriptor × S)
written d (none, s) = (none, (d, s))
written d (some e, s) = (some (cache_failed e), (d, s))

module _ (big : Big) (client : Client) where
  open client use {Server}

  -- `Set`: the descriptor, and then the cache.
  unfoldable pub set : Key → ℕ → Descriptor → Server → Option Error × (Descriptor × Server)
  unfolding set_descriptor_key write
  set key n d s =
      let (e, d') = set_descriptor_key key n d in
      elim e [ some e ↦ (some e, (d', s)) | none ↦ written d' (write client key (big.bytes n) s) ]

  -- `Get`.
  unfoldable pub get_state : Key → Server → Reply ℕ
  unfolding get
  get_state key s = elim (get client key s) [
    | value b ↦ value (big.set_bytes b)
    | nil ↦ nil
    | failure e ↦ failure e
  ]

  -- `Exists`.
  unfoldable pub exists_state : Key → Server → Reply Bool
  unfolding exists
  exists_state key s = exists client key s

  -- A key of `Load`: a missing value is a nil number.
  abbrev pub load_key :
      Key
      → (Descriptor → Option ℕ → Descriptor)
      → (Server → Descriptor → Option Error × Descriptor)
      → Server
      → Descriptor
      → Option Error × Descriptor
  load_key key put next s d = elim (get_state key s) [
    | value n ↦ next s (put d (some n))
    | nil ↦ next s (put d none)
    | failure e ↦ (some (cache_failed e), d)
  ]

  abbrev pub load_end : Server → Descriptor → Option Error × Descriptor
  load_end =
      load_key archive_end_block_number (λ d n. record d { end_block_number = n })
        (λ s d. (none, d))

  abbrev pub load_start : Server → Descriptor → Option Error × Descriptor
  load_start =
      load_key archive_start_block_number (λ d n. record d { start_block_number = n }) load_end

  abbrev pub load_archive : Server → Descriptor → Option Error × Descriptor
  load_archive =
      load_key latest_inspected_archive_block
        (λ d n. record d { latest_inspected_archive_block_number = n }) load_start

  abbrev pub load_latest : Server → Descriptor → Option Error × Descriptor
  load_latest =
      load_key latest_inspected_head_block
        (λ d n. record d { latest_inspected_head_block_number = n }) load_archive

  unfoldable pub load : Descriptor → Server → Option Error × Descriptor
  unfolding get_state
  load d s =
      load_key current_block_head (λ d n. record d { current_block_head_number = n }) load_latest s
        d
