-- ===== src/State/Progress.antt =====
-- What the synchronization state reports and takes.
use native.Mathlib.Nat.{div-le_of_le-mul, le-div_iff_mul-le}
use downloader.Base.{
  String, ℕ, ◌*◌, ◌-◌, ◌/◌, ◌<◌, ◌≤◌, ◌≡◌, refl, ◌↔◌, Bool-cases, inl, inr, none, some, ◌==◌,
  if◌then◌else◌, arith,
}
use downloader.State.{
  unknown_head_block, Descriptor, pos, unknown_key, set_descriptor_key,
  get_head_block_key_by_direction, descriptor,
}

-- The percentage of the blocks from `start` to `end` that lie before `latest`.
abbrev share : ℕ → ℕ → ℕ → ℕ
share start latest end = 100 * (latest - start) / (end - start)

share_le : (s l e : ℕ) → s < e → l ≤ e → share s l e ≤ 100
share_le s l e a b = div-le_of_le-mul (e - s) (omega arith)

share_full : (s l e : ℕ) → s < e → s ≤ l → l ≤ e → (share s l e ≡ 100) ↔ (l ≡ e)
share_full s l e a b c = (
  λ full.
      let full_le : 100 * (e - s) ≤ 100 * (l - s) =
        (le-div_iff_mul-le (omega arith)).0 (omega arith) in
      omega arith,
  λ same.
      let over : 100 ≤ share s l e = (le-div_iff_mul-le (omega arith)).1 (omega arith) in
      let under : share s l e ≤ 100 = share_le s l e a c in omega arith,
)

-- Where the archive starts before it ends and the latest block lies between, `Descriptor` reports a
-- percentage between 0 and 100, and it is 100 just when the latest block is the last one.
pub descriptor_lem :
    (d : Descriptor) (start latest end : ℕ)
    → d.start_block_number ≡ some start
    → d.latest_inspected_archive_block_number ≡ some latest
    → d.end_block_number ≡ some end
    → start < end
    → start ≤ latest
    → latest ≤ end
    → (p : ℕ) × ((descriptor d).percentage_completed ≡ some (pos p))
      × (p ≤ 100)
      × ((p ≡ 100) ↔ (latest ≡ end))
unfolding descriptor
descriptor_lem d start latest end es el ee lt le le' = (
  share start latest end,
  ground (arith, es, el, ee),
  share_le start latest end lt le',
  share_full start latest end lt le le',
)

-- The key of a known direction takes a block, and only the field of that direction changes; any other
-- direction gives a key that is refused, and the descriptor stays.
pub set_descriptor_key-get_head_block_key_by_direction :
    (direction : String) (n : ℕ) (d : Descriptor)
    → set_descriptor_key (get_head_block_key_by_direction direction).0 n d ≡ (
        if direction == "head"
        then (none, record d { latest_inspected_head_block_number = some n })
        else if direction == "archive"
        then (none, record d { latest_inspected_archive_block_number = some n })
        else (some (unknown_key unknown_head_block), d))
unfolding set_descriptor_key get_head_block_key_by_direction
set_descriptor_key-get_head_block_key_by_direction direction n d =
    elim (Bool-cases (direction == "head")) [
      | inl e ↦ rw e refl
      | inr e ↦ elim (Bool-cases (direction == "archive")) [
        | inl e1 ↦ rw (e, e1) refl
        | inr e1 ↦ rw (e, e1) refl
      ]
    ]
