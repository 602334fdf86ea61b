-- ===== src/Models/Table/Index.antt =====
-- What the table keeps: ids are distinct and below the next one, and no two rows have the same
-- network, block and address.
use downloader.Base.{
  ℕ, ◌<◌, String, ◌≡◌, inl, inr, Bool, false, not, ◌&&◌, none, List, [], ◌∷◌, ◌++◌, nat_eq, ==_iff,
  Option-cases, if◌then◌else◌, arith,
}
use downloader.Models.{Contract, Row, Codec}
use downloader.Models.Columns.{encode}
use downloader.Models.Columns.RoundTrip.{encode-index}
use downloader.Models.Table.{
  Table, Fault, first, replace, same_index, clashes, insert_row, update_row, save_contract,
  update_contract,
}

abbrev pub All : (Row → Type 0) → List Row → Type 0
All P [] = Unit {0}
All P (r ∷ rows) = P r × All P rows

-- The index of a row is not that of the other.
abbrev pub Apart : Row → Row → Type 0
Apart x y = same_index x.network_id x.block_number x.address y ≡ false

abbrev pub Differ : Row → Row → Type 0
Differ x y = (nat_eq x.id y.id ≡ false) × Apart x y

abbrev pub AreDistinct : List Row → Type 0
AreDistinct [] = Unit {0}
AreDistinct (r ∷ rows) = All (Differ r) rows × AreDistinct rows

pub record IsIndexed (t : Table) : Type 0 where
  pub distinct : AreDistinct t.rows
  pub below : All (λ r. r.id < t.next_id) t.rows

All-of_none : (p : Row → Bool) (rows : List Row) → first p rows ≡ none → All (λ r. p r ≡ false) rows
unfolding first
All-of_none p [] h = tt
All-of_none p (r ∷ rows) h = ground (arith, All-of_none p rows)

All-append :
    (P : Row → Type 0) (r : Row) (rows : List Row) → All P rows → P r → All P (rows ++ r ∷ [])
All-append P r [] h k = (k, tt)
All-append P r (x ∷ rows) h k = (h.0, All-append P r rows h.1 k)

All-map : (P Q : Row → Type 0) (rows : List Row) → ((r : Row) → P r → Q r) → All P rows → All Q rows
All-map P Q [] f h = tt
All-map P Q (r ∷ rows) f h = (f r h.0, All-map P Q rows f h.1)

Apart-sym : (x y : Row) → Apart x y → Apart y x
Apart-sym x y h = ground (arith, ==_iff x.address y.address, ==_iff y.address x.address)

AreDistinct-append :
    (r : Row) (rows : List Row)
    → AreDistinct rows
    → All (Apart r) rows
    → All (λ x. x.id < r.id) rows
    → AreDistinct (rows ++ r ∷ [])
AreDistinct-append r [] d a b = (tt, tt)
AreDistinct-append r (x ∷ rows) d a b = (
  All-append (Differ x) r rows d.0 (ground arith, Apart-sym r x a.0),
  AreDistinct-append r rows d.1 a.1 b.1,
)

module _ (k : Codec) (violation : String) where
  insert_row-IsIndexed :
      (t : Table) (r : Row)
      → r.id ≡ t.next_id
      → IsIndexed t
      → IsIndexed (insert_row k violation t r).1
  unfolding insert_row
  insert_row-IsIndexed t r e v =
      elim (Option-cases (first (same_index r.network_id r.block_number r.address) t.rows)) [
        | inr (x, some_x) ↦ rw (some_x, insert_row) v
        | inl no_x ↦
            rw (no_x, insert_row)
              (record {
                distinct =
                    AreDistinct-append r t.rows v.distinct (All-of_none _ t.rows no_x)
                      (All-map _ _ t.rows (λ x h. omega arith) v.below);
                below =
                    All-append _ r t.rows (All-map _ _ t.rows (λ x h. omega arith) v.below)
                      (omega arith);
              })
      ]

  -- A table whose ids are distinct and below the next one, and in which no two rows have the same
  -- network, block and address, is such a table after a save, whether it succeeds or not.
  pub save_contract-IsIndexed :
      (fault : Fault) (c : Contract) (t : Table)
      → IsIndexed t
      → IsIndexed (save_contract k violation fault c t).1
  unfolding save_contract
  save_contract-IsIndexed fault c t v = elim (Option-cases (encode k t.next_id c.created_at c)) [
    | inl bad ↦ ground (arith, bad)
    | inr (r, ok) ↦
        let e = encode-index k t.next_id c.created_at c r ok in
        ground (arith, ok, insert_row-IsIndexed t r e.0 v)
  ]

-- What an update makes of a row.
rewritten : Row → Row → Row
rewritten new r = if nat_eq r.id new.id then record new { created_at = r.created_at } else r

All-replace :
    (P Q : Row → Type 0) (new : Row) (rows : List Row)
    → ((r : Row) → P r → Q (rewritten new r))
    → All P rows
    → All Q (replace new rows)
unfolding replace rewritten
All-replace P Q new [] f h = tt
All-replace P Q new (r ∷ rows) f h = (f r h.0, All-replace P Q new rows f h.1)

All-both :
    (P Q : Row → Type 0) (rows : List Row) → All P rows → All Q rows → All (λ r. P r × Q r) rows
All-both P Q [] h g = tt
All-both P Q (r ∷ rows) h g = ((h.0, g.0), All-both P Q rows h.1 g.1)

-- No other row stands at the index of the new one.
abbrev Clear : Row → Row → Type 0
Clear new r =
    (not (nat_eq r.id new.id) && same_index new.network_id new.block_number new.address r) ≡ false

Differ-rewritten :
    (new x y : Row)
    → Differ x y
    → Clear new x
    → Clear new y
    → Differ (rewritten new x) (rewritten new y)
unfolding rewritten
Differ-rewritten new x y d a b =
    ground (arith, Apart-sym new x, ==_iff x.address new.address, ==_iff new.address x.address)

replace-AreDistinct :
    (new : Row) (rows : List Row)
    → AreDistinct rows
    → All (Clear new) rows
    → AreDistinct (replace new rows)
unfolding replace rewritten
replace-AreDistinct new [] d c = tt
replace-AreDistinct new (x ∷ rows) d c = (
  All-replace (λ y. Differ x y × Clear new y) (Differ (rewritten new x)) new rows
      (λ y h. Differ-rewritten new x y h.0 c.0 h.1) (All-both (Differ x) (Clear new) rows d.0 c.1),
  replace-AreDistinct new rows d.1 c.1,
)

below-rewritten : (n : ℕ) (new r : Row) → r.id < n → (rewritten new r).id < n
unfolding rewritten
below-rewritten n new r h = ground arith

module _ (k : Codec) (violation : String) where
  update_row-IsIndexed :
      (t : Table) (r : Row) → IsIndexed t → IsIndexed (update_row k violation t r).1
  unfolding update_row
  update_row-IsIndexed t r v = ground (arith, kept)
    where
      kept : first (clashes r) t.rows ≡ none → IsIndexed (record t { rows = replace r t.rows })
      kept clear = record {
        distinct = replace-AreDistinct r t.rows v.distinct (All-of_none _ t.rows clear);
        below = All-replace _ _ r t.rows (λ x h. below-rewritten t.next_id r x h) v.below;
      }

  -- A table whose ids are distinct and below the next one, and in which no two rows have the same
  -- network, block and address, is such a table after an update, whether it succeeds or not.
  pub update_contract-IsIndexed :
      (fault : Fault) (c : Contract) (t : Table)
      → IsIndexed t
      → IsIndexed (update_contract k violation fault c t).1
  unfolding update_contract
  update_contract-IsIndexed fault c t v = elim (Option-cases (encode k c.id c.created_at c)) [
    | inl bad ↦ ground (arith, bad)
    | inr (r, ok) ↦ ground (arith, ok, update_row-IsIndexed t r v)
  ]
