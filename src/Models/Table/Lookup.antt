-- ===== src/Models/Table/Lookup.antt =====
-- What a lookup finds after a save or an update.
use downloader.Base.{
  String, ◌≡◌, refl, inl, inr, ==_iff, Option-cases, Bool, none, some, List, [], ◌∷◌, ◌++◌,
  if◌then◌else◌, arith,
}
use downloader.Models.{Contract, Row, Codec, IsInverse}
use downloader.Models.Columns.{exec_failed, found, encode}
use downloader.Models.Columns.RoundTrip.{stored, encode-index, decode-encode}
use downloader.Models.Table.{
  Table, no_fault, first, same_index, save_contract, get_contract_by_unique_index,
  get_contract_by_address, same_address,
}

pub first-append :
    (p : Row → Bool) (r : Row) (rows : List Row)
    → first p (rows ++ r ∷ [])
      ≡ elim (first p rows) [ some x ↦ some x | none ↦ if p r then some r else none ]
unfolding first
first-append p r [] = refl
first-append p r (x ∷ rows) = ground (arith, first-append p r rows)

module _ (k : Codec) (violation : String) where
  -- Where the codec reads back what it writes of the contract, a contract that was saved is found
  -- under its network, block and address, with the id that the table gave it.
  pub get_contract_by_unique_index-save_contract :
      (c : Contract) (i : IsInverse k c) (t t' : Table)
      → save_contract k violation no_fault c t ≡ (none, t')
      → get_contract_by_unique_index k violation no_fault c.network_id c.block_number c.address t'
        ≡ found (stored k t.next_id c.created_at c)
  unfolding save_contract get_contract_by_unique_index
  get_contract_by_unique_index-save_contract c i t t' e =
      elim (Option-cases (encode k t.next_id c.created_at c)) [
        | inl bad ↦ ground (arith, bad)
        | inr (r, ok) ↦
            let index = encode-index k t.next_id c.created_at c r ok in
            ground (
              arith,
              ok,
              index,
              decode-encode k c i t.next_id c.created_at r ok,
              first-append (same_index r.network_id r.block_number r.address) r t.rows,
              ==_iff r.address r.address,
            )
      ]

  -- Where the codec reads back what it writes of the contract, a contract that was saved is found
  -- under its network and address, if no row had these before.
  pub get_contract_by_address-save_contract :
      (c : Contract) (i : IsInverse k c) (t t' : Table)
      → save_contract k violation no_fault c t ≡ (none, t')
      → first (same_address (k.uint64 c.network_id) (k.address_hex c.address)) t.rows ≡ none
      → get_contract_by_address k violation no_fault c.network_id c.address t'
        ≡ found (stored k t.next_id c.created_at c)
  unfolding save_contract get_contract_by_address
  get_contract_by_address-save_contract c i t t' e fresh =
      elim (Option-cases (encode k t.next_id c.created_at c)) [
        | inl bad ↦ ground (arith, bad)
        | inr (r, ok) ↦
            let index = encode-index k t.next_id c.created_at c r ok in
            ground (
              arith,
              ok,
              index,
              decode-encode k c i t.next_id c.created_at r ok,
              first-append (same_address r.network_id r.address) r t.rows,
              ==_iff r.address r.address,
            )
      ]

  -- After a save, a second save at the same network, block and address, whose states can be written,
  -- is refused as a violation of the unique index, and the table stays.
  pub save_contract_twice :
      (c d : Contract) (t t' : Table) (r : Row)
      → save_contract k violation no_fault c t ≡ (none, t')
      → d.network_id ≡ c.network_id
      → d.block_number ≡ c.block_number
      → d.address ≡ c.address
      → encode k t'.next_id d.created_at d ≡ some r
      → save_contract k violation no_fault d t' ≡ (some (exec_failed violation), t')
  unfolding save_contract
  save_contract_twice c d t t' r e n b a enc =
      elim (Option-cases (encode k t.next_id c.created_at c)) [
        | inl bad ↦ ground (arith, bad)
        | inr (r0, ok) ↦
            let old = encode-index k t.next_id c.created_at c r0 ok in
            let new = encode-index k t'.next_id d.created_at d r enc in
            ground (
              arith,
              ok,
              old,
              new,
              first-append (same_index r.network_id r.block_number r.address) r0 t.rows,
              ==_iff r0.address r.address,
            )
      ]
