-- ===== src/Models/Table/Outcomes.antt =====
-- What a save and an update of pkg/models/contracts.go leave of the table.
use downloader.Base.{
  String, ◌≡◌, refl, subst, true, Option, none, some, is_some, List, [], ◌∷◌, ◌++◌, ◌⊎◌, inl, inr,
  Option-cases, arith,
}
use downloader.Models.{Contract, Row, Codec}
use downloader.Models.Columns.{Error, encode, bad_json, prepare_failed, exec_failed}
use downloader.Models.Columns.RoundTrip.{encode-index}
use downloader.Models.Table.{
  Table, Fault, first, replace, same_index, has_id, clashes, insert_row, update_row, save_contract,
  update_contract,
}
use downloader.Models.Table.Index.{IsIndexed, save_contract-IsIndexed, update_contract-IsIndexed}

-- The row of the new columns, where a row has the id.
first-replace :
    (new r : Row) (rows : List Row)
    → first (has_id new.id) rows ≡ some r
    → first (has_id new.id) (replace new rows) ≡ some (record new { created_at = r.created_at })
unfolding first replace
first-replace new r [] h = absurd (ground (arith, h))
first-replace new r (x ∷ rows) h = ground (arith, h, first-replace new r rows)

-- A statement of the engine: it is prepared, its parameters are encoded, and it runs.
statement_lem :
    (P : Option Error × Table → Type 0) (t : Table) (prepare exec : Option String)
    (encoded : Option Row) (act : Row → Option Error × Table)
    → ((e : Error) → P (some e, t))
    → ((r : Row) → encoded ≡ some r → P (act r))
    → P (elim prepare as (λ _. Option Error × Table) [
      | some e ↦ (some (prepare_failed e), t)
      | none ↦ elim encoded as (λ _. Option Error × Table) [
        | none ↦ (some bad_json, t)
        | some r ↦ elim exec as (λ _. Option Error × Table) [
          | some e ↦ (some (exec_failed e), t)
          | none ↦ act r
        ]
      ]
    ])
statement_lem P t (some e) exec encoded act fails acts = fails (prepare_failed e)
statement_lem P t none exec none act fails acts = fails bad_json
statement_lem P t none (some e) (some r) act fails acts = fails (exec_failed e)
statement_lem P t none none (some r) act fails acts = acts r refl

module _ (k : Codec) (violation : String) where
  -- The row stands at the network, the block and the address of the contract.
  abbrev pub Keyed : Contract → Row → Type 0
  Keyed c r =
      (r.network_id ≡ k.uint64 c.network_id)
      × (r.block_number ≡ k.uint64 c.block_number)
      × (r.address ≡ k.address_hex c.address)

  -- A row of the contract with the next id was added, without an error; or nothing was, with one.
  abbrev pub Saved : Contract → Table → Option Error × Table → Type 0
  Saved c t (err, t') =
      ((err ≡ none) × ((r : Row) × (t'.rows ≡ t.rows ++ r ∷ []) × (r.id ≡ t.next_id) × Keyed c r))
      ⊎ ((is_some err ≡ true) × (t' ≡ t))

  insert_row-Saved :
      (c : Contract) (t : Table) (r : Row)
      → r.id ≡ t.next_id
      → Keyed c r
      → Saved c t (insert_row k violation t r)
  unfolding insert_row
  insert_row-Saved c t r id key =
      elim (Option-cases (first (same_index r.network_id r.block_number r.address) t.rows)) [
        | inr (x, some_x) ↦ rw (some_x, insert_row) (inr (refl, refl))
        | inl no_x ↦ rw (no_x, insert_row) (inl (refl, (r, refl, id, key)))
      ]

  -- Whether it succeeds or not, a save keeps the ids and the unique index of the table; and it has added
  -- a row with the next id at the network, the block and the address of the contract, without an error,
  -- or it returns an error and has left the table as it was.
  pub save_contract-Saved :
      (fault : Fault) (c : Contract) (t : Table)
      → IsIndexed t
      → IsIndexed (save_contract k violation fault c t).1
        × Saved c t (save_contract k violation fault c t)
  unfolding save_contract
  save_contract-Saved fault c t v = (
    save_contract-IsIndexed k violation fault c t v,
    statement_lem (Saved c t) t fault.at_prepare fault.at_exec (encode k t.next_id c.created_at c)
        (insert_row k violation t) (λ e. inr (refl, refl))
        (λ r ok.
          let i = encode-index k t.next_id c.created_at c r ok in
          insert_row-Saved c t r i.0 (i.2, i.3, i.4)),
  )

  -- The row of the contract's id stands at the contract's key, with its creation time kept, and there
  -- was no error; or the table is as it was: with an error, or because no row has the id.
  abbrev pub Updated : Contract → Table → Option Error × Table → Type 0
  Updated c t (err, t') =
      ((err ≡ none)
        × ((old : Row) × (first (has_id c.id) t.rows ≡ some old)
            × ((r : Row) × (first (has_id c.id) t'.rows ≡ some r)
                × (r.created_at ≡ old.created_at)
                × Keyed c r)))
      ⊎ ((is_some err ≡ true) × (t' ≡ t))
      ⊎ ((err ≡ none) × (first (has_id c.id) t.rows ≡ none) × (t' ≡ t))

  update_row-Updated :
      (c : Contract) (t : Table) (r : Row)
      → r.id ≡ c.id
      → Keyed c r
      → Updated c t (update_row k violation t r)
  unfolding update_row
  update_row-Updated c t r id key = elim (Option-cases (first (has_id r.id) t.rows)) [
    | inl missing ↦
        let gone : first (has_id c.id) t.rows ≡ none =
          subst (λ i. first (has_id i) t.rows ≡ none) id missing in
        rw (missing, update_row) (inr (inr (refl, gone, refl)))
    | inr (old, there) ↦ elim (Option-cases (first (clashes r) t.rows)) [
      | inr (x, clash) ↦ rw (there, clash, update_row) (inr (inl (refl, refl)))
      | inl clear ↦
          let before : first (has_id c.id) t.rows ≡ some old =
            subst (λ i. first (has_id i) t.rows ≡ some old) id there in
          let new : Row = record r { created_at = old.created_at } in
          let after : first (has_id c.id) (replace r t.rows) ≡ some new =
            subst (λ i. first (has_id i) (replace r t.rows) ≡ some new) id
              (first-replace r old t.rows there) in
          rw (there, clear, update_row) (inl (refl, (old, before, (new, after, refl, key))))
    ]
  ]

  -- Whether it succeeds or not, an update keeps the ids and the unique index of the table; and the row of
  -- the contract's id stands at the network, the block and the address of the contract, with its
  -- creation time kept, without an error; or the update returns an error and has left the table as it
  -- was; or no row has the id, and the table is as it was without an error.
  pub update_contract-Updated :
      (fault : Fault) (c : Contract) (t : Table)
      → IsIndexed t
      → IsIndexed (update_contract k violation fault c t).1
        × Updated c t (update_contract k violation fault c t)
  unfolding update_contract
  update_contract-Updated fault c t v = (
    update_contract-IsIndexed k violation fault c t v,
    statement_lem (Updated c t) t fault.at_prepare fault.at_exec (encode k c.id c.created_at c)
        (update_row k violation t) (λ e. inr (inl (refl, refl)))
        (λ r ok.
          let i = encode-index k c.id c.created_at c r ok in
          update_row-Updated c t r i.0 (i.2, i.3, i.4)),
  )
