-- ===== src/Storage/Lost.antt =====
-- The insert of the final handler that meets a row of the contract: another goroutine has stored it since
-- the contract was looked up.
use downloader.Base.{
  String, ◌≡◌, ap, ◌∙◌, true, none, some, inl, inr, Option-cases, text_contains, ret, Returns,
  Returns-mono, Option, arith,
}
use downloader.Machine.{State}
use downloader.Models.{Contract, Row, Codec}
use downloader.Models.Columns.{exec_failed, encode}
use downloader.Models.Columns.RoundTrip.{encode-index}
use downloader.Models.Table.{
  Table, no_fault, first, same_index, has_id, save_contract, update_contract,
}
use downloader.Unpacker.States.{done_state}
use downloader.Unpacker.Descriptor.{Header, Descriptor}
use downloader.Unpacker.Library.{Solgo, Store, Config}
use downloader.Unpacker.Entry.{Job, Failure, get_contract_entry}
use downloader.Unpacker.Final.{store_entry, process_final}
use downloader.Unpacker.Flow.{IsCalm, IsPrepared}
use downloader.Unpacker.Flow.Storing.{IsStored, entry_fields, process_final-Returns}
use downloader.Storage.{table_store, describe, text_of}
use downloader.Storage.Kept.{IsWriting}

-- An insert that is refused for the unique index becomes an update.
store_entry-updates :
    (S : Solgo) (W : Store) (cfg : Config) (c : Contract) (db db1 : W.Db) (e : String)
    → W.save_contract c db ≡ (some e, db1)
    → text_contains e "UNIQUE constraint failed" ≡ true
    → store_entry S W cfg c none db ≡ W.update_contract c db1
unfolding store_entry
store_entry-updates S W cfg c db db1 e h names = ground (arith, h, names)

module _ (k : Codec) (violation : String) where
  -- The text of the insert's error names the constraint.
  abbrev pub NamesConstraint : Type 0
  NamesConstraint =
      text_contains (describe "insert" (exec_failed violation)) "UNIQUE constraint failed" ≡ true

  save_taken :
      (c : Contract) (t : Table) (old : Row)
      → IsWriting k
      → first
          (same_index (k.uint64 c.network_id) (k.uint64 c.block_number) (k.address_hex c.address))
          t.rows
        ≡ some old
      → save_contract k violation no_fault c t ≡ (some (exec_failed violation), t)
  unfolding save_contract encode
  save_taken c t old writes taken = elim (Option-cases (encode k t.next_id c.created_at c)) [
    | inl bad ↦
        absurd (
          ground
            (arith, bad, writes c.failed_states, writes c.standards, writes c.completed_states))
    | inr (r, made) ↦
        let index = encode-index k t.next_id c.created_at c r made in
        ground (arith, made, index, taken)
  ]

  update_missing :
      (c : Contract) (t : Table)
      → IsWriting k
      → first (has_id c.id) t.rows ≡ none
      → update_contract k violation no_fault c t ≡ (none, t)
  unfolding update_contract encode
  update_missing c t writes missing = elim (Option-cases (encode k c.id c.created_at c)) [
    | inl bad ↦
        absurd (
          ground
            (arith, bad, writes c.failed_states, writes c.standards, writes c.completed_states))
    | inr (r, made) ↦
        let index = encode-index k c.id c.created_at c r made in
        ground (arith, made, index.0, missing)
  ]

  module _ (S : Solgo) (cfg : Config) where
    abbrev W : Store
    W = table_store k violation

    -- The insert hits the unique index, and the update that follows finds no row of its id.
    store_entry-taken :
        (c : Contract) (t : Table) (old : Row)
        → IsWriting k
        → NamesConstraint
        → c.id ≡ 0
        → first (has_id 0) t.rows ≡ none
        → first
            (same_index (k.uint64 c.network_id) (k.uint64 c.block_number) (k.address_hex c.address))
            t.rows
          ≡ some old
        → store_entry S W cfg c none t ≡ (none, t)
    store_entry-taken c t old writes names id numbered taken =
        let save = save_taken c t old writes taken in
        let missing : first (has_id c.id) t.rows ≡ none =
          ap (λ n. first (has_id n) t.rows) id ∙ numbered in
        store_entry-updates S W cfg c t t (describe "insert" (exec_failed violation))
          (ap (text_of "insert") save) names
        ∙ ap (text_of "update") (update_missing c t writes missing)

    entry_id :
        (d : Descriptor S.SolContract) (entry : Contract)
        → d.contract_model ≡ none
        → get_contract_entry S cfg d ≡ ret entry
        → entry.id ≡ 0
    unfolding get_contract_entry
    entry_id d entry e made = ground (arith, e, made)

    -- What is left where another goroutine was faster.
    abbrev pub IsLost : Job S W → State × Job S W × Option Failure → Type 0
    IsLost j (s, j', err) =
        (s ≡ done_state) × (err ≡ none) × (j'.descriptor.processed ≡ true) × (j'.db ≡ j.db)

    -- The final handler of a prepared job that the storage had nothing of when it was looked up, over a
    -- table with ids from 1 that has a row at its network, block and address by now: where the library
    -- returns, lists of texts can be written and the error of the insert names the constraint, it goes
    -- to `done` without an error and with its descriptor processed, and the table stays.
    pub process_final-IsLost :
        (j : Job S W) (h : Header) (old : Row)
        → IsCalm S
        → IsWriting k
        → NamesConstraint
        → IsPrepared j.descriptor
        → j.descriptor.header ≡ some h
        → j.descriptor.contract_model ≡ none
        → first (has_id 0) j.db.rows ≡ none
        → first
            (same_index
              (k.uint64 j.descriptor.network_id)
              (k.uint64 h.number)
              (k.address_hex j.descriptor.addr))
            j.db.rows
          ≡ some old
        → Returns (IsLost j) (process_final S W cfg j)
    process_final-IsLost j h old calm writes names p header model numbered taken =
        Returns-mono (IsStored S W cfg calm j) (IsLost j) (process_final S W cfg j)
          (λ r f.
            let (entry, made, saved, failed) = f.5 in
            let (network, number, addr, processed) =
              entry_fields S W cfg calm (record (j.descriptor) { processed = true }) entry h header
                made in
            let stays : store_entry S W cfg entry none j.db ≡ (none, j.db) =
              store_entry-taken entry j.db old writes names
                (entry_id (record (j.descriptor) { processed = true }) entry model made) numbered
                (rw (network, number, addr) taken) in
            (
              f.0,
              f.1,
              f.4,
              saved ∙ (ap (λ m. (store_entry S W cfg entry m j.db).1) model ∙ ap (λ x. x.1) stays),
            ))
          (process_final-Returns S W cfg calm j p)
