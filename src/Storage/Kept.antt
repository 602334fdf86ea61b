-- ===== src/Storage/Kept.antt =====
-- What a run of the pipeline leaves in the table of contracts.
use downloader.Base.{
  String, ℕ, ◌+◌, ◌≡◌, refl, sym, ap, ◌∙◌, Bool, true, false, none, some, inl, inr, List, [], ◌∷◌,
  ◌++◌, ==_refl, Option-cases, is_some, ret, arith,
}
use downloader.Models.{Contract, Row, Codec}
use downloader.Models.Columns.{encode}
use downloader.Models.Columns.RoundTrip.{encode-index}
use downloader.Models.Table.{Table, no_fault, first, same_index, save_contract}
use downloader.Models.Table.Lookup.{first-append}
use downloader.Unpacker.States.{discover_state, done_state}
use downloader.Unpacker.Descriptor.{Header}
use downloader.Unpacker.Library.{Solgo, Store, Config}
use downloader.Unpacker.Entry.{Job}
use downloader.Unpacker.Final.{store_entry}
use downloader.Unpacker.Flow.{IsCalm}
use downloader.Unpacker.Flow.Opening.{IsFetched}
use downloader.Unpacker.Assembly.{unpack, at}
use downloader.Unpacker.Study.{stages}
use downloader.Unpacker.Flow.Writing.{Writes-saved}
use downloader.Unpacker.Runs.{unpack-visits}
use downloader.Storage.{table_store, text_of}

-- Lists of texts can be written as JSON.
abbrev pub IsWriting : Codec → Type 0
IsWriting k = (t : List String) → is_some (k.texts_to_json t) ≡ true

-- A save that succeeds is all that the storing of a new entry does.
pub store_entry-saved :
    (S : Solgo) (W : Store) (cfg : Config) (c : Contract) (db db' : W.Db)
    → W.save_contract c db ≡ (none, db')
    → (store_entry S W cfg c none db).1 ≡ db'
unfolding store_entry
store_entry-saved S W cfg c db db' e = ground (arith, e)

module _ (k : Codec) (violation : String) where
  -- A save at an index that no row has appends the contract's row.
  pub save_fresh :
      (c : Contract) (t : Table)
      → IsWriting k
      → first
          (same_index (k.uint64 c.network_id) (k.uint64 c.block_number) (k.address_hex c.address))
          t.rows
        ≡ none
      → (t' : Table) × (r : Row) × (save_contract k violation no_fault c t ≡ (none, t'))
        × (first
              (same_index
                (k.uint64 c.network_id)
                (k.uint64 c.block_number)
                (k.address_hex c.address))
              t'.rows
            ≡ some r)
        × (r.processed ≡ c.processed)
        × (t'.rows ≡ t.rows ++ r ∷ [])
        × (same_index (k.uint64 c.network_id) (k.uint64 c.block_number) (k.address_hex c.address) r
            ≡ true)
  unfolding save_contract encode
  save_fresh c t writes fresh = elim (Option-cases (k.texts_to_json c.failed_states)) [
    | inl bad ↦ absurd (ground (arith, bad, writes c.failed_states))
    | inr (j, ok) ↦ elim (Option-cases (encode k t.next_id c.created_at c)) [
      | inl bad ↦ absurd (encode-writes j ok bad)
      | inr (r, made) ↦
          let index = encode-index k t.next_id c.created_at c r made in
          let p : Row → Bool =
            same_index (k.uint64 c.network_id) (k.uint64 c.block_number)
              (k.address_hex c.address) in
          (
            record { rows = t.rows ++ r ∷ []; next_id = t.next_id + 1 },
            r,
            ground (arith, made, index, fresh),
            ground (arith, first-append p r t.rows, fresh, index, ==_refl r.address),
            encode-processed r made,
            refl,
            ground (arith, index, ==_refl r.address),
          )
    ]
  ]
    where
      encode-writes :
          (j : String)
          → k.texts_to_json c.failed_states ≡ some j
          → encode k t.next_id c.created_at c ≡ none
          → ⊥
      encode-writes j ok bad = ground arith

      encode-processed :
          (r : Row) → encode k t.next_id c.created_at c ≡ some r → r.processed ≡ c.processed
      encode-processed r made = ground arith

  module _ (S : Solgo) (cfg : Config) (done : ℕ → Bool) (never : (n : ℕ) → done n ≡ false)
      (calm : IsCalm S) where
    -- The rows at the network, block and address of a job.
    abbrev pub index_of : Job S (table_store k violation) → Header → Row → Bool
    index_of j h =
        same_index (k.uint64 j.descriptor.network_id) (k.uint64 h.number)
          (k.address_hex j.descriptor.addr)

    key_of :
        (j : Job S (table_store k violation)) (h : Header) (c : Contract)
        → c.network_id ≡ j.descriptor.network_id
        → c.block_number ≡ h.number
        → c.address ≡ j.descriptor.addr
        → same_index (k.uint64 c.network_id) (k.uint64 c.block_number) (k.address_hex c.address)
          ≡ index_of j h
    key_of j h c n b a = rw (n, b, a) refl

    -- Over the table of contracts, where the library returns, the context is never done and lists of
    -- texts can be written: a run of a fetched job whose network, block and address no row has leaves
    -- a row there that says that the contract is processed.
    pub unpack-stores :
        (j : Job S (table_store k violation)) (h : Header)
        → IsWriting k
        → IsFetched S (table_store k violation) cfg j h none
        → first (index_of j h) j.db.rows ≡ none
        → (j' : Job S (table_store k violation)) × (r : Row) × (unpack S
              (table_store k violation)
              cfg
              7
              done
              discover_state
              j
            ≡ some (
                ret (
                  none,
                  at S (table_store k violation) cfg done_state j' (discover_state ∷ stages),
                )))
          × (first (index_of j h) j'.db.rows ≡ some r)
          × (r.processed ≡ true)
    unpack-stores j h writes fetched fresh =
        let (j', u, run) =
          unpack-visits S (table_store k violation) cfg done never calm j h none fetched refl in
        let (entry, network, number, addr, processed, (failure, wrote, failed)) = u.3 in
        let (t', r, save, found, kept, _, _) =
          save_fresh entry j.db writes
            (ap (λ p. first p j.db.rows) (key_of j h entry network number addr) ∙ fresh) in
        let at_index = key_of j h entry network number addr in
        (
          j',
          r,
          run,
          ap (λ db. first (index_of j h) db.rows)
                (Writes-saved (table_store k violation) entry j.db j'.db t' failure
                  (ap (text_of "insert") save) wrote).1
              ∙ (ap (λ p. first p t'.rows) (sym at_index) ∙ found),
          kept ∙ processed,
        )
