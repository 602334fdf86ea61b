-- ===== src/Unpacker/Flow/Opening.antt =====
-- The first handler of the pipeline, `discover`: where the library returns it prepares the
-- descriptor, or ends the run of a contract that is completed.
use downloader.Base.{
  ◌≡◌, refl, ap, Bool, true, false, not, ◌&&◌, Option, none, some, ret, Option-cases, inl, inr,
  Returns, returns, Returns-bind, is_some, arith,
}
use downloader.Machine.{State}
use downloader.Models.{Contract}
use downloader.Unpacker.States.{discover_state, metadata_state, error_state, done_state}
use downloader.Unpacker.Descriptor.{Header, has_next_state, append_completed_state}
use downloader.Unpacker.Descriptor.Lists.{has_completed_state-append}
use downloader.Unpacker.Library.{Solgo, Store, Config, Lookup, no_rows, stored}
use downloader.Unpacker.Entry.{Job, Failure, no_header, no_transaction, no_receipt, with_descriptor}
use downloader.Unpacker.Discover.{is_done, onward, settle, look_up, probe, discover}
use downloader.Unpacker.Flow.{IsCalm, IsPrepared, identity}

-- The answer of a lookup that did not fail.
abbrev pub answer : Option Contract → Lookup
answer none = no_rows
answer (some c) = stored c

module _ (S : Solgo) (W : Store) (cfg : Config) where
  -- What a job needs in order to be unpacked: all that the chain says of the contract, and an
  -- answer of the storage.
  pub record IsFetched (j : Job S W) (h : Header) (found : Option Contract) : Type 0 where
    pub header_is : j.descriptor.header ≡ some h
    pub has_tx : is_some j.descriptor.tx ≡ true
    pub has_receipt : is_some j.descriptor.receipt ≡ true
    pub has_contract : is_some j.descriptor.contract ≡ true
    pub not_directed : has_next_state j.descriptor ≡ false
    pub answered :
        W.get_contract_by_unique_index j.descriptor.network_id h.number j.descriptor.addr j.db
        ≡ answer found

  -- The descriptor is as the handlers want it, with what the storage answered.
  abbrev pub IsOpened : Option Contract → Job S W → State × Job S W × Option Failure → Type 0
  IsOpened found j (s, j', err) =
      (s ≡ metadata_state)
      × (err ≡ none)
      × IsPrepared j'.descriptor
      × (identity j'.descriptor ≡ (
        found, j.descriptor.network_id, j.descriptor.addr, j.descriptor.header, j.descriptor.tx,
      ))
      × (j'.db ≡ j.db)
      × (j'.files ≡ j.files)

  -- A completed contract: nothing is done.
  abbrev pub IsClosed : Option Contract → Job S W → State × Job S W × Option Failure → Type 0
  IsClosed found j (s, j', err) =
      (s ≡ done_state)
      × (err ≡ none)
      × (j'.descriptor.contract_model ≡ found)
      × (j'.descriptor.processed ≡ j.descriptor.processed)
      × (j'.db ≡ j.db)
      × (j'.files ≡ j.files)

  -- Without the header, the transaction or the receipt the handler fails.
  pub discover-fails :
      (j : Job S W)
      → (is_some j.descriptor.header && (is_some j.descriptor.tx && is_some j.descriptor.receipt))
        ≡ false
      → (e : Failure) × (discover S W cfg j ≡ ret (error_state, j, some e))
  unfolding discover
  discover-fails j missing = elim (Option-cases j.descriptor.header) [
    | inl e ↦ (no_header j.descriptor.addr, ground arith)
    | inr (h, e) ↦ elim (Option-cases j.descriptor.tx) [
      | inl e1 ↦ (no_transaction j.descriptor.addr, ground arith)
      | inr (t, e1) ↦ elim (Option-cases j.descriptor.receipt) [
        | inl e2 ↦ (no_receipt j.descriptor.addr, ground arith)
        | inr (r, e2) ↦ absurd (ground arith)
      ]
    ]
  ]

  settle-opens :
      (found : Option Contract) (j : Job S W)
      → (is_done found && not cfg.force_reprocess) ≡ false
      → is_some j.descriptor.header ≡ true
      → is_some j.descriptor.tx ≡ true
      → is_some j.descriptor.contract ≡ true
      → has_next_state j.descriptor ≡ false
      → Returns (IsOpened found j) (settle S W cfg found j)
  unfolding settle onward append_completed_state
  settle-opens found j open_ h t c n =
      rw (open_, n)
        (returns (
          refl,
          refl,
          (
            h,
            t,
            c,
            ground (arith, has_completed_state-append discover_state discover_state j.descriptor),
          ),
          refl,
          refl,
          refl,
        ))

  settle-closes :
      (found : Option Contract) (j : Job S W)
      → (is_done found && not cfg.force_reprocess) ≡ true
      → Returns (IsClosed found j) (settle S W cfg found j)
  unfolding settle
  settle-closes found j done = rw done (returns (refl, refl, refl, refl, refl, refl))

  look_up-Returns :
      (Q : State × Job S W × Option Failure → Type 0) (found : Option Contract) (h : Header)
      (j : Job S W)
      → W.get_contract_by_unique_index j.descriptor.network_id h.number j.descriptor.addr j.db
        ≡ answer found
      → Returns Q (settle S W cfg found j)
      → Returns Q (look_up S W cfg h j)
  unfolding look_up
  look_up-Returns Q none h j e k = rw (e, look_up) k
  look_up-Returns Q (some c) h j e k = rw (e, look_up) k

  module _ (calm : IsCalm S) where
    -- Whether the code is valid only shows in `self_destructed`.
    discover-Returns :
        (Q : State × Job S W × Option Failure → Type 0) (j : Job S W) (h : Header)
        (found : Option Contract)
        → IsFetched j h found
        → ((gone : Bool)
            → Returns Q (
                settle S W cfg found
                  (with_descriptor (record (j.descriptor) { self_destructed = gone }) j)))
        → Returns Q (discover S W cfg j)
    unfolding discover probe
    discover-Returns Q j h found f k = elim (Option-cases j.descriptor.tx) [
      | inl e ↦ absurd (ground (arith, f.has_tx))
      | inr (t, e) ↦ elim (Option-cases j.descriptor.receipt) [
        | inl e1 ↦ absurd (ground (arith, f.has_receipt))
        | inr (r, e1) ↦ elim (Option-cases j.descriptor.contract) [
          | inl e2 ↦ absurd (ground (arith, f.has_contract))
          | inr (c, e2) ↦
              rw (f.header_is, e, e1, e2, discover, probe)
                (Returns-bind _ _ _ _ (calm.is_valid_returns c) λ valid _.
                  look_up-Returns Q found h
                    (with_descriptor (record (j.descriptor) { self_destructed = not valid }) j)
                    f.answered (k (not valid)))
        ]
      ]
    ]

    -- Where the library returns, the discovery of a fetched job whose contract is not completed in the
    -- storage (or is to be processed again) goes on to the metadata without an error, the descriptor
    -- prepared, the storage's answer its model, the storage and the files as before.
    pub discover-opens :
        (j : Job S W) (h : Header) (found : Option Contract)
        → IsFetched j h found
        → (is_done found && not cfg.force_reprocess) ≡ false
        → Returns (IsOpened found j) (discover S W cfg j)
    discover-opens j h found f open_ = discover-Returns (IsOpened found j) j h found f λ gone.
        settle-opens found (with_descriptor (record (j.descriptor) { self_destructed = gone }) j)
          open_ (ap is_some f.header_is) f.has_tx f.has_contract f.not_directed

    pub discover-closes :
        (j : Job S W) (h : Header) (found : Option Contract)
        → IsFetched j h found
        → (is_done found && not cfg.force_reprocess) ≡ true
        → Returns (IsClosed found j) (discover S W cfg j)
    discover-closes j h found f done = discover-Returns (IsClosed found j) j h found f λ gone.
        settle-closes found (with_descriptor (record (j.descriptor) { self_destructed = gone }) j)
          done
