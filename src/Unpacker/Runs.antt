-- ===== src/Unpacker/Runs.antt =====
-- `Unpacker.Unpack`: whole runs of the pipeline. The rounds of a run are as many as the stages that
-- it visits, so that seven are enough.
use downloader.Base.{
  arith, ℕ, String, ◌≡◌, refl, ap, sym, subst, Yields-ret, ◌∙◌, Bool, true, false, not, ◌&&◌,
  Option, none, some, [], ◌∷◌, ret, Returns-ret, is_some, contains, Every-contains,
}
use downloader.Machine.{State}
use downloader.Models.{Contract}
use downloader.Unpacker.States.{
  discover_state, metadata_state, source_providers_state, sources_state, parser_state,
  constructor_state, final_state, error_state, done_state,
}
use downloader.Unpacker.Descriptor.{Header, has_failed_state}
use downloader.Unpacker.Library.{Solgo, Store, Config}
use downloader.Unpacker.Entry.{Job}
use downloader.Unpacker.Discover.{is_done, discover}
use downloader.Unpacker.Final.{store_entry, process_final}
use downloader.Unpacker.Assembly.{at, unpack}
use downloader.Unpacker.Assembly.Rounds.{process-moves, process-ends, process-fails}
use downloader.Unpacker.Flow.{IsPrepared, IsCalm, identity, accounted}
use downloader.Unpacker.Flow.Storing.{IsStored, entry_fields, process_final-Returns}
use downloader.Unpacker.Flow.Writing.{Writes, store_entry-Writes, process_final-header}
use downloader.Unpacker.Flow.Opening.{
  IsFetched, IsOpened, IsClosed, discover-opens, discover-closes, discover-fails,
}
use downloader.Unpacker.Study.{
  unpack-process, discover-IsStage, final-IsStage, accountable, stages, IsStudied, study,
}

module _ (S : Solgo) (W : Store) (cfg : Config) where
  module _ (done : ℕ → Bool) (never : (n : ℕ) → done n ≡ false) where
    module _ (calm : IsCalm S) where
      -- A contract's descriptor was processed, every stage but the constructor's is completed or has
      -- failed, and an entry with the contract's key was saved, or updated where the storage has the
      -- contract. If that failed the failure is recorded, and no file was written. The header is as
      -- before.
      abbrev pub IsUnpacked : Option Contract → Header → Job S W → Job S W → Type 0
      IsUnpacked found h j j' =
          (j'.descriptor.processed ≡ true)
          × ((s : State) → contains s accountable ≡ true → accounted s j'.descriptor ≡ true)
          × (j'.descriptor.header ≡ some h)
          × ((entry : Contract) × (entry.network_id ≡ j.descriptor.network_id)
              × (entry.block_number ≡ h.number)
              × (entry.address ≡ j.descriptor.addr)
              × (entry.processed ≡ true)
              × ((err : Option String) × Writes W found entry j.db err j'.db
                  × (is_some err ≡ true
                      → (has_failed_state final_state j'.descriptor ≡ true)
                        × (j'.files ≡ j.files))))

      -- The parts of a whole run give what it leaves.
      gather :
          (j j1 j2 j3 : Job S W) (h : Header) (found : Option Contract)
          → j.descriptor.header ≡ some h
          → IsOpened S W cfg found j (metadata_state, j1, none)
          → IsStudied S W cfg done never calm j1 j2
          → IsStored S W cfg calm j2 (done_state, j3, none)
          → j3.descriptor.header ≡ j2.descriptor.header
          → IsUnpacked found h j j3
      gather j j1 j2 j3 h found he o k f kept =
          let same : identity j2.descriptor ≡ (
            found, j.descriptor.network_id, j.descriptor.addr, j.descriptor.header, j.descriptor.tx,
          ) =
            k.3 ∙ o.3 in
          let db : j2.db ≡ j.db = k.1 ∙ o.4 in
          let (entry, made, saved, failed) = f.5 in
          let (network, number, addr, processed) =
            entry_fields S W cfg calm (record (j2.descriptor) { processed = true }) entry h
              (ap (λ i. i.3) same ∙ he) made in
          let stores : store_entry S W cfg entry j2.descriptor.contract_model j2.db
              ≡ store_entry S W cfg entry found j.db =
            rw (ap (λ i. i.0) same, db) refl in
          (
            f.4,
            λ s.
                Every-contains (λ t. accounted t j3.descriptor ≡ true) accountable s
                  (
                    ground (arith, f.2.0.3),
                    (
                      f.2.1 metadata_state k.4,
                      (
                        f.2.1 source_providers_state k.5,
                        (f.2.1 sources_state k.6, (f.2.1 parser_state k.7, (f.3, tt))),
                      ),
                    ),
                  ),
            kept ∙ (ap (λ i. i.3) same ∙ he),
            (
              entry,
              network ∙ ap (λ i. i.1) same,
              number,
              addr ∙ ap (λ i. i.2) same,
              processed,
              (
                (store_entry S W cfg entry found j.db).0,
                subst (Writes W found entry j.db (store_entry S W cfg entry found j.db).0)
                    (sym (saved ∙ ap (λ r. r.1) stores))
                    (store_entry-Writes S W cfg entry found j.db),
                λ h. let r = failed (ap (λ r. is_some r.0) stores ∙ h) in (r.0, r.1 ∙ (k.2 ∙ o.5)),
              ),
            ),
          )

      -- The run, and what its last descriptor has.
      pub unpack-run :
          (j : Job S W) (h : Header) (found : Option Contract)
          → IsFetched S W cfg j h found
          → (is_done found && not cfg.force_reprocess) ≡ false
          → (j' : Job S W) × IsUnpacked found h j j'
            × IsPrepared j'.descriptor
            × (unpack S W cfg 7 done discover_state j
                ≡ some (ret (none, at S W cfg done_state j' (discover_state ∷ stages))))
      unpack-run j h found fetched open_ =
          let ((s1, j1, err1), e1, g1) =
            Returns-ret (IsOpened S W cfg found j) (discover S W cfg j)
              (discover-opens S W cfg calm j h found fetched open_) in
          let (j2, k2, e2) = study S W cfg done never calm j1 g1.2 in
          let ((s3, j3, err3), e3, g3) =
            Returns-ret (IsStored S W cfg calm j2) (process_final S W cfg j2)
              (process_final-Returns S W cfg calm j2 k2.0.0) in
          let first =
            process-moves S W cfg (discover S W cfg) discover_state (discover-IsStage S W cfg) j j1
              (discover_state ∷ []) 6 0 done (never 0) metadata_state
              (e1 ∙ rw (← g1.0, ← g1.1) refl) refl refl in
          let last =
            process-ends S W cfg (process_final S W cfg) final_state (final-IsStage S W cfg) j2 j3
              (discover_state ∷ metadata_state ∷ source_providers_state ∷ sources_state
                ∷ parser_state ∷ constructor_state ∷ final_state ∷ [])
              0 6 done (never 6) (e3 ∙ rw (← g3.0, ← g3.1) refl) in
          (
            j3,
            gather j j1 j2 j3 h found fetched.header_is (refl, refl, g1.2, g1.3, g1.4, g1.5) k2
                (refl, refl, g3.2, g3.3, g3.4, g3.5)
                (Yields-ret _ (process_final S W cfg j2) (s3, j3, err3)
                  (process_final-header S W cfg j2) e3),
            g3.2.0,
            unpack-process S W cfg 7 done discover_state j ∙ (first ∙ (e2 ∙ last)),
          )

      pub unpack-visits :
          (j : Job S W) (h : Header) (found : Option Contract)
          → IsFetched S W cfg j h found
          → (is_done found && not cfg.force_reprocess) ≡ false
          → (j' : Job S W) × IsUnpacked found h j j'
            × (unpack S W cfg 7 done discover_state j
                ≡ some (ret (none, at S W cfg done_state j' (discover_state ∷ stages))))
      unpack-visits j h found fetched open_ =
          let (j', u, p, r) = unpack-run j h found fetched open_ in (j', u, r)

      -- Where the library returns and the context is never done, the run of a fetched job whose
      -- contract is completed in the storage, and is not to be processed again, ends after one round:
      -- the storage's answer is the model, and the storage and the files are as before.
      pub unpack-skips :
          (j : Job S W) (h : Header) (found : Option Contract)
          → IsFetched S W cfg j h found
          → (is_done found && not cfg.force_reprocess) ≡ true
          → (j' : Job S W) × (j'.descriptor.contract_model ≡ found)
            × (j'.descriptor.processed ≡ j.descriptor.processed)
            × (j'.db ≡ j.db)
            × (j'.files ≡ j.files)
            × (unpack S W cfg 1 done discover_state j
                ≡ some (ret (none, at S W cfg done_state j' (discover_state ∷ done_state ∷ []))))
      unpack-skips j h found fetched closed =
          let ((s1, j1, err1), e1, g1) =
            Returns-ret (IsClosed S W cfg found j) (discover S W cfg j)
              (discover-closes S W cfg calm j h found fetched closed) in
          (
            j1,
            g1.2,
            g1.3,
            g1.4,
            g1.5,
            unpack-process S W cfg 1 done discover_state j
                ∙ process-ends S W cfg (discover S W cfg) discover_state (discover-IsStage S W cfg)
                    j j1 (discover_state ∷ []) 0 0 done (never 0) (e1 ∙ rw (← g1.0, ← g1.1) refl),
          )

    -- A job without its header, its transaction or its receipt is not unpacked where the context is
    -- never done, and yet the run returns no error: the machine is in the error state, with the job as
    -- it was.
    pub unpack-swallows :
        (j : Job S W)
        → (is_some j.descriptor.header && (is_some j.descriptor.tx && is_some j.descriptor.receipt))
          ≡ false
        → unpack S W cfg 1 done discover_state j
          ≡ some (ret (none, at S W cfg error_state j (discover_state ∷ error_state ∷ [])))
    unpack-swallows j missing =
        let (e, fails) = discover-fails S W cfg j missing in
        unpack-process S W cfg 1 done discover_state j
        ∙ process-fails S W cfg (discover S W cfg) discover_state (discover-IsStage S W cfg) j j
            (discover_state ∷ []) 0 0 done (never 0) error_state e fails
