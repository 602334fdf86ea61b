-- ===== src/Unpacker/Flow/Writing.antt =====
-- What the last handler gives to the storage, in the storage's own calls, and the header that it keeps.
use downloader.Base.{
  String, ◌≡◌, refl, ap, ◌∙◌, sym, subst, true, false, Option, none, some, ◌∷◌, ◌⊎◌, inl, inr,
  Bool-cases, Option-cases, Returns, Returns-mono, is_some, ret, text_contains, Yields, yields,
  Yields-bind, Yields-any, Yields-if, Yields-then, deref, arith, if◌then◌else◌,
}
use downloader.Machine.{State}
use downloader.Models.{Contract}
use downloader.Unpacker.States.{discover_state, final_state, done_state}
use downloader.Unpacker.Descriptor.{
  Header, Descriptor, has_completed_state, has_failed_state, append_completed_state,
  append_failed_state,
}
use downloader.Unpacker.Library.{Solgo, Store, Config}
use downloader.Unpacker.Entry.{
  Job, Failure, log_line, to_discover, get_storage_cache_path, get_contract_entry,
}
use downloader.Unpacker.Metadata.{complete}
use downloader.Unpacker.Flow.{IsCalm, IsPrepared, accounted}
use downloader.Unpacker.Flow.Storing.{IsStored, entry_fields, process_final-Returns}
use downloader.Unpacker.Final.{store_entry, record_failure, write_cache, process_final}

module _ (W : Store) where
  -- The entry of a contract that the storage has was updated. That of another was saved; or the save
  -- failed on the unique index, and the entry was updated; or it failed otherwise.
  abbrev pub Writes : Option Contract → Contract → W.Db → Option String → W.Db → Type 0
  Writes (some m) entry db err db' = W.update_contract entry db ≡ (err, db')
  Writes none entry db err db' =
      ((err ≡ none) × (W.save_contract entry db ≡ (none, db')))
      ⊎ ((e : String) × (db1 : W.Db) × (W.save_contract entry db ≡ (some e, db1))
          × (text_contains e "UNIQUE constraint failed" ≡ true)
          × (W.update_contract entry db1 ≡ (err, db')))
      ⊎ ((e : String) × (err ≡ some e)
          × (W.save_contract entry db ≡ (some e, db'))
          × (text_contains e "UNIQUE constraint failed" ≡ false))

  -- Where the save succeeds, its outcome is that of the writing.
  pub Writes-saved :
      (entry : Contract) (db db' t : W.Db) (err : Option String)
      → W.save_contract entry db ≡ (none, t)
      → Writes none entry db err db'
      → (err ≡ none) × (db' ≡ t)
  Writes-saved entry db db' t err h (inl (a, b)) = (a, ap (λ x. x.1) (sym b ∙ h))
  Writes-saved entry db db' t err h (inr (inl (e, db1, b, _, _))) =
      absurd (ground (arith, ap (λ x. x.0) (sym b ∙ h)))
  Writes-saved entry db db' t err h (inr (inr (e, a, b, _))) =
      absurd (ground (arith, ap (λ x. x.0) (sym b ∙ h)))

module _ (S : Solgo) (W : Store) (cfg : Config) where
  saved-Writes :
      (entry : Contract) (db : W.Db) (r : Option String × W.Db)
      → W.save_contract entry db ≡ r
      → let o : Option String × W.Db = elim r.0 [
        | none ↦ (none, r.1)
        | some e ↦
            if text_contains e "UNIQUE constraint failed"
            then W.update_contract entry r.1
            else (some e, r.1)
      ] in
        Writes W none entry db o.0 o.1
  saved-Writes entry db (none, db1) h = inl (refl, h)
  saved-Writes entry db (some e, db1) h =
      elim (Bool-cases (text_contains e "UNIQUE constraint failed")) [
        | inl clash ↦ rw clash (inr (inl (e, db1, h, clash, refl)))
        | inr other ↦ rw other (inr (inr (e, refl, h, other)))
      ]

  pub store_entry-Writes :
      (entry : Contract) (found : Option Contract) (db : W.Db)
      → Writes W found entry db
          (store_entry S W cfg entry found db).0
          (store_entry S W cfg entry found db).1
  unfolding store_entry
  store_entry-Writes entry (some m) db = refl
  store_entry-Writes entry none db = saved-Writes entry db (W.save_contract entry db) refl

  -- The descriptor has the header of the other.
  abbrev HasHeader : Descriptor S.SolContract → Descriptor S.SolContract → Type 0
  HasHeader d d' = d'.header ≡ d.header

  record_failure-header :
      (err : Option String) (d : Descriptor S.SolContract)
      → Yields (HasHeader d) (record_failure S W cfg err d)
  unfolding record_failure append_failed_state
  record_failure-header none d = let same : Yields (HasHeader d) (ret d) = yields refl in same
  record_failure-header (some e) d =
      let failed : Yields (HasHeader d) (ret (append_failed_state final_state d)) = yields refl in
      Yields-then (HasHeader d) (log_line d) _ failed

  write_cache-header :
      (c : S.SolContract) (j : Job S W)
      → Yields (λ (j' : Job S W). HasHeader j.descriptor j'.descriptor) (write_cache S W cfg c j)
  unfolding write_cache
  write_cache-header c j =
      let Q : Job S W → Type 0 = λ j'. HasHeader j.descriptor j'.descriptor in
      let same : Yields Q (ret j) = yields refl in
      Yields-if Q (S.has_sources c) _ _
        (λ _.
          Yields-if Q (has_failed_state final_state j.descriptor) _ _ (λ _. same)
            (λ _. Yields-any Q (get_storage_cache_path cfg j.descriptor) _ λ path.
              Yields-any Q (S.write_sources c (cfg.contracts_path ∷ path) j.files) _ λ (files, err).
                Yields-bind (HasHeader j.descriptor) Q (record_failure S W cfg err j.descriptor) _
                  (record_failure-header err j.descriptor)
                  λ d k.
                    let j1 : Job S W = record j { descriptor = d; files = files } in
                    let kept : Yields Q (ret j1) = yields k in kept))
        (λ _. same)

  complete-header : (s : State) (d : Descriptor S.SolContract) → HasHeader d (complete s d)
  unfolding append_completed_state
  complete-header s d = ground arith

  -- Whatever the library and the storage do, the last handler keeps the header.
  pub process_final-header :
      (j : Job S W)
      → Yields
          (λ (r : State × Job S W × Option Failure). HasHeader j.descriptor r.1.descriptor)
          (process_final S W cfg j)
  unfolding process_final
  process_final-header j =
      let G : State × Job S W × Option Failure → Type 0 =
        λ r. HasHeader j.descriptor r.1.descriptor in
      Yields-any G (deref j.descriptor.contract) _ λ c.
        Yields-if G (has_completed_state discover_state j.descriptor) _ (to_discover j)
          (λ _.
            let d : Descriptor S.SolContract = record (j.descriptor) { processed = true } in
            Yields-any G (get_contract_entry S cfg d) _ λ entry.
              let (err, db) = store_entry S W cfg entry d.contract_model j.db in
              Yields-bind (HasHeader d) G (record_failure S W cfg err d) _
                (record_failure-header err d)
                λ d1 k1.
                  let j1 : Job S W = record j { descriptor = d1; db = db } in
                  Yields-bind (λ (j2 : Job S W). HasHeader d1 j2.descriptor) G
                    (write_cache S W cfg c j1) _ (write_cache-header c j1)
                    λ j2 k2. yields (complete-header final_state j2.descriptor ∙ (k2 ∙ k1)))
          (λ _. yields refl)

  module _ (calm : IsCalm S) where
    -- The run is over without an error; an entry with the key of the contract that says that it is
    -- processed was saved, or updated where the storage has the contract; where that failed the last
    -- state has failed and no file was written.
    abbrev pub IsWritten : Job S W → State × Job S W × Option Failure → Type 0
    IsWritten j (s, j', err) =
        (s ≡ done_state)
        × (err ≡ none)
        × (accounted final_state j'.descriptor ≡ true)
        × (j'.descriptor.processed ≡ true)
        × ((entry : Contract) × (h : Header) × (j.descriptor.header ≡ some h)
            × (entry.network_id ≡ j.descriptor.network_id)
            × (entry.block_number ≡ h.number)
            × (entry.address ≡ j.descriptor.addr)
            × (entry.processed ≡ true)
            × ((failure : Option String) × Writes W j.descriptor.contract_model entry j.db failure
                  j'.db
                × (is_some failure ≡ true
                    → (has_failed_state final_state j'.descriptor ≡ true) × (j'.files ≡ j.files))))

    -- Where the library returns, the final handler of a prepared job goes to `done` without an error: the
    -- descriptor is processed and its last state completed or failed; an entry with the network, the
    -- block and the address of the contract that says that it is processed was saved, or updated where
    -- the model is that of the storage or the save hit the unique index; and where that failed the last
    -- state has failed and no file was written.
    pub process_final-IsWritten :
        (j : Job S W) → IsPrepared j.descriptor → Returns (IsWritten j) (process_final S W cfg j)
    process_final-IsWritten j p =
        Returns-mono (IsStored S W cfg calm j) (IsWritten j) (process_final S W cfg j)
          (λ (s, j', err) f.
            let (entry, made, saved, failed) = f.5 in
            elim (Option-cases j.descriptor.header) [
              | inl missing ↦ absurd (ground (arith, missing, p.0))
              | inr (h, header) ↦
                  let d : Descriptor S.SolContract = record (j.descriptor) { processed = true } in
                  let (network, number, addr, processed) =
                    entry_fields S W cfg calm d entry h header made in
                  let wrote = store_entry S W cfg entry j.descriptor.contract_model j.db in
                  (
                    f.0,
                    f.1,
                    f.3,
                    f.4,
                    (
                      entry,
                      h,
                      header,
                      network,
                      number,
                      addr,
                      processed,
                      (
                        wrote.0,
                        subst (Writes W j.descriptor.contract_model entry j.db wrote.0) (sym saved)
                            (store_entry-Writes entry j.descriptor.contract_model j.db),
                        failed,
                      ),
                    ),
                  )
            ])
          (process_final-Returns S W cfg calm j p)
