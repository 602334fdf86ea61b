-- ===== src/Unpacker/Flow/Storing.antt =====
-- The handlers at the two ends of the pipeline, `discover` and `final`: where the library returns,
-- the first prepares the descriptor and the last stores the entry that describes it.
use downloader.Base.{
  String, ◌≡◌, refl, ◌∙◌, true, Option, none, some, ◌∷◌, ret, Option-cases, inl, inr, Returns,
  returns, Returns-bind, Returns-if, Returns-then, Returns-guard, Returns-deref, Returns-self,
  is_some, arith,
}
use downloader.Machine.{State}
use downloader.Models.{Contract}
use downloader.Unpacker.States.{final_state, done_state}
use downloader.Unpacker.Descriptor.{
  Header, Descriptor, has_failed_state, append_completed_state, append_failed_state,
}
use downloader.Unpacker.Descriptor.Lists.{has_failed_state-append}
use downloader.Unpacker.Library.{Solgo, Store, Config}
use downloader.Unpacker.Entry.{Job, Failure, get_storage_cache_path, get_contract_entry}
use downloader.Unpacker.Final.{store_entry, record_failure, write_cache, process_final}
use downloader.Unpacker.Metadata.{complete}
use downloader.Unpacker.Flow.{
  IsCalm, IsPrepared, accounted, Continues, Continues-refl, Continues-trans, log_line-Returns,
  append_failed-Continues, complete-Continues,
}

module _ (S : Solgo) (W : Store) (cfg : Config) (calm : IsCalm S) where
  open S use {SolContract}

  -- A step of the storing: the descriptor goes on, and a failure of the last state stays.
  abbrev Stores : Descriptor SolContract → Descriptor SolContract → Type 0
  Stores d d' =
      Continues d d'
      × (d'.processed ≡ d.processed)
      × (has_failed_state final_state d ≡ true → has_failed_state final_state d' ≡ true)

  Stores-refl : (d : Descriptor SolContract) → IsPrepared d → Stores d d
  Stores-refl d p = (Continues-refl d p, refl, λ h. h)

  Stores-failed :
      (d : Descriptor SolContract)
      → IsPrepared d
      → Stores d (append_failed_state final_state d)
        × (has_failed_state final_state (append_failed_state final_state d) ≡ true)
  Stores-failed d p =
      let failed : has_failed_state final_state (append_failed_state final_state d) ≡ true =
        ground (arith, has_failed_state-append final_state final_state d) in
      (
        (append_failed-Continues final_state d p, unfold append_failed_state in refl, λ _. failed),
        failed,
      )

  record_failure-Returns :
      (err : Option String) (d : Descriptor SolContract)
      → IsPrepared d
      → Returns
          (λ d'. Stores d d' × (is_some err ≡ true → has_failed_state final_state d' ≡ true))
          (record_failure S W cfg err d)
  unfolding record_failure
  record_failure-Returns none d p = returns (Stores-refl d p, λ h. cc)
  record_failure-Returns (some e) d p =
      Returns-then _ _ _ (log_line-Returns d p)
        (returns (let (k, f) = Stores-failed d p in (k, λ _. f)))

  path-Returns :
      (d : Descriptor SolContract)
      → IsPrepared d
      → Returns (λ _. Unit {0}) (get_storage_cache_path cfg d)
  unfolding get_storage_cache_path
  path-Returns d p = Returns-bind _ _ _ _ (Returns-deref d.header p.0) λ h _. returns tt

  entry-Returns :
      (d : Descriptor SolContract)
      → IsPrepared d
      → Returns (λ c. get_contract_entry S cfg d ≡ ret c) (get_contract_entry S cfg d)
  unfolding get_contract_entry
  entry-Returns d p = Returns-self (get_contract_entry S cfg d) (
      Returns-bind _ _ _ _ (Returns-deref d.contract p.2) λ c _.
        Returns-bind _ _ _ _ (Returns-deref d.header p.0)
          λ h _. Returns-bind _ _ _ _ (Returns-deref d.tx p.1) λ t _. returns tt)

  write_cache-Returns :
      (c : SolContract) (j : Job S W)
      → IsPrepared j.descriptor
      → Returns
          (λ j'.
            Stores j.descriptor j'.descriptor
            × (j'.db ≡ j.db)
            × (has_failed_state final_state j.descriptor ≡ true → j'.files ≡ j.files))
          (write_cache S W cfg c j)
  unfolding write_cache
  write_cache-Returns c j p =
      let Q : Job S W → Type 0 = λ j'.
        Stores j.descriptor j'.descriptor
        × (j'.db ≡ j.db)
        × (has_failed_state final_state j.descriptor ≡ true → j'.files ≡ j.files) in
      let same : Returns Q (ret j) = returns (Stores-refl j.descriptor p, refl, λ _. refl) in
      Returns-if Q (S.has_sources c) _ _
        (λ _.
          Returns-if Q (has_failed_state final_state j.descriptor) _ _ (λ _. same)
            (λ no.
              Returns-bind (λ _. Unit {0}) Q _ _ (path-Returns j.descriptor p)
                λ path _.
                  Returns-bind (λ _. Unit {0}) Q _ _
                    (calm.write_sources_returns c (cfg.contracts_path ∷ path) j.files)
                    λ (files, err) _.
                      Returns-bind
                        (λ d'.
                          Stores j.descriptor d'
                          × (is_some err ≡ true → has_failed_state final_state d' ≡ true))
                        Q _ _ (record_failure-Returns err j.descriptor p)
                        λ d k. returns (k.0, refl, λ yes. cc)))
        (λ _. same)

  -- The entry is keyed as the descriptor says.
  pub entry_fields :
      (d : Descriptor SolContract) (entry : Contract) (h : Header)
      → d.header ≡ some h
      → get_contract_entry S cfg d ≡ ret entry
      → (entry.network_id ≡ d.network_id)
        × (entry.block_number ≡ h.number)
        × (entry.address ≡ d.addr)
        × (entry.processed ≡ d.processed)
  unfolding get_contract_entry
  entry_fields d entry h e made = elim (Option-cases d.contract_model) [
    | inl e1 ↦ ground arith
    | inr (m, e1) ↦ ground arith
  ]

  -- The run is over; the entry of the processed descriptor was stored, a failure to store it is
  -- recorded, and the last state is accounted for.
  abbrev pub IsStored : Job S W → State × Job S W × Option Failure → Type 0
  IsStored j (s, j', err) =
      (s ≡ done_state)
      × (err ≡ none)
      × Continues j.descriptor j'.descriptor
      × (accounted final_state j'.descriptor ≡ true)
      × (j'.descriptor.processed ≡ true)
      × ((entry : Contract) × (get_contract_entry S cfg (record (j.descriptor) { processed = true })
            ≡ ret entry)
          × (j'.db ≡ (store_entry S W cfg entry j.descriptor.contract_model j.db).1)
          × (is_some (store_entry S W cfg entry j.descriptor.contract_model j.db).0 ≡ true
              → (has_failed_state final_state j'.descriptor ≡ true) × (j'.files ≡ j.files)))

  complete_keeps :
      (d : Descriptor SolContract)
      → ((complete final_state d).processed ≡ d.processed)
        × (has_failed_state final_state (complete final_state d) ≡ has_failed_state final_state d)
  unfolding append_completed_state
  complete_keeps d = ground arith

  -- Where the library returns, the final handler of a prepared job goes to `done` without an error: the
  -- descriptor is processed and its last state completed or failed, the entry of the processed
  -- descriptor went to the storage, and where that failed the last state has failed and no file was
  -- written.
  pub process_final-Returns :
      (j : Job S W) → IsPrepared j.descriptor → Returns (IsStored j) (process_final S W cfg j)
  unfolding process_final
  process_final-Returns j p =
      let d : Descriptor SolContract = record (j.descriptor) { processed = true } in
      Returns-bind (λ c. j.descriptor.contract ≡ some c) (IsStored j) _ _
        (Returns-deref j.descriptor.contract p.2)
        λ c _. Returns-guard (IsStored j) _ _ _ p.3 (
          Returns-bind (λ entry. get_contract_entry S cfg d ≡ ret entry) (IsStored j) _ _
            (entry-Returns d p)
            λ entry made.
              let result : Option String × W.Db =
                store_entry S W cfg entry j.descriptor.contract_model j.db in
              Returns-bind
                (λ d'.
                  Stores d d' × (is_some result.0 ≡ true → has_failed_state final_state d' ≡ true))
                (IsStored j) _ _ (record_failure-Returns result.0 d p)
                λ d1 k1.
                  let j1 : Job S W = record j { descriptor = d1; db = result.1 } in
                  Returns-bind
                    (λ j2.
                      Stores d1 j2.descriptor
                      × (j2.db ≡ result.1)
                      × (has_failed_state final_state d1 ≡ true → j2.files ≡ j.files))
                    (IsStored j) _ _ (write_cache-Returns c j1 k1.0.0.0)
                    λ j2 k2.
                      let (kc, ka) = complete-Continues final_state j2.descriptor k2.0.0.0 in
                      let kept = complete_keeps j2.descriptor in
                      let on : Continues j.descriptor j2.descriptor =
                        (k2.0.0.0, λ t h. k2.0.0.1 t (k1.0.0.1 t h)) in
                      returns (
                        refl,
                        refl,
                        Continues-trans j.descriptor j2.descriptor
                            (complete final_state j2.descriptor) on kc,
                        ka,
                        kept.0 ∙ (k2.0.1 ∙ k1.0.1),
                        (
                          entry,
                          made,
                          k2.1,
                          λ failed. (kept.1 ∙ k2.0.2 (k1.1 failed), k2.2 (k1.1 failed)),
                        ),
                      ))
