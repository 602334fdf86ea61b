-- ===== src/Unpacker/Final.antt =====
-- pkg/unpacker/final.go: the handler that stores the contract and its sources.
use downloader.Base.{
  String, true, Option, none, some, ◌∷◌, Outcome, ret, ◌>>=◌, ◌>>◌, deref, text_contains,
  if◌then◌else◌,
}
use downloader.Models.{Contract}
use downloader.Unpacker.States.{discover_state, final_state, done_state}
use downloader.Unpacker.Descriptor.{
  Descriptor, has_completed_state, has_failed_state, append_completed_state, append_failed_state,
}
use downloader.Unpacker.Library.{Solgo, Store, Config}
use downloader.Unpacker.Entry.{
  Job, Processed, with_descriptor, log_line, to_discover, get_storage_cache_path,
  get_contract_entry,
}
use downloader.Unpacker.Metadata.{complete}

module _ (S : Solgo) (W : Store) (cfg : Config) where
  open S use {SolContract, has_sources}

  -- An insert that hits the unique index becomes an update.
  unfoldable pub store_entry : Contract → Option Contract → W.Db → Option String × W.Db
  store_entry entry (some m) db = W.update_contract entry db
  store_entry entry none db =
      let (err, db1) = W.save_contract entry db in
      elim err [
        | none ↦ (none, db1)
        | some e ↦
            if text_contains e "UNIQUE constraint failed"
            then W.update_contract entry db1
            else (some e, db1)
      ]

  -- An error of a store is logged and recorded, and the run goes on.
  unfoldable pub record_failure :
      Option String → Descriptor SolContract → Outcome (Descriptor SolContract)
  unfolding append_failed_state
  record_failure none d = ret d
  record_failure (some e) d = do log_line d; ret (append_failed_state final_state d)

  -- The sources are written where the entry was stored.
  unfoldable pub write_cache : SolContract → Job S W → Outcome (Job S W)
  unfolding record_failure get_storage_cache_path
  write_cache c j =
      if has_sources c
      then (if has_failed_state final_state j.descriptor then ret j else (do
        path ← get_storage_cache_path cfg j.descriptor
        (files, err) ← S.write_sources c (cfg.contracts_path ∷ path) j.files
        d ← record_failure err j.descriptor
        ret (record j { descriptor = d; files = files })))
      else ret j

  -- `FinalContractHandler.Process`. The contract is read before the guard.
  unfoldable pub process_final : Job S W → Processed S W
  unfolding store_entry write_cache get_contract_entry append_completed_state
  process_final j = do
    c ← deref j.descriptor.contract
    if has_completed_state discover_state j.descriptor
        then (do
          let d = record (j.descriptor) { processed = true }
          entry ← get_contract_entry S cfg d
          let (err, db) = store_entry entry d.contract_model j.db
          d ← record_failure err d
          j ← write_cache c (record j { descriptor = d; db = db })
          ret (done_state, with_descriptor (complete final_state j.descriptor) j, none))
        else to_discover j
