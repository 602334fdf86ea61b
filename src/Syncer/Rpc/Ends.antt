-- ===== src/Syncer/Rpc/Ends.antt =====
-- The rounds of the runs of a remote call (`Server.Unpack` of services/syncer/rpc.go).
use downloader.Base.{
  ℕ, String, ◌≡◌, refl, Bool, Outcome, Option, none, some, List, [], ◌∷◌, ◌++◌, ret, blocks, panics,
  is_some, Bool-cases, inl, inr, true,
}
use downloader.Models.{Codec}
use downloader.Models.Columns.{
  Found, found, failed, no_rows, query_failed, bad_standards, bad_proxy_implementations,
  bad_completed_states, bad_failed_states, prepare_failed, bad_json, exec_failed,
}
use downloader.Models.Table.{Table, no_fault, get_contract_by_address}
use downloader.Storage.{table_store}
use downloader.Unpacker.States.{discover_state}
use downloader.Unpacker.Library.{Solgo, Config}
use downloader.Syncer.{Chain, Entry, unpack_from_entry}
use downloader.Syncer.Ends.{is_some-option, is_some-after, unpack_from_entry-ends}
use downloader.Syncer.Rpc.{
  Remote, Round, Ended, failed_with, responded, UnpackRequest, UnpackResponse, answered, stopped,
  from_storage, run, ContractQueueResponse, cqr_found, cqr_unknown, stored_message, sources_path,
  process_address, rpc_loop, rpc_unpack,
}

module _ (S : Solgo) (k : Codec) (violation : String) (cfg : Config) (chain : Chain S.SolContract)
    (remote : Remote S) where
  run-ends :
      (done : ℕ → Bool) (network_id : ℕ) (network addr : String)
      (response : ContractQueueResponse S.Sources) (t : Table) (files : S.Files)
      → is_some (run S k violation cfg chain remote 8 done network_id network addr response t files)
        ≡ true
  run-ends done network_id network addr response t files =
      let e : Entry = record {
        network = network;
        network_id = network_id;
        header = none;
        creator_addr = 0;
        tx = none;
        receipt = none;
        contract_addr = k.hex_to_address addr;
      } in
      is_some-after
        (unpack_from_entry S (table_store k violation) cfg chain 8 done e discover_state t files) _
        (unpack_from_entry-ends S (table_store k violation) cfg chain done e discover_state t files)
        (λ o. refl)

  from_storage-ends :
      (done : ℕ → Bool) (network_id : ℕ) (network addr : String) (t : Table) (files : S.Files)
      (f : Found)
      → is_some
          (from_storage S k violation cfg chain remote 8 done network_id network addr t files f)
        ≡ true
  from_storage-ends done network_id network addr t files (failed no_rows) =
      run-ends done network_id network addr (record { status = cqr_unknown; contract = none }) t
        files
  from_storage-ends done network_id network addr t files (failed (query_failed e)) = refl
  from_storage-ends done network_id network addr t files (failed bad_standards) = refl
  from_storage-ends done network_id network addr t files (failed bad_proxy_implementations) = refl
  from_storage-ends done network_id network addr t files (failed bad_completed_states) = refl
  from_storage-ends done network_id network addr t files (failed bad_failed_states) = refl
  from_storage-ends done network_id network addr t files (failed (prepare_failed e)) = refl
  from_storage-ends done network_id network addr t files (failed bad_json) = refl
  from_storage-ends done network_id network addr t files (failed (exec_failed e)) = refl
  from_storage-ends done network_id network addr t files (found c) =
      is_some-option
        (S.sources_from_path c.name
          (sources_path S k violation cfg chain remote network c.block_number
            (k.hex_to_address addr))
          files)
        _ _
        (run-ends done network_id network addr
          (record {
            status = cqr_found;
            contract = some (stored_message S k violation cfg chain remote network_id addr c none);
          })
          t files)
        (λ sources. refl)

  process_address-ends :
      (done : ℕ → Bool) (network_id : ℕ) (addr : String) (t : Table) (files : S.Files)
      → is_some (process_address S k violation cfg chain remote 8 done network_id addr t files)
        ≡ true
  unfolding process_address
  process_address-ends done network_id addr t files =
      elim (Bool-cases (remote.is_hex_address addr)) [
        | inr invalid ↦ rw invalid refl
        | inl valid ↦ rw valid (
            is_some-option (remote.get_network_from_id network_id) _ _ refl λ network.
              from_storage-ends done network_id network addr t files
                (get_contract_by_address k violation no_fault network_id (k.hex_to_address addr) t))
      ]

  -- The call waits in a call, or it returns: an error, or a response of the network with the status
  -- true. It does not panic, and its fuel is enough.
  abbrev pub Answers : ℕ → Option (Outcome (Ended S k violation cfg chain remote)) → Type 0
  Answers network_id none = ⊥
  Answers network_id (some blocks) = Unit
  Answers network_id (some panics) = ⊥
  Answers network_id (some (ret (failed_with e))) = Unit
  Answers network_id (some (ret (responded resp))) =
      (resp.status ≡ true) × (resp.network_id ≡ network_id)

  -- The loop after the rounds of an address, the rest of it given.
  next_address-Answers :
      (resp : UnpackResponse S.Sources)
      (rest : ContractQueueResponse S.Sources
        → Table
        → S.Files
        → Option (Outcome (Ended S k violation cfg chain remote)))
      → resp.status ≡ true
      → ((x : ContractQueueResponse S.Sources) (t : Table) (files : S.Files)
          → Answers resp.network_id (rest x t files))
      → (o : Option (Outcome (Round S k violation cfg chain remote))) → is_some o ≡ true
      → Answers resp.network_id
          (elim o as (λ _. Option (Outcome (Ended S k violation cfg chain remote))) [
            | none ↦ none
            | some blocks ↦ some blocks
            | some panics ↦ some (ret (responded resp))
            | some (ret (stopped e)) ↦ some (ret (failed_with e))
            | some (ret (answered x t' files')) ↦ rest x t' files'
          ])
  next_address-Answers resp rest fine h none given = absurd cc
  next_address-Answers resp rest fine h (some blocks) given = tt
  next_address-Answers resp rest fine h (some panics) given = (fine, refl)
  next_address-Answers resp rest fine h (some (ret (stopped e))) given = tt
  next_address-Answers resp rest fine h (some (ret (answered x t' files'))) given = h x t' files'

  rpc_loop-Answers :
      (done : ℕ → Bool) (resp : UnpackResponse S.Sources) (addresses : List String) (t : Table)
      (files : S.Files)
      → resp.status ≡ true
      → Answers resp.network_id
          (rpc_loop S k violation cfg chain remote 8 done resp addresses t files)
  unfolding rpc_loop
  rpc_loop-Answers done resp [] t files fine = (fine, refl)
  rpc_loop-Answers done resp (addr ∷ addresses) t files fine =
      next_address-Answers resp _ fine
        (λ x t' files'.
          rpc_loop-Answers done (record resp { contracts = resp.contracts ++ x ∷ [] }) addresses t'
            files' fine)
        (process_address S k violation cfg chain remote 8 done resp.network_id addr t files)
        (process_address-ends done resp.network_id addr t files)

  -- Eight rounds for each address are enough for a remote call, whatever the library, the chain, the
  -- storage's codecs and the sources answer, and whenever the context is done: it waits in a call, or it
  -- returns with an error, or with a response whose status is true and whose network is that of the
  -- request. It does not panic, although its rounds may.
  pub rpc_unpack-Answers :
      (done : ℕ → Bool) (req : UnpackRequest) (t : Table) (files : S.Files)
      → Answers req.network_id (rpc_unpack S k violation cfg chain remote 8 done req t files)
  unfolding rpc_unpack
  rpc_unpack-Answers done req t files =
      rpc_loop-Answers done (record { status = true; network_id = req.network_id; contracts = [] })
        req.addresses t files refl
