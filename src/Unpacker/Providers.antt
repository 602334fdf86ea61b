-- ===== src/Unpacker/Providers.antt =====
-- pkg/unpacker/providers.go: the sources of a contract, from the local cache or from a provider.
use downloader.Base.{
  not, ◌&&◌, ◌==◌, none, some, ◌∷◌, Outcome, ret, ◌>>=◌, ◌>>◌, deref, text_contains, if◌then◌else◌,
}
use downloader.Models.{Contract}
use downloader.Unpacker.States.{discover_state, source_providers_state, sources_state}
use downloader.Unpacker.Descriptor.{
  Descriptor, set_contract, has_completed_state, append_completed_state, remove_failed_state,
}
use downloader.Unpacker.Library.{Cached, Solgo, Store, Config}
use downloader.Unpacker.Entry.{
  Job, Processed, with_descriptor, log_line, to_discover, get_storage_cache_path,
}
use downloader.Unpacker.Metadata.{complete, log_unless}

-- The fields that the storage lends to the library's descriptor.
abbrev pub cached_of : Contract → Cached
cached_of m = record {
  name = m.name;
  license = m.license;
  proxy = m.proxy;
  sources_provider = m.sources_provider;
  compiler_version = m.compiler_version;
  solgo_version = m.solgo_version;
  implementations = m.proxy_implementations;
  optimized = m.optimized;
  optimization_runs = m.optimization_runs;
  evm_version = m.evm_version;
  abi = m.abi;
  verified = m.verified;
  verification_provider = m.verification_provider;
}

module _ (S : Solgo) (W : Store) (cfg : Config) where
  open S use {SolContract, Files, has_sources}

  -- The local cache is asked for a stored contract that has sources and a name.
  unfoldable pub load_cached :
      Contract → Files → SolContract → Descriptor SolContract → Outcome (Descriptor SolContract)
  unfolding get_storage_cache_path remove_failed_state
  load_cached m files c d =
      if m.source_available && not (m.name == "")
      then (do
        path ← get_storage_cache_path cfg d
        elim (S.sources_from_path m.name (cfg.contracts_path ∷ path) files) [
          | none ↦ (do log_line d; ret d)
          | some sources ↦ ret (
              remove_failed_state source_providers_state
                (set_contract (some (S.use_cached sources (cached_of m) c)) d))
        ])
      else ret d

  unfoldable pub try_cache :
      SolContract → Files → Descriptor SolContract → Outcome (Descriptor SolContract)
  unfolding load_cached
  try_cache c files d =
      if has_sources c
      then ret d
      else elim d.contract_model [ none ↦ ret d | some m ↦ load_cached m files c d ]

  -- A provider is asked where there are no sources yet. A failure is not recorded.
  unfoldable pub try_provider :
      SolContract → Descriptor SolContract → Outcome (Descriptor SolContract)
  unfolding remove_failed_state
  try_provider c d = if has_sources c then ret d else (do
    (c, err) ← S.discover_source_code c
    let d = set_contract (some c) d
    elim err [
      | none ↦ ret (remove_failed_state source_providers_state d)
      | some e ↦ (do log_unless (text_contains e "contract source code not verified") d; ret d)
    ])

  -- `ProvidersContractHandler.Process`.
  unfoldable pub process_providers : Job S W → Processed S W
  unfolding try_cache try_provider append_completed_state
  process_providers j =
      if has_completed_state discover_state j.descriptor
      then (do
        c ← deref j.descriptor.contract
        d ← try_cache c j.files j.descriptor
        c ← deref d.contract
        d ← try_provider c d
        ret (sources_state, with_descriptor (complete source_providers_state d) j, none))
      else to_discover j
