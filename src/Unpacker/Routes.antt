-- ===== src/Unpacker/Routes.antt =====
-- Where the handlers of pkg/unpacker go, whatever the library and the storage do.
pub mod Handlers
pub mod Rounds
pub mod Stages
pub mod Ends
use downloader.Base.{
  ◌≡◌, refl, ◌∙◌, Bool, true, false, not, ◌||◌, ◌&&◌, Option, none, some, ◌==◌, ==_iff, ==_refl,
  Bool-cases, inl, inr, ret, ◌∷◌, text_contains, Yields, yields, Yields-bind, Yields-any,
  Yields-option, Yields-then, Yields-if, deref, arith,
}
use downloader.Machine.{State, no_state}
use downloader.Models.{Contract}
use downloader.Unpacker.States.{
  discover_state, metadata_state, source_providers_state, sources_state, parser_state,
  constructor_state, final_state, error_state, done_state,
}
use downloader.Unpacker.Descriptor.{
  Descriptor, set_contract, has_completed_state, has_failed_state, append_completed_state,
  append_failed_state, remove_failed_state,
}
use downloader.Unpacker.Descriptor.Lists.{has_completed_state-append}
use downloader.Unpacker.Library.{Solgo, Store, Config}
use downloader.Unpacker.Entry.{
  Job, Failure, Processed, log_line, with_descriptor, to_discover, get_storage_cache_path,
  get_contract_entry,
}
use downloader.Unpacker.Metadata.{
  complete, log_unless, find_metadata, parse_sources, find_constructor, process_metadata,
  process_sources, process_parser, process_constructor,
}
use downloader.Unpacker.Providers.{
  cached_of, load_cached, try_cache, try_provider, process_providers,
}
use downloader.Unpacker.Final.{store_entry, record_failure, write_cache, process_final}

module _ {C : Type 0} where
  abbrev pub is_discovered : Descriptor C → Bool
  is_discovered d = has_completed_state discover_state d

  -- A discovered descriptor stays discovered.
  abbrev pub Keeps : Descriptor C → Descriptor C → Type 0
  Keeps d d' = is_discovered d ≡ true → is_discovered d' ≡ true

  Keeps-append_completed : (s : State) (d : Descriptor C) → Keeps d (append_completed_state s d)
  Keeps-append_completed s d = λ h. ground (arith, has_completed_state-append s discover_state d, h)

  Keeps-append_failed : (s : State) (d : Descriptor C) → Keeps d (append_failed_state s d)
  unfolding append_failed_state
  Keeps-append_failed s d = λ h. h

  Keeps-remove_failed : (s : State) (d : Descriptor C) → Keeps d (remove_failed_state s d)
  unfolding remove_failed_state
  Keeps-remove_failed s d = λ h. h

  pub Keeps-complete : (s : State) (d : Descriptor C) → Keeps d (complete s d)
  Keeps-complete s d = elim (Bool-cases (has_failed_state s d)) [
    | inl e ↦ rw e (λ h. h)
    | inr e ↦ rw e (Keeps-append_completed s d)
  ]

module _ (S : Solgo) (W : Store) (cfg : Config) where
  open S use {SolContract}

  -- The handler of a discovered job goes to the one state, that of another to the discovery.
  abbrev pub Routed : State → Job S W → State × Job S W × Option Failure → Type 0
  Routed s' j (t, j', err) =
      (is_discovered j.descriptor ≡ true → (t ≡ s') × (is_discovered j'.descriptor ≡ true))
      × (is_discovered j.descriptor ≡ false
          → (t ≡ discover_state) × (j'.descriptor.next_state ≡ metadata_state))

  pub find_metadata-Keeps :
      (c : SolContract) (d : Descriptor SolContract) → Yields (Keeps d) (find_metadata S W c d)
  unfolding find_metadata
  find_metadata-Keeps c d =
      let same : Yields (Keeps d) (ret d) = yields (λ h. h) in
      Yields-if (Keeps d) (S.has_descriptor c && (not d.self_destructed && not (S.has_metadata c)))
        _ _
        (λ _. Yields-any (Keeps d) (S.discover_metadata c) _ λ (c1, err).
          let d1 : Descriptor SolContract = set_contract (some c1) d in
          let same1 : Yields (Keeps d) (ret d1) = yields (λ h. h) in
          Yields-option (Keeps d) err _ _
            (λ e.
              Yields-then (Keeps d)
                (log_unless (text_contains e "provided bytecode slice is smaller than the length")
                  d1)
                (ret (append_failed_state metadata_state d1))
                (yields (Keeps-append_failed metadata_state d1)))
            same1)
        (λ _. same)

  pub parse_sources-Keeps :
      (c : SolContract) (d : Descriptor SolContract) → Yields (Keeps d) (parse_sources S W c d)
  unfolding parse_sources
  parse_sources-Keeps c d =
      let same : Yields (Keeps d) (ret d) = yields (λ h. h) in
      Yields-if (Keeps d) (S.has_sources c) _ _
        (λ _. Yields-any (Keeps d) (S.parse c) _ λ (c1, err).
          let d1 : Descriptor SolContract = set_contract (some c1) d in
          let parsed : Descriptor SolContract =
            append_completed_state parser_state (remove_failed_state parser_state d1) in
          let parses : Yields (Keeps d) (ret parsed) = yields (λ h.
            Keeps-append_completed parser_state (remove_failed_state parser_state d1)
              (Keeps-remove_failed parser_state d1 h)) in
          Yields-option (Keeps d) err _ _
            (λ e.
              Yields-then (Keeps d)
                (log_unless (text_contains e "not supported compiler version") d1)
                (ret (append_failed_state parser_state d1))
                (yields (Keeps-append_failed parser_state d1)))
            parses)
        (λ _. same)

  pub find_constructor-Keeps :
      (c : SolContract) (d : Descriptor SolContract) → Yields (Keeps d) (find_constructor S W c d)
  unfolding find_constructor
  find_constructor-Keeps c d =
      let same : Yields (Keeps d) (ret d) = yields (λ h. h) in
      Yields-if (Keeps d) (S.has_detector c) _ _
        (λ _. Yields-any (Keeps d) (S.has_constructor c) _ λ present.
          Yields-if (Keeps d) present _ _
            (λ _. Yields-any (Keeps d) (S.discover_constructor c) _ λ (c1, err).
              let d1 : Descriptor SolContract = set_contract (some c1) d in
              let same1 : Yields (Keeps d) (ret d1) = yields (λ h. h) in
              Yields-option (Keeps d) err _ _
                (λ e. Yields-then (Keeps d) (log_line d1) (ret d1) same1) same1)
            (λ _. same))
        (λ _. same)

  load_cached-Keeps :
      (m : Contract) (files : S.Files) (c : SolContract) (d : Descriptor SolContract)
      → Yields (Keeps d) (load_cached S W cfg m files c d)
  unfolding load_cached
  load_cached-Keeps m files c d =
      let same : Yields (Keeps d) (ret d) = yields (λ h. h) in
      Yields-if (Keeps d) (m.source_available && not (m.name == "")) _ _
        (λ _. Yields-any (Keeps d) (get_storage_cache_path cfg d) _ λ path.
          Yields-option (Keeps d) (S.sources_from_path m.name (cfg.contracts_path ∷ path) files) _ _
            (λ sources.
              let d1 : Descriptor SolContract =
                set_contract (some (S.use_cached sources (cached_of m) c)) d in
              let removed : Yields (Keeps d) (ret (remove_failed_state source_providers_state d1)) =
                yields (Keeps-remove_failed source_providers_state d1) in
              removed)
            (Yields-then (Keeps d) (log_line d) (ret d) same))
        (λ _. same)

  pub try_cache-Keeps :
      (c : SolContract) (files : S.Files) (d : Descriptor SolContract)
      → Yields (Keeps d) (try_cache S W cfg c files d)
  unfolding try_cache
  try_cache-Keeps c files d =
      let same : Yields (Keeps d) (ret d) = yields (λ h. h) in
      Yields-if (Keeps d) (S.has_sources c) _ _ (λ _. same)
        (λ _.
          Yields-option (Keeps d) d.contract_model _ _ (λ m. load_cached-Keeps m files c d) same)

  pub try_provider-Keeps :
      (c : SolContract) (d : Descriptor SolContract) → Yields (Keeps d) (try_provider S W cfg c d)
  unfolding try_provider
  try_provider-Keeps c d =
      let same : Yields (Keeps d) (ret d) = yields (λ h. h) in
      Yields-if (Keeps d) (S.has_sources c) _ _ (λ _. same)
        (λ _. Yields-any (Keeps d) (S.discover_source_code c) _ λ (c1, err).
          let d1 : Descriptor SolContract = set_contract (some c1) d in
          let same1 : Yields (Keeps d) (ret d1) = yields (λ h. h) in
          let removed : Yields (Keeps d) (ret (remove_failed_state source_providers_state d1)) =
            yields (Keeps-remove_failed source_providers_state d1) in
          Yields-option (Keeps d) err _ _
            (λ e.
              Yields-then (Keeps d)
                (log_unless (text_contains e "contract source code not verified") d1) (ret d1)
                same1)
            removed)
