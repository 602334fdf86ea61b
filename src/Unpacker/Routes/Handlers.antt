-- ===== src/Unpacker/Routes/Handlers.antt =====
-- The way on from each handler of pkg/unpacker.
use downloader.Base.{
  ◌≡◌, refl, true, false, not, ◌&&◌, Option, none, some, ◌==◌, inl, inr, ◌⊎◌, ret, ◌>>=◌, ◌>>◌,
  Yields, yields, Yields-bind, Yields-any, Yields-option, Yields-then, Yields-if, deref, arith,
  if◌then◌else◌,
}
use downloader.Machine.{State, no_state}
use downloader.Models.{Contract}
use downloader.Unpacker.States.{
  discover_state, metadata_state, source_providers_state, sources_state, parser_state,
  constructor_state, final_state, error_state, done_state,
}
use downloader.Unpacker.Descriptor.{Descriptor, Header, has_next_state, append_completed_state}
use downloader.Unpacker.Descriptor.Lists.{has_completed_state-append}
use downloader.Unpacker.Library.{Solgo, Store, Config, lookup_failed, no_rows, stored}
use downloader.Unpacker.Entry.{
  Job, Failure, Processed, storage_failed, log_line, with_descriptor, to_discover,
  get_contract_entry,
}
use downloader.Unpacker.Metadata.{
  complete, find_metadata, parse_sources, find_constructor, process_metadata, process_sources,
  process_parser, process_constructor,
}
use downloader.Unpacker.Providers.{try_cache, try_provider, process_providers}
use downloader.Unpacker.Final.{store_entry, record_failure, write_cache, process_final}
use downloader.Unpacker.Discover.{is_done, onward, settle, look_up, probe, discover}
use downloader.Unpacker.Routes.{
  is_discovered, Keeps, Keeps-complete, Routed, find_metadata-Keeps, parse_sources-Keeps,
  find_constructor-Keeps, try_cache-Keeps, try_provider-Keeps,
}

module _ (S : Solgo) (W : Store) (cfg : Config) where
  open S use {SolContract}

  Routed-guard :
      (s' : State) (j : Job S W) (m : Processed S W)
      → (is_discovered j.descriptor ≡ true → Yields (Routed S W cfg s' j) m)
      → Yields (Routed S W cfg s' j) (if is_discovered j.descriptor then m else to_discover j)
  Routed-guard s' j m h =
      Yields-if (Routed S W cfg s' j) (is_discovered j.descriptor) m (to_discover j) h
        (λ e. yields (λ h. absurd cc, λ h. (refl, refl)))

  Routed-goes :
      (own s' : State) (j : Job S W) (d : Descriptor SolContract)
      → is_discovered j.descriptor ≡ true
      → Keeps j.descriptor d
      → Routed S W cfg s' j (s', with_descriptor (complete own d) j, none)
  Routed-goes own s' j d e k = (λ h. (refl, Keeps-complete own d (k h)), λ h. absurd cc)

  pub process_metadata-Routed :
      (j : Job S W) → Yields (Routed S W cfg source_providers_state j) (process_metadata S W j)
  unfolding process_metadata
  process_metadata-Routed j = Routed-guard source_providers_state j _ λ e.
      Yields-any (Routed S W cfg source_providers_state j) (deref j.descriptor.contract) _ λ c.
        Yields-bind (Keeps j.descriptor) (Routed S W cfg source_providers_state j)
          (find_metadata S W c j.descriptor) _ (find_metadata-Keeps S W cfg c j.descriptor)
          λ d k. yields (Routed-goes metadata_state source_providers_state j d e k)

  pub process_providers-Routed :
      (j : Job S W) → Yields (Routed S W cfg sources_state j) (process_providers S W cfg j)
  unfolding process_providers
  process_providers-Routed j =
      let G : State × Job S W × Option Failure → Type 0 = Routed S W cfg sources_state j in
      Routed-guard sources_state j _ λ e. Yields-any G (deref j.descriptor.contract) _ λ c.
        Yields-bind (Keeps j.descriptor) G (try_cache S W cfg c j.files j.descriptor) _
          (try_cache-Keeps S W cfg c j.files j.descriptor)
          λ d k. Yields-any G (deref d.contract) _ λ c1.
            Yields-bind (Keeps d) G (try_provider S W cfg c1 d) _ (try_provider-Keeps S W cfg c1 d)
              λ d1 k1.
                yields (Routed-goes source_providers_state sources_state j d1 e (λ h. k1 (k h)))

  pub process_sources-Routed :
      (j : Job S W) → Yields (Routed S W cfg parser_state j) (process_sources S W j)
  unfolding process_sources
  process_sources-Routed j =
      Routed-guard parser_state j _
        λ e. yields (Routed-goes sources_state parser_state j j.descriptor e (λ h. h))

  pub process_parser-Routed :
      (j : Job S W) → Yields (Routed S W cfg constructor_state j) (process_parser S W j)
  unfolding process_parser
  process_parser-Routed j =
      let G : State × Job S W × Option Failure → Type 0 = Routed S W cfg constructor_state j in
      Routed-guard constructor_state j _ λ e. Yields-any G (deref j.descriptor.contract) _ λ c.
        Yields-bind (Keeps j.descriptor) G (parse_sources S W c j.descriptor) _
          (parse_sources-Keeps S W cfg c j.descriptor)
          λ d k. yields (Routed-goes parser_state constructor_state j d e k)

  pub process_constructor-Routed :
      (j : Job S W) → Yields (Routed S W cfg final_state j) (process_constructor S W j)
  unfolding process_constructor
  process_constructor-Routed j =
      let G : State × Job S W × Option Failure → Type 0 = Routed S W cfg final_state j in
      Yields-any G (deref j.descriptor.contract) _ λ c. Routed-guard final_state j _ λ e.
        Yields-bind (Keeps j.descriptor) G (find_constructor S W c j.descriptor) _
          (find_constructor-Keeps S W cfg c j.descriptor)
          λ d k. yields (λ h. (refl, k h), λ h. absurd cc)

  -- The last handler is done where the job was discovered.
  pub process_final-Routed :
      (j : Job S W)
      → Yields
          (λ (r : State × Job S W × Option Failure).
            (is_discovered j.descriptor ≡ true → r.0 ≡ done_state)
            × (is_discovered j.descriptor ≡ false
                → (r.0 ≡ discover_state) × (r.1.descriptor.next_state ≡ metadata_state)))
          (process_final S W cfg j)
  unfolding process_final
  process_final-Routed j =
      let G : State × Job S W × Option Failure → Type 0 = λ r.
        (is_discovered j.descriptor ≡ true → r.0 ≡ done_state)
        × (is_discovered j.descriptor ≡ false
            → (r.0 ≡ discover_state) × (r.1.descriptor.next_state ≡ metadata_state)) in
      Yields-any G (deref j.descriptor.contract) _ λ c.
        Yields-if G (is_discovered j.descriptor) _ (to_discover j)
          (λ e.
            let d : Descriptor SolContract = record (j.descriptor) { processed = true } in
            Yields-any G (get_contract_entry S cfg d) _ λ entry.
              let (err, db) = store_entry S W cfg entry d.contract_model j.db in
              Yields-any G (record_failure S W cfg err d) _ λ d1.
                Yields-any G (write_cache S W cfg c (record j { descriptor = d1; db = db })) _
                  λ j1. yields (λ h. refl, λ h. absurd cc))
          (λ e. yields (λ h. absurd cc, λ h. (refl, refl)))

  -- Without an error the discovery is done, or it has discovered the job and goes to the metadata,
  -- or to the state that was asked for, which is forgotten.
  abbrev pub Opens : Job S W → State × Job S W × Option Failure → Type 0
  Opens j (t, j', err) =
      err ≡ none
      → (t ≡ done_state)
        ⊎ ((is_discovered j'.descriptor ≡ true)
            × ((t ≡ metadata_state)
                ⊎ ((t ≡ j.descriptor.next_state)
                    × ((t == no_state) ≡ false)
                    × (j'.descriptor.next_state ≡ no_state))))

  settle-Opens :
      (found : Option Contract) (j j0 : Job S W)
      → j.descriptor.next_state ≡ j0.descriptor.next_state
      → Yields (Opens j0) (settle S W cfg found j)
  unfolding settle onward append_completed_state
  settle-Opens found j j0 same =
      let known : is_discovered (append_completed_state discover_state j.descriptor) ≡ true =
        ground (arith, has_completed_state-append discover_state discover_state j.descriptor) in
      Yields-if (Opens j0) (is_done found && not cfg.force_reprocess) _ _
        (λ _. yields (λ _. inl refl))
        (λ _.
          Yields-if (Opens j0) (has_next_state j.descriptor) _ _
            (λ asked. yields (λ _. inr (known, inr (same, ground (arith, asked), refl))))
            (λ _. yields (λ _. inr (known, inl refl))))

  look_up-Opens :
      (h : Header) (j j0 : Job S W)
      → j.descriptor.next_state ≡ j0.descriptor.next_state
      → Yields (Opens j0) (look_up S W cfg h j)
  unfolding look_up
  look_up-Opens h j j0 same =
      elim (W.get_contract_by_unique_index j.descriptor.network_id h.number j.descriptor.addr j.db)
        as (λ r. Yields (Opens j0) (elim r [
          | lookup_failed e ↦ (do
            log_line j.descriptor
            c ← deref j.descriptor.contract
            ret (error_state, j, some (storage_failed e)))
          | no_rows ↦ settle S W cfg none j
          | stored found ↦ settle S W cfg (some found) j
        ])) [
          | lookup_failed e ↦
              Yields-then (Opens j0) (log_line j.descriptor) _ (
                Yields-any (Opens j0) (deref j.descriptor.contract) _
                  λ c. yields (λ bad. absurd cc))
          | no_rows ↦ settle-Opens none j j0 same
          | stored found ↦ settle-Opens (some found) j j0 same
        ]

  probe-Opens : (h : Header) (j : Job S W) → Yields (Opens j) (probe S W cfg h j)
  unfolding probe
  probe-Opens h j =
      Yields-option (Opens j) j.descriptor.contract _ _
        (λ c. Yields-any (Opens j) (S.is_valid c) _ λ valid.
          look_up-Opens h
            (with_descriptor (record (j.descriptor) { self_destructed = not valid }) j) j refl)
        (look_up-Opens h j j refl)

  pub discover-Opens : (j : Job S W) → Yields (Opens j) (discover S W cfg j)
  unfolding discover
  discover-Opens j =
      Yields-option (Opens j) j.descriptor.header _ _
        (λ h.
          Yields-option (Opens j) j.descriptor.tx _ _
            (λ t.
              Yields-option (Opens j) j.descriptor.receipt _ _ (λ r. probe-Opens h j)
                (yields (λ bad. absurd cc)))
            (yields (λ bad. absurd cc)))
        (yields (λ bad. absurd cc))
