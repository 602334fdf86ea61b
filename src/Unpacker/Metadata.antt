-- ===== src/Unpacker/Metadata.antt =====
-- pkg/unpacker/metadata.go, sources.go, parser.go and constructor.go: the handlers that ask the
-- library for what it can find out of a contract.
use downloader.Base.{
  Bool, not, ◌&&◌, none, some, Outcome, ret, ◌>>=◌, ◌>>◌, deref, text_contains, if◌then◌else◌,
}
use downloader.Unpacker.States.{
  discover_state, metadata_state, source_providers_state, sources_state, parser_state,
  constructor_state, final_state,
}
use downloader.Unpacker.Descriptor.{
  Descriptor, set_contract, has_completed_state, has_failed_state, append_completed_state,
  append_failed_state, remove_failed_state,
}
use downloader.Unpacker.Library.{Solgo, Store}
use downloader.Unpacker.Entry.{Job, Processed, with_descriptor, log_line, to_discover}
use downloader.Machine.{State}

module _ {C : Type 0} where
  -- A state that has not failed is completed.
  abbrev pub complete : State → Descriptor C → Descriptor C
  complete s d = if has_failed_state s d then d else append_completed_state s d

  -- A failure is logged unless its text says that it was expected.
  abbrev pub log_unless : Bool → Descriptor C → Outcome (Unit {0})
  log_unless expected d = if expected then ret tt else log_line d

module _ (S : Solgo) (W : Store) where
  open S use {SolContract, has_descriptor, has_metadata, has_sources, has_detector, has_constructor}

  unfoldable pub find_metadata :
      SolContract → Descriptor SolContract → Outcome (Descriptor SolContract)
  unfolding append_failed_state
  find_metadata c d =
      if has_descriptor c && (not d.self_destructed && not (has_metadata c))
      then (do
        (c, err) ← S.discover_metadata c
        let d = set_contract (some c) d
        elim err [
          | none ↦ ret d
          | some e ↦ (do
            log_unless (text_contains e "provided bytecode slice is smaller than the length") d
            ret (append_failed_state metadata_state d))
        ])
      else ret d

  -- `MetadataContractHandler.Process`.
  unfoldable pub process_metadata : Job S W → Processed S W
  unfolding find_metadata append_completed_state
  process_metadata j =
      if has_completed_state discover_state j.descriptor
      then (do
        c ← deref j.descriptor.contract
        d ← find_metadata c j.descriptor
        ret (source_providers_state, with_descriptor (complete metadata_state d) j, none))
      else to_discover j

  -- `SourcesContractHandler.Process`.
  unfoldable pub process_sources : Job S W → Processed S W
  unfolding append_completed_state
  process_sources j =
      if has_completed_state discover_state j.descriptor
      then ret (parser_state, with_descriptor (complete sources_state j.descriptor) j, none)
      else to_discover j

  unfoldable pub parse_sources :
      SolContract → Descriptor SolContract → Outcome (Descriptor SolContract)
  unfolding append_failed_state append_completed_state remove_failed_state
  parse_sources c d =
      if has_sources c
      then (do
        (c, err) ← S.parse c
        let d = set_contract (some c) d
        elim err [
          | none ↦ ret (append_completed_state parser_state (remove_failed_state parser_state d))
          | some e ↦ (do
            log_unless (text_contains e "not supported compiler version") d
            ret (append_failed_state parser_state d))
        ])
      else ret d

  -- `ParserContractHandler.Process`.
  unfoldable pub process_parser : Job S W → Processed S W
  unfolding parse_sources
  process_parser j =
      if has_completed_state discover_state j.descriptor
      then (do
        c ← deref j.descriptor.contract
        d ← parse_sources c j.descriptor
        ret (constructor_state, with_descriptor (complete parser_state d) j, none))
      else to_discover j

  unfoldable pub find_constructor :
      SolContract → Descriptor SolContract → Outcome (Descriptor SolContract)
  find_constructor c d =
      if has_detector c
      then (do
        present ← has_constructor c
        if present
            then (do
              (c, err) ← S.discover_constructor c
              let d = set_contract (some c) d
              elim err [ none ↦ ret d | some e ↦ (do log_line d; ret d) ])
            else ret d)
      else ret d

  -- `ConstructorContractHandler.Process`. The contract is read before the guard.
  unfoldable pub process_constructor : Job S W → Processed S W
  unfolding find_constructor
  process_constructor j = do
    c ← deref j.descriptor.contract
    if has_completed_state discover_state j.descriptor
        then (do d ← find_constructor c j.descriptor; ret (final_state, with_descriptor d j, none))
        else to_discover j
