-- ===== src/Unpacker/Flow/Stages.antt =====
-- The handlers between `discover` and `final`: where the library returns, each goes on to its one
-- next state and accounts for its own.
use downloader.Base.{
  ◌≡◌, refl, ◌∙◌, true, not, ◌&&◌, Option, none, some, ret, Returns, returns, Returns-bind,
  Returns-option, Returns-if, Returns-then, Returns-guard, Returns-deref, text_contains,
}
use downloader.Machine.{State}
use downloader.Unpacker.States.{
  metadata_state, source_providers_state, sources_state, parser_state, constructor_state,
  final_state,
}
use downloader.Unpacker.Descriptor.{
  Descriptor, set_contract, append_failed_state, remove_failed_state,
}
use downloader.Unpacker.Library.{Solgo, Store, Config}
use downloader.Unpacker.Entry.{Job, Failure, with_descriptor}
use downloader.Unpacker.Metadata.{
  complete, find_metadata, parse_sources, find_constructor, process_metadata, process_sources,
  process_parser, process_constructor,
}
use downloader.Unpacker.Flow.{
  IsCalm, IsPrepared, identity, accounted, Follows, Continues, Continues-refl, log_line-Returns,
  log_unless-Returns, append_failed-Continues, append_completed-Continues, remove_failed-Follows,
  Follows-complete, complete-identity,
}

module _ {S : Solgo} {W : Store} where
  -- The handler goes to the one state without an error and keeps the storage and the files.
  abbrev pub GoesTo : State → Job S W → State × Job S W × Option Failure → Type 0
  GoesTo s' j (s, j', err) =
      (s ≡ s')
      × (err ≡ none)
      × Continues j.descriptor j'.descriptor
      × (j'.db ≡ j.db)
      × (j'.files ≡ j.files)
      × (identity j'.descriptor ≡ identity j.descriptor)

  abbrev pub Handles : State → State → Job S W → State × Job S W × Option Failure → Type 0
  Handles s' own j r = GoesTo s' j r × (accounted own r.1.descriptor ≡ true)

module _ (S : Solgo) (W : Store) (cfg : Config) (calm : IsCalm S) where
  open S use {SolContract}

  -- What is left alone of a descriptor.
  abbrev Refines : Descriptor SolContract → Descriptor SolContract → Type 0
  Refines d d' = Continues d d' × (identity d' ≡ identity d)

  abbrev pub Replays : State → Descriptor SolContract → Descriptor SolContract → Type 0
  Replays own d d' = Follows own d d' × (identity d' ≡ identity d)

  find_metadata-Returns :
      (c : SolContract) (d : Descriptor SolContract)
      → IsPrepared d
      → Returns (Refines d) (find_metadata S W c d)
  unfolding find_metadata
  find_metadata-Returns c d p =
      Returns-if (Refines d)
        (S.has_descriptor c && (not d.self_destructed && not (S.has_metadata c))) _ _
        (λ _.
          Returns-bind (λ _. Unit {0}) (Refines d) _ _ (calm.discover_metadata_returns c)
            λ (c1, err) _.
              let d1 : Descriptor SolContract = set_contract (some c1) d in
              let p1 : IsPrepared d1 = (p.0, p.1, refl, p.3) in
              Returns-option (Refines d) err _ _
                (λ e _.
                  Returns-then (Refines d) _ (ret (append_failed_state metadata_state d1))
                    (log_unless-Returns
                      (text_contains e "provided bytecode slice is smaller than the length") d1 p1)
                    (returns (append_failed-Continues metadata_state d1 p1, refl)))
                (λ _. returns (Continues-refl d1 p1, refl)))
        (λ _. returns (Continues-refl d p, refl))

  pub finish_after :
      (own s' : State) (j : Job S W) (d1 : Descriptor SolContract)
      → Follows own j.descriptor d1
      → identity d1 ≡ identity j.descriptor
      → Handles s' own j (s', with_descriptor (complete own d1) j, none)
  finish_after own s' j d1 f m =
      let (k, a) = Follows-complete own j.descriptor d1 f in
      ((refl, refl, k, refl, refl, complete-identity own d1 ∙ m), a)

  finish :
      (own s' : State) (j : Job S W) (d1 : Descriptor SolContract)
      → Refines j.descriptor d1
      → Handles s' own j (s', with_descriptor (complete own d1) j, none)
  finish own s' j d1 (k, m) = finish_after own s' j d1 (k.0, λ t _ h. k.1 t h) m

  -- Where the library returns, the metadata handler takes a prepared job on to the providers without
  -- an error, found or not: the metadata state is completed or has failed, what was accounted for
  -- still is, and storage, files and the contract's key are as before.
  pub process_metadata-Returns :
      (j : Job S W)
      → IsPrepared j.descriptor
      → Returns (Handles source_providers_state metadata_state j) (process_metadata S W j)
  unfolding process_metadata
  process_metadata-Returns j p =
      Returns-guard (Handles source_providers_state metadata_state j) _ _ _ p.3 (
        Returns-bind (λ c. j.descriptor.contract ≡ some c)
          (Handles source_providers_state metadata_state j) _ _
          (Returns-deref j.descriptor.contract p.2)
          λ c _.
            Returns-bind (Refines j.descriptor) (Handles source_providers_state metadata_state j) _
              _ (find_metadata-Returns c j.descriptor p)
              λ d1 r. returns (finish metadata_state source_providers_state j d1 r))

  -- The sources are only passed through.
  pub process_sources-Returns :
      (j : Job S W)
      → IsPrepared j.descriptor
      → Returns (Handles parser_state sources_state j) (process_sources S W j)
  unfolding process_sources
  process_sources-Returns j p = Returns-guard (Handles parser_state sources_state j) _ _ _ p.3 (
      returns
        (finish sources_state parser_state j j.descriptor (Continues-refl j.descriptor p, refl)))

  parse_sources-Returns :
      (c : SolContract) (d : Descriptor SolContract)
      → IsPrepared d
      → Returns (Replays parser_state d) (parse_sources S W c d)
  unfolding parse_sources
  parse_sources-Returns c d p =
      Returns-if (Replays parser_state d) (S.has_sources c) _ _
        (λ _.
          Returns-bind (λ _. Unit {0}) (Replays parser_state d) _ _ (calm.parse_returns c)
            λ (c1, err) _.
              let d1 : Descriptor SolContract = set_contract (some c1) d in
              let p1 : IsPrepared d1 = (p.0, p.1, refl, p.3) in
              Returns-option (Replays parser_state d) err _ _
                (λ e _.
                  Returns-then (Replays parser_state d) _
                    (ret (append_failed_state parser_state d1))
                    (log_unless-Returns (text_contains e "not supported compiler version") d1 p1)
                    (let k = append_failed-Continues parser_state d1 p1 in
                      returns ((k.0, λ t _ h. k.1 t h), refl)))
                (λ _.
                  let f = remove_failed-Follows parser_state d1 p1 in
                  let k =
                    append_completed-Continues parser_state (remove_failed_state parser_state d1)
                      f.0 in
                  returns ((k.0, λ t n h. k.1 t (f.1 t n h)), refl)))
        (λ _. returns ((p, λ t _ h. h), refl))

  -- Where the library returns, the parser's handler takes a prepared job on to the constructor without
  -- an error, parsed or not: the parser's state is completed or has failed, what was accounted for
  -- still is, and storage, files and the contract's key are as before.
  pub process_parser-Returns :
      (j : Job S W)
      → IsPrepared j.descriptor
      → Returns (Handles constructor_state parser_state j) (process_parser S W j)
  unfolding process_parser
  process_parser-Returns j p = Returns-guard (Handles constructor_state parser_state j) _ _ _ p.3 (
      Returns-bind (λ c. j.descriptor.contract ≡ some c) (Handles constructor_state parser_state j)
        _ _ (Returns-deref j.descriptor.contract p.2)
        λ c _.
          Returns-bind (Replays parser_state j.descriptor)
            (Handles constructor_state parser_state j) _ _ (parse_sources-Returns c j.descriptor p)
            λ d1 (f, m). returns (finish_after parser_state constructor_state j d1 f m))

  find_constructor-Returns :
      (c : SolContract) (d : Descriptor SolContract)
      → IsPrepared d
      → Returns (Refines d) (find_constructor S W c d)
  unfolding find_constructor
  find_constructor-Returns c d p =
      let same : Returns (Refines d) (ret d) = returns (Continues-refl d p, refl) in
      Returns-if (Refines d) (S.has_detector c) _ _
        (λ _.
          Returns-bind (λ _. Unit {0}) (Refines d) _ _ (calm.has_constructor_returns c)
            λ present _.
              Returns-if (Refines d) present _ _
                (λ _.
                  Returns-bind (λ _. Unit {0}) (Refines d) _ _ (calm.discover_constructor_returns c)
                    λ (c1, err) _.
                      let d1 : Descriptor SolContract = set_contract (some c1) d in
                      let p1 : IsPrepared d1 = (p.0, p.1, refl, p.3) in
                      let same1 : Returns (Refines d) (ret d1) =
                        returns (Continues-refl d1 p1, refl) in
                      Returns-option (Refines d) err _ _
                        (λ e _. Returns-then (Refines d) _ (ret d1) (log_line-Returns d1 p1) same1)
                        (λ _. same1))
                (λ _. same))
        (λ _. same)

  -- Where the library returns, the constructor's handler takes a prepared job on to the final state
  -- without an error: what was accounted for still is, and storage, files and the contract's key are
  -- as before.
  pub process_constructor-Returns :
      (j : Job S W)
      → IsPrepared j.descriptor
      → Returns (GoesTo final_state j) (process_constructor S W j)
  unfolding process_constructor
  process_constructor-Returns j p =
      Returns-bind (λ c. j.descriptor.contract ≡ some c) (GoesTo final_state j) _ _
        (Returns-deref j.descriptor.contract p.2)
        λ c _. Returns-guard (GoesTo final_state j) _ _ _ p.3 (
          Returns-bind (Refines j.descriptor) (GoesTo final_state j) _ _
            (find_constructor-Returns c j.descriptor p)
            λ d1 r. returns (refl, refl, r.0, refl, refl, r.1))
