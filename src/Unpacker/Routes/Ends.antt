-- ===== src/Unpacker/Routes/Ends.antt =====
-- The rounds of a run of pkg/unpacker/unpack.go from any state.
use mathlib.Core.Path.{sym}
use downloader.Base.{
  ℕ, ◌≡◌, refl, subst, Bool, true, false, Option, none, some, [], ◌∷◌, ◌==◌, ==_iff, Bool-cases,
  inl, inr, ◌⊎◌, ret, blocks, panics, Outcome, Yields, Yields-ret, arith, lookup,
}
use downloader.Machine.{State, no_state, Error, cancelled, invalid_state}
use downloader.Unpacker.States.{
  discover_state, metadata_state, source_providers_state, sources_state, parser_state,
  constructor_state, final_state, error_state, done_state,
}
use downloader.Unpacker.Library.{Solgo, Store, Config}
use downloader.Unpacker.Entry.{Job, Failure, Processed}
use downloader.Unpacker.Discover.{discover}
use downloader.Unpacker.Metadata.{
  process_metadata, process_sources, process_parser, process_constructor,
}
use downloader.Unpacker.Providers.{process_providers}
use downloader.Unpacker.Final.{process_final}
use downloader.Unpacker.Assembly.{handlers, unpack, Sm}
use downloader.Unpacker.Assembly.Rounds.{IsStage}
use downloader.Unpacker.Study.{
  unpack-process, discover-IsStage, metadata-IsStage, source_providers-IsStage, sources-IsStage,
  parser-IsStage, constructor-IsStage, final-IsStage,
}
use downloader.Unpacker.Routes.{is_discovered, Routed}
use downloader.Unpacker.Routes.Handlers.{
  process_metadata-Routed, process_providers-Routed, process_sources-Routed, process_parser-Routed,
  process_constructor-Routed, process_final-Routed, Opens, discover-Opens,
}
use downloader.Unpacker.Routes.Rounds.{Ended, GoesOn, stage-EndsWithin, process-unhandled}
use downloader.Unpacker.Routes.Stages.{
  by_key, Ends, final_ends, error_ends, constructor_ends, parser_ends, sources_ends, providers_ends,
  metadata_ends, longer, reached, back,
}

module _ (S : Solgo) (W : Store) (cfg : Config) where
  opened :
      (j j' : Job S W) (t : State)
      → discover S W cfg j ≡ ret (t, j', none)
      → GoesOn S W cfg t
      → (is_discovered j'.descriptor ≡ true)
        × ((t ≡ metadata_state)
            ⊎ ((t ≡ j.descriptor.next_state)
                × ((t == no_state) ≡ false)
                × (j'.descriptor.next_state ≡ no_state)))
  opened j j' t e (open_, _) =
      elim (Yields-ret (Opens S W cfg j) (discover S W cfg j) (t, j', none)
        (discover-Opens S W cfg j) e refl) [
          | inl d ↦ absurd (ground (arith, d, open_, (==_iff t done_state).1))
          | inr r ↦ r
        ]

  -- The discovery of a job that does not ask for the discovery again.
  discovery_ends :
      (j : Job S W)
      → (j.descriptor.next_state == discover_state) ≡ false
      → Ends S W cfg 7 discover_state j
  discovery_ends j other =
      stage-EndsWithin S W cfg (discover S W cfg) discover_state j 6 (discover-IsStage S W cfg)
        λ t j' e open_.
          let (known, way) = opened j j' t e open_ in
          elim way [
            | inl m ↦ subst (λ x. Ends S W cfg 6 x j') (sym m) (metadata_ends S W cfg j' known)
            | inr (same, nonzero, _) ↦ reached S W cfg j' t known open_.1 nonzero (rw same other)
          ]

  discover_ends : (j : Job S W) → Ends S W cfg 8 discover_state j
  discover_ends j =
      stage-EndsWithin S W cfg (discover S W cfg) discover_state j 7 (discover-IsStage S W cfg)
        λ t j' e open_.
          let (known, way) = opened j j' t e open_ in
          elim way [
            | inl m ↦
                longer S W cfg 1 6 t j'
                  (subst (λ x. Ends S W cfg 6 x j') (sym m) (metadata_ends S W cfg j' known))
            | inr (_, nonzero, forgotten) ↦ elim (Bool-cases (t == discover_state)) [
              | inr other ↦
                  longer S W cfg 1 6 t j' (reached S W cfg j' t known open_.1 nonzero other)
              | inl first ↦
                  subst (λ x. Ends S W cfg 7 x j') (sym ((==_iff t discover_state).0 first))
                    (discovery_ends j' (rw forgotten refl))
            ]
          ]

  stage_ends :
      (p : Job S W → Processed S W) (s s' : State)
      → IsStage S W cfg s p
      → ((j : Job S W) → Yields (Routed S W cfg s' j) (p j))
      → ((j : Job S W) → is_discovered j.descriptor ≡ true → Ends S W cfg 6 s j)
      → (j : Job S W) → Ends S W cfg 8 s j
  stage_ends p s s' st routed rest j = elim (Bool-cases (is_discovered j.descriptor)) [
    | inl known ↦ longer S W cfg 2 6 s j (rest j known)
    | inr unknown ↦
        back S W cfg p s s' 7 st routed (λ j1 e. discovery_ends j1 (rw e refl)) j unknown
  ]

  last_ends : (j : Job S W) → Ends S W cfg 8 final_state j
  last_ends j = elim (Bool-cases (is_discovered j.descriptor)) [
    | inl known ↦ longer S W cfg 7 1 final_state j (final_ends S W cfg j known)
    | inr unknown ↦
        stage-EndsWithin S W cfg (process_final S W cfg) final_state j 7 (final-IsStage S W cfg)
          λ t j' e _.
            let g =
              (Yields-ret _ (process_final S W cfg j) (t, j', none) (process_final-Routed S W cfg j)
                  e).1
                unknown in
            subst (λ x. Ends S W cfg 7 x j') (sym g.0) (discovery_ends j' (rw g.1 refl))
  ]

  -- In a state that has a handler.
  everywhere : (j : Job S W) (s : State) → Ends S W cfg 8 s j ⊎ (lookup s (handlers S W cfg) ≡ none)
  everywhere j s =
      by_key (λ x. Ends S W cfg 8 x j ⊎ (lookup x (handlers S W cfg) ≡ none)) (handlers S W cfg) s
        (
          inl (discover_ends j),
          (
            inl (
                stage_ends (process_metadata S W) metadata_state source_providers_state
                  (metadata-IsStage S W cfg) (process_metadata-Routed S W cfg)
                  (metadata_ends S W cfg) j),
            (
              inl (
                  stage_ends (process_providers S W cfg) source_providers_state sources_state
                    (source_providers-IsStage S W cfg) (process_providers-Routed S W cfg)
                    (λ j1 k.
                      longer S W cfg 1 5 source_providers_state j1 (providers_ends S W cfg j1 k))
                    j),
              (
                inl (
                    stage_ends (process_sources S W) sources_state parser_state
                      (sources-IsStage S W cfg) (process_sources-Routed S W cfg)
                      (λ j1 k. longer S W cfg 2 4 sources_state j1 (sources_ends S W cfg j1 k)) j),
                (
                  inl (
                      stage_ends (process_parser S W) parser_state constructor_state
                        (parser-IsStage S W cfg) (process_parser-Routed S W cfg)
                        (λ j1 k. longer S W cfg 3 3 parser_state j1 (parser_ends S W cfg j1 k)) j),
                  (
                    inl (
                        stage_ends (process_constructor S W) constructor_state final_state
                          (constructor-IsStage S W cfg) (process_constructor-Routed S W cfg)
                          (λ j1 k.
                            longer S W cfg 4 2 constructor_state j1 (constructor_ends S W cfg j1 k))
                          j),
                    (
                      inl (longer S W cfg 7 1 error_state j (error_ends S W cfg j)),
                      (inl (last_ends j), tt),
                    ),
                  ),
                ),
              ),
            ),
          ),
        )
        inr

  -- What `Unpack` gives from the state `s`: it panics, it waits in a call, or it returns without an
  -- error, cancelled, or with the refusal of a state without a handler.
  abbrev pub Gives : State → Option (Outcome (Option (Error Failure) × Sm S W cfg)) → Type 0
  Gives s none = ⊥
  Gives s (some blocks) = Unit
  Gives s (some panics) = Unit
  Gives s (some (ret (e, m))) =
      (e ≡ none)
      ⊎ (e ≡ some cancelled)
      ⊎ ((lookup s (handlers S W cfg) ≡ none) × (e ≡ some (invalid_state s)))

  Ended-Gives :
      (s : State) (r : Option (Outcome (Option (Error Failure) × Sm S W cfg))) → Ended r → Gives s r
  Ended-Gives s none h = h
  Ended-Gives s (some blocks) h = tt
  Ended-Gives s (some panics) h = tt
  Ended-Gives s (some (ret (e, m))) (inl h) = inl h
  Ended-Gives s (some (ret (e, m))) (inr h) = inr (inl h)

  -- A run of the pipeline never takes more than eight rounds, from any state with any job, whatever
  -- the library and the storage do and whenever the context is done. It panics, it waits in a call, or
  -- it returns; and then without an error, or because it was cancelled, or because the state that it
  -- was to begin in has no handler. What a handler failed with is never returned.
  pub unpack-Gives :
      (done : ℕ → Bool) (s : State) (j : Job S W) → Gives s (unpack S W cfg 8 done s j)
  unpack-Gives done s j =
      subst (Gives s) (sym (unpack-process S W cfg 8 done s j)) (elim (everywhere j s) [
        | inl ends ↦ Ended-Gives s _ (ends done 0 (s ∷ []))
        | inr none_ ↦
            subst (Gives s) (sym (process-unhandled S W cfg s j (s ∷ []) 7 0 done none_))
              (elim (Bool-cases (s == done_state)) [
                | inl d ↦ rw d (inl refl)
                | inr d ↦ rw d (inr (inr (none_, refl)))
              ])
      ])
