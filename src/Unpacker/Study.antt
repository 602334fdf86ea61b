-- ===== src/Unpacker/Study.antt =====
-- The rounds of a run of `Unpacker.Unpack` between its first and its last, a stage each.
use downloader.Base.{
  ℕ, suc, ◌+◌, ◌≡◌, refl, ◌∙◌, Bool, true, false, none, List, [], ◌∷◌, ◌++◌, Returns, Returns-ret,
  Returns-mono, arith,
}
use downloader.Machine.{State}
use downloader.Machine.Process.{process, is_unknown}
use downloader.Unpacker.States.{
  discover_state, metadata_state, source_providers_state, sources_state, parser_state,
  constructor_state, final_state, done_state,
}
use downloader.Unpacker.Library.{Solgo, Store, Config}
use downloader.Unpacker.Entry.{Job, Processed}
use downloader.Unpacker.Discover.{discover}
use downloader.Unpacker.Metadata.{
  process_metadata, process_sources, process_parser, process_constructor,
}
use downloader.Unpacker.Providers.{process_providers}
use downloader.Unpacker.Final.{process_final}
use downloader.Unpacker.Assembly.{at, unpack}
use downloader.Unpacker.Assembly.Rounds.{IsStage, process-moves}
use downloader.Unpacker.Flow.{IsCalm, IsPrepared, identity, accounted, Continues}
use downloader.Unpacker.Flow.Providing.{process_providers-Returns}
use downloader.Unpacker.Flow.Stages.{
  GoesTo, Handles, process_metadata-Returns, process_sources-Returns, process_parser-Returns,
  process_constructor-Returns,
}

-- The stages that a run has to account for.
abbrev pub accountable : List State
accountable =
    discover_state ∷ metadata_state ∷ source_providers_state ∷ sources_state ∷ parser_state
    ∷ final_state ∷ []

-- The stages in the order of a run, but for the first.
abbrev pub stages : List State
stages =
    metadata_state ∷ source_providers_state ∷ sources_state ∷ parser_state ∷ constructor_state
    ∷ final_state ∷ done_state ∷ []

module _ (S : Solgo) (W : Store) (cfg : Config) where
  pub unpack-process :
      (f : ℕ) (done : ℕ → Bool) (s : State) (j : Job S W)
      → unpack S W cfg f done s j ≡ process f done 0 (at S W cfg s j (s ∷ []))
  unfolding unpack
  unpack-process f done s j = refl

  pub discover-IsStage : IsStage S W cfg discover_state (discover S W cfg)
  discover-IsStage = record { registered = refl; unfinished = refl }

  pub metadata-IsStage : IsStage S W cfg metadata_state (process_metadata S W)
  metadata-IsStage = record { registered = refl; unfinished = refl }

  pub source_providers-IsStage : IsStage S W cfg source_providers_state (process_providers S W cfg)
  source_providers-IsStage = record { registered = refl; unfinished = refl }

  pub sources-IsStage : IsStage S W cfg sources_state (process_sources S W)
  sources-IsStage = record { registered = refl; unfinished = refl }

  pub parser-IsStage : IsStage S W cfg parser_state (process_parser S W)
  parser-IsStage = record { registered = refl; unfinished = refl }

  pub constructor-IsStage : IsStage S W cfg constructor_state (process_constructor S W)
  constructor-IsStage = record { registered = refl; unfinished = refl }

  pub final-IsStage : IsStage S W cfg final_state (process_final S W cfg)
  final-IsStage = record { registered = refl; unfinished = refl }

  pub known :
      (s s' : State) (p : Job S W → Processed S W) (j : Job S W) (v : List State)
      → IsStage S W cfg s p
      → is_unknown s (at S W cfg s' j v) ≡ false
  known s s' p j v st = ground (arith, st.registered)

  module _ (done : ℕ → Bool) (never : (n : ℕ) → done n ≡ false) where
    -- A handler that goes to a stage of the pipeline makes a round of the run.
    step :
        (p p' : Job S W → Processed S W) (s s' own : State) (j : Job S W) (v : List State) (f n : ℕ)
        → IsStage S W cfg s p
        → IsStage S W cfg s' p'
        → Returns (Handles s' own j) (p j)
        → (j' : Job S W) × Handles s' own j (s', j', none)
          × (process (suc f) done n (at S W cfg s j v)
              ≡ process f done (n + 1) (at S W cfg s' j' (v ++ s' ∷ [])))
    step p p' s s' own j v f n st st' r =
        let ((t, j', err), e, (g, a)) = Returns-ret (Handles s' own j) (p j) r in
        (
          j',
          ((refl, refl, g.2, g.3, g.4, g.5), a),
          process-moves S W cfg p s st j j' v f n done (never n) s' (e ∙ rw (← g.0, ← g.1) refl)
              (known s' s p' j' v st') st'.unfinished,
        )

    module _ (calm : IsCalm S) where
      -- What the middle of the pipeline leaves for the last stage.
      abbrev pub IsStudied : Job S W → Job S W → Type 0
      IsStudied j j' =
          Continues j.descriptor j'.descriptor
          × (j'.db ≡ j.db)
          × (j'.files ≡ j.files)
          × (identity j'.descriptor ≡ identity j.descriptor)
          × (accounted metadata_state j'.descriptor ≡ true)
          × (accounted source_providers_state j'.descriptor ≡ true)
          × (accounted sources_state j'.descriptor ≡ true)
          × (accounted parser_state j'.descriptor ≡ true)

      at_constructor :
          (j : Job S W)
          → IsPrepared j.descriptor
          → Returns (Handles final_state discover_state j) (process_constructor S W j)
      at_constructor j p =
          Returns-mono (GoesTo final_state j) (Handles final_state discover_state j)
            (process_constructor S W j) (λ r g. (g, ground (arith, g.2.0.3)))
            (process_constructor-Returns S W cfg calm j p)

      -- The five rounds between the first and the last.
      pub study :
          (j : Job S W)
          → IsPrepared j.descriptor
          → (j' : Job S W) × IsStudied j j'
            × (process 6 done 1 (at S W cfg metadata_state j (discover_state ∷ metadata_state ∷ []))
                ≡ process 1 done 6 (
                    at S W cfg final_state j' (
                      discover_state ∷ metadata_state ∷ source_providers_state ∷ sources_state
                      ∷ parser_state ∷ constructor_state ∷ final_state ∷ [])))
      study j p =
          let (j1, (g1, a1), e1) =
            step (process_metadata S W) (process_providers S W cfg) metadata_state
              source_providers_state metadata_state j (discover_state ∷ metadata_state ∷ []) 5 1
              metadata-IsStage source_providers-IsStage
              (process_metadata-Returns S W cfg calm j p) in
          let (j2, (g2, a2), e2) =
            step (process_providers S W cfg) (process_sources S W) source_providers_state
              sources_state source_providers_state j1
              (discover_state ∷ metadata_state ∷ source_providers_state ∷ []) 4 2
              source_providers-IsStage sources-IsStage
              (process_providers-Returns S W cfg calm j1 g1.2.0) in
          let (j3, (g3, a3), e3) =
            step (process_sources S W) (process_parser S W) sources_state parser_state sources_state
              j2 (discover_state ∷ metadata_state ∷ source_providers_state ∷ sources_state ∷ []) 3 3
              sources-IsStage parser-IsStage (process_sources-Returns S W cfg calm j2 g2.2.0) in
          let (j4, (g4, a4), e4) =
            step (process_parser S W) (process_constructor S W) parser_state constructor_state
              parser_state j3
              (discover_state ∷ metadata_state ∷ source_providers_state ∷ sources_state
                ∷ parser_state ∷ [])
              2 4 parser-IsStage constructor-IsStage
              (process_parser-Returns S W cfg calm j3 g3.2.0) in
          let (j5, (g5, a5), e5) =
            step (process_constructor S W) (process_final S W cfg) constructor_state final_state
              discover_state j4
              (discover_state ∷ metadata_state ∷ source_providers_state ∷ sources_state
                ∷ parser_state ∷ constructor_state ∷ [])
              1 5 constructor-IsStage final-IsStage (at_constructor j4 g4.2.0) in
          (
            j5,
            (
              (g5.2.0, λ t h. g5.2.1 t (g4.2.1 t (g3.2.1 t (g2.2.1 t (g1.2.1 t h))))),
              g5.3 ∙ (g4.3 ∙ (g3.3 ∙ (g2.3 ∙ g1.3))),
              g5.4 ∙ (g4.4 ∙ (g3.4 ∙ (g2.4 ∙ g1.4))),
              g5.5 ∙ (g4.5 ∙ (g3.5 ∙ (g2.5 ∙ g1.5))),
              g5.2.1 metadata_state
                  (g4.2.1 metadata_state (g3.2.1 metadata_state (g2.2.1 metadata_state a1))),
              g5.2.1 source_providers_state
                  (g4.2.1 source_providers_state (g3.2.1 source_providers_state a2)),
              g5.2.1 sources_state (g4.2.1 sources_state a3),
              g5.2.1 parser_state a4,
            ),
            e1 ∙ (e2 ∙ (e3 ∙ (e4 ∙ e5))),
          )
