-- ===== src/Syncer/Turns/Links.antt =====
-- How many rounds a stage of the pipeline is away from `done`.
use downloader.Base.{ℕ, suc, ◌≡◌, refl, ◌==◌, false, List, Returns, Returns-mono}
use downloader.Machine.{State}
use downloader.Machine.Process.{is_unknown}
use downloader.Unpacker.States.{
  metadata_state, source_providers_state, sources_state, parser_state, constructor_state,
  final_state, done_state,
}
use downloader.Unpacker.Library.{Solgo, Store, Config}
use downloader.Unpacker.Entry.{Job, Processed}
use downloader.Unpacker.Metadata.{process_metadata, process_sources, process_parser}
use downloader.Unpacker.Providers.{process_providers}
use downloader.Unpacker.Assembly.{at}
use downloader.Unpacker.Assembly.Rounds.{IsStage}
use downloader.Unpacker.Flow.{IsCalm, IsPrepared}
use downloader.Unpacker.Flow.Providing.{process_providers-Returns}
use downloader.Unpacker.Flow.Stages.{
  GoesTo, Handles, process_metadata-Returns, process_sources-Returns, process_parser-Returns,
  process_constructor-Returns,
}
use downloader.Unpacker.Study.{
  known, metadata-IsStage, source_providers-IsStage, sources-IsStage, parser-IsStage,
  constructor-IsStage, final-IsStage,
}

module _ (S : Solgo) (W : Store) (cfg : Config) where
  -- The handler of the one stage takes every prepared job on to the other.
  pub record IsLink (s s' : State) (p : Job S W → Processed S W) : Type 0 where
    pub stage : IsStage S W cfg s p
    pub is_known : (j : Job S W) (v : List State) → is_unknown s' (at S W cfg s' j v) ≡ false
    pub unfinished : (s' == done_state) ≡ false
    pub goes : (j : Job S W) → IsPrepared j.descriptor → Returns (GoesTo s' j) (p j)

  -- The rounds from a stage to the end.
  pub data Left : ℕ → State → Type 0 where
    last : {n : ℕ} {s : State} → n ≡ 1 → s ≡ final_state → Left n s
    link :
        {n n' : ℕ} {s s' : State} {p : Job S W → Processed S W}
        → IsLink s s' p
        → Left n s'
        → n' ≡ suc n
        → Left n' s

  module _ (calm : IsCalm S) where
    goes_of :
        (s' own : State) (j : Job S W) (o : Processed S W)
        → Returns (Handles s' own j) o
        → Returns (GoesTo s' j) o
    goes_of s' own j o r = Returns-mono (Handles s' own j) (GoesTo s' j) o (λ x h. h.0) r

    pub metadata-Left : Left 6 metadata_state
    metadata-Left =
        link
          (record {
            stage = metadata-IsStage S W cfg;
            is_known = λ j v.
                known S W cfg source_providers_state source_providers_state _ j v
                  (source_providers-IsStage S W cfg);
            unfinished = refl;
            goes = λ j p.
                goes_of source_providers_state metadata_state j (process_metadata S W j)
                  (process_metadata-Returns S W cfg calm j p);
          })
          (link
            (record {
              stage = source_providers-IsStage S W cfg;
              is_known =
                  λ j v. known S W cfg sources_state sources_state _ j v (sources-IsStage S W cfg);
              unfinished = refl;
              goes = λ j p.
                  goes_of sources_state source_providers_state j (process_providers S W cfg j)
                    (process_providers-Returns S W cfg calm j p);
            })
            (link
              (record {
                stage = sources-IsStage S W cfg;
                is_known =
                    λ j v. known S W cfg parser_state parser_state _ j v (parser-IsStage S W cfg);
                unfinished = refl;
                goes = λ j p.
                    goes_of parser_state sources_state j (process_sources S W j)
                      (process_sources-Returns S W cfg calm j p);
              })
              (link
                (record {
                  stage = parser-IsStage S W cfg;
                  is_known = λ j v.
                      known S W cfg constructor_state constructor_state _ j v
                        (constructor-IsStage S W cfg);
                  unfinished = refl;
                  goes = λ j p.
                      goes_of constructor_state parser_state j (process_parser S W j)
                        (process_parser-Returns S W cfg calm j p);
                })
                (link
                  (record {
                    stage = constructor-IsStage S W cfg;
                    is_known =
                        λ j v. known S W cfg final_state final_state _ j v (final-IsStage S W cfg);
                    unfinished = refl;
                    goes = process_constructor-Returns S W cfg calm;
                  })
                  (last refl refl) refl)
                refl)
              refl)
            refl)
          refl
