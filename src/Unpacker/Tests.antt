-- ===== src/Unpacker/Tests.antt =====
-- Runs of the pipeline on the samples.
use downloader.Base.{ℕ, ◌≡◌, refl, Bool, false, none, some, [], ◌∷◌, ret, Returns}
use downloader.Models.{is_completed}
use downloader.Machine.{transition}
use downloader.Machine.Process.{process}
use downloader.Unpacker.Discover.{discover}
use downloader.Unpacker.Metadata.{
  process_metadata, process_sources, process_parser, process_constructor,
}
use downloader.Unpacker.Providers.{process_providers}
use downloader.Unpacker.States.{discover_state, error_state, done_state}
use downloader.Unpacker.Descriptor.Lists.{IsUnique}
use downloader.Unpacker.Entry.{Job}
use downloader.Unpacker.Assembly.{unpack, at}
use downloader.Unpacker.Flow.{IsPrepared}
use downloader.Unpacker.Final.{process_final}
use downloader.Unpacker.Flow.Writing.{IsWritten, process_final-IsWritten}
use downloader.Unpacker.Flow.Opening.{IsFetched}
use downloader.Unpacker.Runs.{unpack-skips, unpack-swallows}
use downloader.Unpacker.Routes.Ends.{Gives, unpack-Gives}
use downloader.Unpacker.Samples.{
  small_solgo, small_store, config, small-IsCalm, header, done_contract, prepared, job,
}

old-IsFetched :
    IsFetched small_solgo small_store config
      (job [] (done_contract ∷ []))
      header
      (some done_contract)
old-IsFetched = record {
  header_is = refl;
  has_tx = refl;
  has_receipt = refl;
  has_contract = refl;
  not_directed = refl;
  answered = refl;
}

abbrev never : ℕ → Bool
never n = false

unpack-skips_example :
    (j' : Job small_solgo small_store) × (j'.descriptor.contract_model ≡ some done_contract)
    × (j'.descriptor.processed ≡ false)
    × (j'.db ≡ done_contract ∷ [])
    × (j'.files ≡ [])
    × (unpack small_solgo small_store config 1 never discover_state (job [] (done_contract ∷ []))
        ≡ some (
            ret (
              none,
              at small_solgo small_store config done_state j' (discover_state ∷ done_state ∷ []),
            )))
unpack-skips_example =
    unpack-skips small_solgo small_store config never (λ n. refl) small-IsCalm
      (job [] (done_contract ∷ [])) header (some done_contract) old-IsFetched
      (unfold is_completed in refl)

abbrev blank : Job small_solgo small_store
blank = record { descriptor = record (prepared []) { header = none }; db = []; files = [] }

unpack-swallows_example :
    unpack small_solgo small_store config 1 never discover_state blank
    ≡ some (
        ret (
          none,
          at small_solgo small_store config error_state blank (discover_state ∷ error_state ∷ []),
        ))
unpack-swallows_example =
    unpack-swallows small_solgo small_store config never (λ n. refl) blank refl

prepared-IsUnique : IsUnique (discover_state ∷ [])
prepared-IsUnique = (refl, tt)

ready : IsPrepared (prepared (discover_state ∷ []))
ready = (refl, refl, refl, refl)

abbrev ready_job : Job small_solgo small_store
ready_job = job (discover_state ∷ []) []

process_final-IsWritten_example :
    Returns
      (IsWritten small_solgo small_store config small-IsCalm ready_job)
      (process_final small_solgo small_store config ready_job)
process_final-IsWritten_example =
    process_final-IsWritten small_solgo small_store config small-IsCalm ready_job ready

-- A job that asks for the discovery again goes through it twice.
abbrev again : Job small_solgo small_store
again = record (job [] []) { descriptor = record (prepared []) { next_state = discover_state } }

unpack-Gives_example :
    Gives small_solgo small_store config discover_state
      (unpack small_solgo small_store config 8 never discover_state again)
unpack-Gives_example = unpack-Gives small_solgo small_store config never discover_state again

-- Seven rounds are not enough for it.
again_short : unpack small_solgo small_store config 7 never discover_state again ≡ none
unfolding unpack process discover transition process_metadata process_providers process_sources
    process_parser process_constructor
again_short = refl
