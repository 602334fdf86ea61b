-- ===== src/Syncer/Turns/Deployments.antt =====
-- The goroutines of `BlockInterceptor`, from their entries.
use downloader.Base.{
  ℕ, String, ◌≡◌, refl, ap, ◌<◌, ◌≤◌, Bool, false, some, map, List, [], ◌∷◌, is_some, length,
  Returns,
}
use downloader.Models.{Codec}
use downloader.Models.Table.{Table}
use downloader.Unpacker.Descriptor.{Header, Transaction, Receipt}
use downloader.Unpacker.Library.{Solgo, Store, Config}
use downloader.Unpacker.Entry.{Job}
use downloader.Unpacker.Flow.{IsCalm}
use downloader.Storage.{table_store}
use downloader.Storage.Kept.{IsWriting}
use downloader.Syncer.{Chain, Entry, get_descriptor}
use downloader.Syncer.Delivery.{start}
use downloader.Syncer.Blocks.Goroutine.{with_receipt, informed}
use downloader.Syncer.Turns.{turns}
use downloader.Syncer.Turns.Phases.{Key, IsFresh}
use downloader.Syncer.Turns.Teams.{count, AreApart}
use downloader.Syncer.Turns.Schedules.{AreWaiting, started, AllKept, turns-AllKept}

-- An entry with the header and the transaction of a deployment, its receipt, and what `NewContract`
-- makes of the address in it.
pub record Deployment (C : Type 0) : Type 0 where
  pub entry : Entry
  pub header : Header
  pub tx : Transaction
  pub receipt : Receipt
  pub contract : C

module _ (k : Codec) (violation : String) (S : Solgo) (cfg : Config) (chain : Chain S.SolContract)
    (never : ℕ → Bool) (going : (n : ℕ) → never n ≡ false) (calm : IsCalm S)
    (writes : IsWriting k) where
  abbrev W : Store
  W = table_store k violation

  abbrev pub key_of : Deployment S.SolContract → Key
  key_of d = record {
    network_id = d.entry.network_id;
    header = d.header;
    addr = d.receipt.contract_address;
  }

  -- What the goroutine gives to the pipeline.
  abbrev pub job_of : Table → S.Files → Deployment S.SolContract → Job S W
  job_of t files d =
      start S W cfg chain never going (with_receipt d.entry d.receipt)
        (informed chain (with_receipt d.entry d.receipt) d.contract) t files

  -- The entries have their header and transaction, and no row is about their contracts.
  abbrev pub AreComplete : Table → List (Deployment S.SolContract) → Type 0
  AreComplete t [] = Unit
  AreComplete t (d ∷ deployments) =
      (d.entry.header ≡ some d.header)
      × (d.entry.tx ≡ some d.tx)
      × IsFresh k violation (key_of d) t
      × AreComplete t deployments

  job_of-AreWaiting :
      (t : Table) (files : S.Files) (deployments : List (Deployment S.SolContract))
      → AreComplete t deployments
      → AreWaiting k violation S cfg calm writes t
          (map key_of deployments)
          (map (job_of t files) deployments)
  unfolding get_descriptor
  job_of-AreWaiting t files [] h = tt
  job_of-AreWaiting t files (d ∷ deployments) (eh, et, fresh, h) = (
    record {
      network_is = refl;
      addr_is = refl;
      header_is = eh;
      has_tx = ap is_some et;
      has_receipt = refl;
      has_contract = refl;
      not_directed = refl;
    },
    fresh,
    job_of-AreWaiting t files deployments h,
  )

  -- The goroutines of deployments of distinct contracts, of which the table has no rows, in any order
  -- of their turns in which each has seven or more: where the library returns, no context is done and
  -- lists of texts can be written, all of them end without an error, and the table has a processed row
  -- of every contract.
  pub deployments-AllKept :
      (deployments : List (Deployment S.SolContract)) (schedule : List ℕ) (t : Table)
      (files : S.Files)
      → AreApart k violation (map key_of deployments)
      → AreComplete t deployments
      → ((i : ℕ) → i < length (map key_of deployments) → 7 ≤ count i schedule)
      → Returns (AllKept k violation S cfg calm writes (map key_of deployments)) (
          turns S W cfg schedule
            (map (started k violation S cfg calm writes) (map (job_of t files) deployments))
            t
            files)
  deployments-AllKept deployments schedule t files apart complete enough =
      turns-AllKept k violation S cfg calm writes (map key_of deployments)
        (map (job_of t files) deployments) schedule t files apart
        (job_of-AreWaiting t files deployments complete) enough
