-- ===== src/Syncer/Blocks.antt =====
-- `BlockInterceptor` of services/syncer/interceptors.go: the hook that finds the new contracts of a
-- block, and the goroutine of each of them. The goroutines that were started stand in the hook's world,
-- in order; when one of them runs is up to the scheduler.
pub mod Spawned
pub mod Resumption
pub mod Goroutine
use downloader.Base.{
  ℕ, String, Bool, true, false, not, Option, none, some, List, [], ◌∷◌, ◌++◌, if◌then◌else◌,
  Outcome, ret, panics, ◌>>=◌, deref,
}
use downloader.State.{Descriptor, get_head_block_key_by_direction}
use downloader.State as State
use downloader.State.Store.{Big, set}
use downloader.Cache.{Client}
use downloader.Unpacker.States.{discover_state}
use downloader.Unpacker.Descriptor.{Header, Transaction, Receipt}
use downloader.Unpacker.Library.{Solgo, Store, Config}
use downloader.Unpacker.Entry.{Job}
use downloader.Syncer.{
  Attempt, got, wrong, Chain, Entry, Reply, replied, refused, recovered, unpack_from_entry,
}
use downloader.Subscribers.Blocks.{World, Hooked, Hook}

-- What go-ethereum knows of a block and a transaction, and what a client answers for the receipt.
pub record Ethereum (Block : Type 0) : Type 0 where
  pub header : Block → Header
  pub transactions : Block → List Transaction
  pub sender : Transaction → Option ℕ
  pub to : Transaction → Option ℕ
  pub transaction_receipt : Transaction → Attempt Receipt

module _ {Block : Type 0} (eth : Ethereum Block) (has_client : String → Bool) (network : String)
    (network_id : ℕ) where
  open eth use {header, transactions, sender, to}

  abbrev pub entry_of_tx : Block → ℕ → Transaction → Entry
  entry_of_tx block from tx = record {
    network = network;
    network_id = network_id;
    header = some (header block);
    creator_addr = from;
    tx = some tx;
    receipt = none;
    contract_addr = 0;
  }

  -- The loop over the transactions, with the goroutines that it has started.
  unfoldable pub intercept : Block → List Transaction → List Entry → Option String × List Entry
  intercept block [] started = (none, started)
  intercept block (tx ∷ txs) started = elim (sender tx) [
    | none ↦ intercept block txs started
    | some from ↦ elim (to tx) [
      | some _ ↦ intercept block txs started
      | none ↦ elim (has_client network) [
        | false ↦ (some "failure to discover client", started)
        | true ↦ intercept block txs (started ++ entry_of_tx block from tx ∷ [])
      ]
    ]
  ]

  unfoldable pub block_interceptor : {S : Type 0} → Hook Block S (List Entry)
  unfolding intercept
  block_interceptor block w =
      let (e, started) = intercept block (transactions block) w.outside in
      (record { block = some block; error = e }, record w { outside = started })

-- What a goroutine works on: the synchronization state with its cache, the storage and the files.
pub record Shared (C Db Files : Type 0) : Type 0 where
  pub descriptor : Descriptor
  pub server : C
  pub db : Db
  pub files : Files

module _ (S : Solgo) (W : Store) (cfg : Config) (chain : Chain S.SolContract) (big : Big)
    (client : Client) {Block : Type 0} (eth : Ethereum Block) where
  -- The block's number becomes the latest of the direction; an error is logged.
  abbrev pub mark :
      String → ℕ → Shared client.Server W.Db S.Files → Shared client.Server W.Db S.Files
  mark direction n g =
      let (e, (d, s)) =
        set big client (get_head_block_key_by_direction direction).0 n g.descriptor g.server in
      record g { descriptor = d; server = s }

  -- What follows the run: after a panic that was recovered the descriptor is nil, and is read.
  abbrev pub settle :
      String
      → Shared client.Server W.Db S.Files
      → Reply (Job S W)
      → Outcome (Shared client.Server W.Db S.Files)
  settle direction g (replied none j) = do
    h ← deref j.descriptor.header
    ret (mark direction h.number (record g { db = j.db; files = j.files }))
  settle direction g (replied (some e) j) = ret (record g { db = j.db; files = j.files })
  settle direction g (refused e) = ret g
  settle direction g recovered = panics

  -- The goroutine of an entry; `none` says that the fuel of the run is out.
  unfoldable pub process_entry :
      ℕ
      → (ℕ → Bool)
      → String
      → Entry
      → Transaction
      → Shared client.Server W.Db S.Files
      → Option (Outcome (Shared client.Server W.Db S.Files))
  unfolding unpack_from_entry
  process_entry fuel done direction entry tx g = elim (eth.transaction_receipt tx) [
    | wrong e ↦ some (ret g)
    | got receipt ↦
        elim (unpack_from_entry S W cfg chain fuel done
          (record entry { receipt = some receipt; contract_addr = receipt.contract_address })
          discover_state g.db g.files) [
            | none ↦ none
            | some o ↦ some (do reply ← o; settle direction g reply)
          ]
  ]
