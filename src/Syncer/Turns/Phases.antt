-- ===== src/Syncer/Turns/Phases.antt =====
-- How far a goroutine is with its contract, over the table of contracts; and what its turn makes of
-- the table.
use downloader.Base.{ℕ, ◌≡◌, ◌∙◌, Bool, true, false, none, some, String, List, is_some}
use downloader.Machine.{State}
use downloader.Models.{Row, Codec}
use downloader.Models.Table.{Table, first, same_index}
use downloader.Unpacker.States.{discover_state, done_state}
use downloader.Unpacker.Descriptor.{Header, Descriptor, has_next_state}
use downloader.Unpacker.Library.{Solgo, Store, Config}
use downloader.Unpacker.Entry.{Job}
use downloader.Unpacker.Assembly.{at}
use downloader.Unpacker.Flow.{IsPrepared}
use downloader.Storage.{table_store}
use downloader.Syncer.Turns.{Thread, running, ended}
use downloader.Syncer.Turns.Links.{Left}

-- What names the contract of a goroutine.
pub record Key : Type 0 where
  pub network_id : ℕ
  pub header : Header
  pub addr : ℕ

module _ (k : Codec) (violation : String) where
  -- The rows of a contract.
  abbrev pub index : Key → Row → Bool
  index key =
      same_index (k.uint64 key.network_id) (k.uint64 key.header.number) (k.address_hex key.addr)

  abbrev pub IsFresh : Key → Table → Type 0
  IsFresh key t = first (index key) t.rows ≡ none

  -- The table has a row of the contract, and that says that it is processed.
  abbrev pub IsKept : Key → Table → Type 0
  IsKept key t = (r : Row) × (first (index key) t.rows ≡ some r) × (r.processed ≡ true)

  -- No row of the contract satisfies the condition.
  abbrev pub Misses : (Row → Bool) → Key → Type 0
  Misses q key = (r : Row) → index key r ≡ true → q r ≡ false

  -- The table only changes in the rows of the contract.
  abbrev pub Spares : Key → Table → Table → Type 0
  Spares key t t' = (q : Row → Bool) → Misses q key → first q t'.rows ≡ first q t.rows

  module _ (S : Solgo) (cfg : Config) where
    abbrev pub W : Store
    W = table_store k violation

    -- The descriptor is about the contract, and the storage had nothing of it.
    pub record IsAbout (key : Key) (d : Descriptor S.SolContract) : Type 0 where
      pub no_model : d.contract_model ≡ none
      pub network_is : d.network_id ≡ key.network_id
      pub addr_is : d.addr ≡ key.addr
      pub header_is : d.header ≡ some key.header

    -- A job that was not begun.
    pub record IsWaiting (key : Key) (j : Job S W) : Type 0 where
      pub network_is : j.descriptor.network_id ≡ key.network_id
      pub addr_is : j.descriptor.addr ≡ key.addr
      pub header_is : j.descriptor.header ≡ some key.header
      pub has_tx : is_some j.descriptor.tx ≡ true
      pub has_receipt : is_some j.descriptor.receipt ≡ true
      pub has_contract : is_some j.descriptor.contract ≡ true
      pub not_directed : has_next_state j.descriptor ≡ false

    -- A goroutine that has the given number of rounds to go.
    pub data Phase (key : Key) (t : Table) : ℕ → Thread S W cfg → Type 0 where
      waits :
          {n : ℕ} (j : Job S W) (v : List State)
          → n ≡ 7
          → IsWaiting key j
          → IsFresh key t
          → Phase key t n (running (at S W cfg discover_state j v))
      studies :
          {n : ℕ} {s : State} (j : Job S W) (v : List State)
          → Left S W cfg n s
          → IsPrepared j.descriptor
          → IsAbout key j.descriptor
          → IsFresh key t
          → Phase key t n (running (at S W cfg s j v))
      is_over :
          {n : ℕ} (j : Job S W) (v : List State)
          → n ≡ 0
          → IsKept key t
          → Phase key t n (ended none (at S W cfg done_state j v))

    -- What a change to other rows leaves.
    pub Phase-first :
        (key : Key) (t t' : Table) (n : ℕ) (th : Thread S W cfg)
        → first (index key) t'.rows ≡ first (index key) t.rows
        → Phase key t n th
        → Phase key t' n th
    Phase-first key t t' n th s (waits j v e w f) = waits j v e w (s ∙ f)
    Phase-first key t t' n th s (studies j v l p a f) = studies j v l p a (s ∙ f)
    Phase-first key t t' n th s (is_over j v e (r, found, processed)) =
        is_over j v e (r, s ∙ found, processed)
