-- ===== src/Syncer.antt =====
-- services/syncer/unpack.go and `UnpackerInterceptor` of services/syncer/interceptors.go, with
-- pkg/entries: how an entry of the chain, or an event, becomes a run of the pipeline.
pub mod Delivery
pub mod Blocks
pub mod Turns
pub mod Command
pub mod Rpc
pub mod Injection
pub mod Service
pub mod Ends
mod Tests
use downloader.Base.{
  String, ℕ, List, [], ◌∷◌, Bool, true, false, Option, none, some, Outcome, ret, blocks, panics,
  ◌>>=◌, deref, is_some, ◌&&◌, if◌then◌else◌,
}
use downloader.Machine.{State, Error}
use downloader.Unpacker.States.{discover_state}
use downloader.Unpacker.Descriptor.{
  Header, Transaction, Receipt, Descriptor, new_descriptor, set_contract,
}
use downloader.Unpacker.Library.{Solgo, Store, Config}
use downloader.Unpacker.Entry.{Job, Failure}
use downloader.Unpacker.Assembly.{Sm, unpack}

-- A call of a client that gives a value or an error's text.
pub data Attempt (A : Type 0) : Type 0 where
  got : A → Attempt A
  wrong : String → Attempt A

pub record Unpack : Type 0 where
  pub network_id : ℕ
  pub address : ℕ
  pub correlation_id : String
  pub resolved : Bool

-- `contracts.NewContract` of solgo, what it finds out of the chain, and `ToNetwork`; the JSON of an
-- event, and the error of a `Publish`.
pub record Chain (C : Type 0) : Type 0 where
  pub new_contract : String → ℕ → Attempt C
  pub discover_chain_info : C → Attempt C
  pub get_block : C → Option Header
  pub get_transaction : C → Option Transaction
  pub get_receipt : C → Option Receipt
  pub set_block : Option Header → C → C
  pub set_transaction : Option Transaction → C → C
  pub set_receipt : Option Receipt → C → C
  pub to_network : ℕ → String
  pub marshal_binary : Unpack → Attempt (List ℕ)
  pub publish : String → List ℕ → Option String

pub record Entry : Type 0 where
  pub network : String
  pub network_id : ℕ
  pub header : Option Header
  pub creator_addr : ℕ
  pub tx : Option Transaction
  pub receipt : Option Receipt
  pub contract_addr : ℕ

pub data Fault : Type 0 where
  chain_failed : String → Fault
  unpack_failed : Error Failure → Fault
  marshal_failed publish_failed : String → Fault

-- A call returns its error and its job, or it has recovered from a panic and returns nil values.
pub data Reply (J : Type 0) : Type 0 where
  replied : Option Fault → J → Reply J
  refused : Fault → Reply J
  recovered : Reply J

-- A message that went out on NATS.
pub record Message : Type 0 where
  pub subject : String
  pub data_bytes : List ℕ

-- `Header == nil || Tx == nil || Receipt == nil`, negated.
abbrev pub has_chain_info : Entry → Bool
has_chain_info e = is_some e.header && (is_some e.tx && is_some e.receipt)

module _ {C : Type 0} where
  unfoldable pub get_descriptor : Entry → C → Descriptor C
  unfolding new_descriptor
  get_descriptor e c =
      set_contract (some c) (record (new_descriptor e.network e.network_id e.contract_addr) {
        header = e.header;
        tx = e.tx;
        receipt = e.receipt;
      })

-- The deferred function: what it logs reads the header and the transaction of the entry.
abbrev pub recovering : {J : Type 0} → Entry → Outcome (Reply J) → Outcome (Reply J)
recovering e (ret r) = ret r
recovering e blocks = blocks
recovering e panics = do h ← deref e.header; t ← deref e.tx; ret recovered

module _ (S : Solgo) (W : Store) (cfg : Config) (chain : Chain S.SolContract) where
  open S use {SolContract}
  open chain use {new_contract, discover_chain_info, get_block, get_transaction, get_receipt}
  open chain use {set_block, set_transaction, set_receipt, to_network, marshal_binary, publish}

  -- An entry without its chain information gets it from the contract, and the other way round.
  unfoldable pub locate : Entry → Attempt (Entry × SolContract)
  locate e = elim (new_contract e.network e.contract_addr) [
    | wrong x ↦ wrong x
    | got c ↦
        if has_chain_info e
        then got (e, set_receipt e.receipt (set_transaction e.tx (set_block e.header c)))
        else elim (discover_chain_info c) [
          | wrong x ↦ wrong x
          | got c1 ↦ got (
            record e { header = get_block c1; tx = get_transaction c1; receipt = get_receipt c1 },
            c1,
          )
        ]
  ]

  abbrev pub result : Outcome (Option (Error Failure) × Sm S W cfg) → Outcome (Reply (Job S W))
  result (ret (none, sm)) = ret (replied none sm.carried)
  result (ret (some e, sm)) = ret (replied (some (unpack_failed e)) sm.carried)
  result blocks = blocks
  result panics = panics

  -- The run of a descriptor under the deferred function; `none` says that the fuel ran out.
  abbrev pub run_unpack :
      ℕ → (ℕ → Bool) → State → Entry → Job S W → Option (Outcome (Reply (Job S W)))
  run_unpack fuel done s e j = elim (unpack S W cfg fuel done s j) [
    | none ↦ none
    | some r ↦ some (recovering e (result r))
  ]

  unfoldable pub unpack_from_entry :
      ℕ → (ℕ → Bool) → Entry → State → W.Db → S.Files → Option (Outcome (Reply (Job S W)))
  unfolding locate get_descriptor unpack
  unpack_from_entry fuel done e s db files = elim (locate e) [
    | wrong x ↦ some (ret (refused (chain_failed x)))
    | got (e1, c) ↦
        run_unpack fuel done s e1
          (record { descriptor = get_descriptor e1 c; db = db; files = files })
  ]

  -- The entry of an event: only the network and the address.
  abbrev pub entry_of : Unpack → Entry
  entry_of event = record {
    network = to_network event.network_id;
    network_id = event.network_id;
    header = none;
    creator_addr = 0;
    tx = none;
    receipt = none;
    contract_addr = event.address;
  }

  -- `event.Resolved = true`, and the message that says so.
  abbrev pub acknowledge : Unpack → Reply (Job S W) → Reply (Job S W) × Unpack × List Message
  acknowledge event (replied none j) =
      let event = record event { resolved = true } in
      elim (marshal_binary event) [
        | wrong x ↦ (replied (some (marshal_failed x)) j, event, [])
        | got data_bytes ↦ elim (publish event.correlation_id data_bytes) [
          | some x ↦ (replied (some (publish_failed x)) j, event, [])
          | none ↦ (
            replied none j,
            event,
            record { subject = event.correlation_id; data_bytes = data_bytes } ∷ [],
          )
        ]
      ]
  acknowledge event (replied (some e) j) = (replied (some e) j, event, [])
  acknowledge event (refused e) = (refused e, event, [])
  acknowledge event recovered = (recovered, event, [])

  -- The chain information goes into the contract and not into the entry. The reply, the event and the
  -- messages that went out.
  unfoldable pub unpacker_interceptor :
      ℕ
      → (ℕ → Bool)
      → Unpack
      → W.Db
      → S.Files
      → Option (Outcome (Reply (Job S W) × Unpack × List Message))
  unfolding get_descriptor unpack
  unpacker_interceptor fuel done event db files =
      let e = entry_of event in
      elim (new_contract e.network e.contract_addr) [
        | wrong x ↦ some (ret (refused (chain_failed x), event, []))
        | got c ↦ elim (discover_chain_info c) [
          | wrong x ↦ some (ret (refused (chain_failed x), event, []))
          | got c1 ↦
              elim (run_unpack fuel done discover_state e
                (record { descriptor = get_descriptor e c1; db = db; files = files })) [
                  | none ↦ none
                  | some r ↦ some (do reply ← r; ret (acknowledge event reply))
                ]
        ]
      ]
