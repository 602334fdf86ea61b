-- ===== src/Unpacker/Entry.antt =====
-- pkg/unpacker/storage.go: the path of the source cache and the entry that is stored; and what the
-- handlers share.
use downloader.Base.{
  String, ℕ, Option, none, some, [], ◌∷◌, Outcome, ret, ◌>>=◌, deref, to_lower, ltb, length,
}
use downloader.Machine.{State}
use downloader.Models.{Contract}
use downloader.Unpacker.States.{discover_state, metadata_state}
use downloader.Unpacker.Descriptor.{Descriptor, set_next_state}
use downloader.Unpacker.Library.{FilePath, Solgo, Store, Config}

-- `fmt.Sprintf("_%s", …)`.
abbrev pub underscored : String → String
underscored s = String.◌∷◌ "_" s

module _ {C : Type 0} (cfg : Config) where
  unfoldable pub get_storage_cache_path : Descriptor C → Outcome FilePath
  unfolding to_lower
  get_storage_cache_path d = do
    h ← deref d.header
    ret (
        underscored (to_lower d.network)
        ∷ "mainnet"
        ∷ "contracts"
        ∷ cfg.to_decimal h.number
        ∷ cfg.to_hex d.addr
        ∷ [])

-- The id and the creation time of a contract that is stored already are kept.
abbrev dated : Option Contract → ℕ → Contract → Contract
dated none now c = c
dated (some m) now c = record c { created_at = m.created_at; id = m.id; updated_at = now }

module _ (S : Solgo) (cfg : Config) where
  open S use {SolContract}

  unfoldable pub get_contract_entry : Descriptor SolContract → Outcome Contract
  unfolding to_lower
  get_contract_entry d = do
    c ← deref d.contract
    h ← deref d.header
    t ← deref d.tx
    let r = S.report c
    ret (
        dated d.contract_model cfg.now (record {
          id = 0;
          network_id = d.network_id;
          block_number = h.number;
          block_hash = h.block_hash;
          transaction_hash = t.tx_hash;
          address = d.addr;
          name = r.name;
          standards = [];
          proxy = r.proxy;
          license = r.license;
          compiler_version = r.compiler_version;
          solgo_version = r.solgo_version;
          optimized = r.optimized;
          optimization_runs = r.optimization_runs;
          evm_version = to_lower r.evm_version;
          abi = r.abi;
          verified = r.verified;
          sources_provider = r.sources_provider;
          verification_provider = r.verification_provider;
          execution_bytecode = r.execution_bytecode;
          bytecode = r.bytecode;
          safety_state = S.unknown_safety_state;
          source_available = S.has_sources c;
          self_destructed = d.self_destructed;
          proxy_implementations = r.implementations;
          completed_states = d.completed_states;
          failed_states = d.failed_states;
          processed = d.processed;
          is_partial = ltb 0 (length d.failed_states);
          created_at = cfg.now;
          updated_at = 0;
        }))

-- The data of the machine: the descriptor, and the storage and the files that the handlers reach.
pub record Job (S : Solgo) (W : Store) : Type 0 where
  pub descriptor : Descriptor S.SolContract
  pub db : W.Db
  pub files : S.Files

pub data Failure : Type 0 where
  no_header no_transaction no_receipt : ℕ → Failure
  storage_failed : String → Failure

abbrev pub Processed : Solgo → Store → Type 0
Processed S W = Outcome (State × Job S W × Option Failure)

-- The fields of a log line read the header and the transaction.
abbrev pub log_line : {C : Type 0} → Descriptor C → Outcome (Unit {0})
log_line d = do h ← deref d.header; t ← deref d.tx; ret tt

module _ {S : Solgo} {W : Store} where
  abbrev pub with_descriptor : Descriptor S.SolContract → Job S W → Job S W
  with_descriptor d j = record j { descriptor = d }

  -- The guard that most handlers begin with: to `discover` where it is not completed.
  abbrev pub to_discover : Job S W → Processed S W
  to_discover j =
      ret (discover_state, with_descriptor (set_next_state metadata_state j.descriptor) j, none)
