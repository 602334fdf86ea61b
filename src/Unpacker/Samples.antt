-- ===== src/Unpacker/Samples.antt =====
-- A library, a storage and a configuration on which the pipeline runs, and two contracts: one that
-- is new, and one that is completed.
use downloader.Base.{Bool, true, false, none, some, List, [], ◌∷◌, ret, returns}
use downloader.Machine.{State}
use downloader.Models.{Contract}
use downloader.Unpacker.Descriptor.{Header, Descriptor}
use downloader.Unpacker.Library.{FilePath, Report, Solgo, Store, Config, no_rows, stored}
use downloader.Unpacker.Entry.{Job}
use downloader.Unpacker.Flow.{IsCalm}

abbrev pub small_report : Report
small_report = record {
  cached = record {
    name = "Token";
    license = "MIT";
    proxy = false;
    sources_provider = "etherscan";
    compiler_version = "0.8.0";
    solgo_version = "1";
    implementations = [];
    optimized = true;
    optimization_runs = 200;
    evm_version = "London";
    abi = "[]";
    verified = true;
    verification_provider = "etherscan";
  };
  execution_bytecode = 1 ∷ [];
  bytecode = 1 ∷ [];
}

-- A contract is whether its sources are known. A provider has them; there is no metadata.
abbrev pub small_solgo : Solgo
small_solgo = record {
  SolContract = Bool;
  Sources = Unit {0};
  Files = List FilePath;
  is_valid = λ c. ret true;
  has_descriptor = λ c. true;
  has_metadata = λ c. false;
  has_sources = λ c. c;
  has_detector = λ c. c;
  has_constructor = λ c. ret true;
  discover_metadata = λ c. ret (c, some "no metadata");
  discover_source_code = λ c. ret (true, none);
  parse = λ c. ret (c, none);
  discover_constructor = λ c. ret (c, none);
  sources_from_path = λ name path files. none;
  write_sources = λ c path files. ret (path ∷ files, none);
  use_cached = λ sources m c. true;
  report = λ c. small_report;
  unknown_safety_state = "unknown";
}

-- The last contract that was saved is the answer of every lookup.
abbrev pub small_store : Store
small_store = record {
  Db = List Contract;
  get_contract_by_unique_index =
      λ network number addr db. elim db [ [] ↦ no_rows | c ∷ _ ↦ stored c ];
  save_contract = λ c db. (none, c ∷ db);
  update_contract = λ c db. (none, c ∷ []);
}

abbrev pub config : Config
config = record {
  force_reprocess = false;
  ots_enabled = false;
  contracts_path = "/cache";
  now = 5;
  to_hex = λ n. "0x09";
  to_decimal = λ n. "100";
}

pub small-IsCalm : IsCalm small_solgo
small-IsCalm = record {
  is_valid_returns = λ c. returns tt;
  has_constructor_returns = λ c. returns tt;
  discover_metadata_returns = λ c. returns tt;
  discover_source_code_returns = λ c. returns tt;
  parse_returns = λ c. returns tt;
  discover_constructor_returns = λ c. returns tt;
  write_sources_returns = λ c path files. returns tt;
}

abbrev pub header : Header
header = record { number = 100; block_hash = 7 }

abbrev pub done_contract : Contract
done_contract = record {
  id = 3;
  network_id = 1;
  block_number = 100;
  block_hash = 7;
  transaction_hash = 8;
  address = 9;
  name = "Token";
  standards = [];
  proxy = false;
  license = "MIT";
  compiler_version = "0.8.0";
  solgo_version = "1";
  optimized = true;
  optimization_runs = 200;
  evm_version = "london";
  abi = "[]";
  verified = true;
  sources_provider = "etherscan";
  verification_provider = "etherscan";
  execution_bytecode = [];
  bytecode = [];
  safety_state = "unknown";
  source_available = true;
  self_destructed = false;
  proxy_implementations = [];
  completed_states = [];
  failed_states = [];
  processed = true;
  is_partial = false;
  created_at = 5;
  updated_at = 6;
}

abbrev pub prepared : List State → Descriptor Bool
prepared completed = record {
  contract = some false;
  contract_model = none;
  network = "ethereum";
  network_id = 1;
  addr = 9;
  header = some header;
  tx = some (record { tx_hash = 8 });
  receipt = some (record { contract_address = 9 });
  next_state = "";
  completed_states = completed;
  failed_states = [];
  self_destructed = false;
  is_partial = false;
  processed = false;
}

abbrev pub job : List State → List Contract → Job small_solgo small_store
job completed db = record { descriptor = prepared completed; db = db; files = [] }
