-- ===== src/Unpacker/Library.antt =====
-- What pkg/unpacker takes from outside: the contracts of the library solgo, the storage that
-- pkg/models keeps, the files of the source cache, and the options. `Solgo` and `Store` are
-- parameters of the pipeline.
use downloader.Base.{String, ℕ, Bool, Option, List, Outcome}
use downloader.Models.{Contract}

-- The parts of a path that `filepath.Join` joins.
abbrev pub FilePath : Type 0
FilePath = List String

-- The fields of a contract's descriptor that the storage fills in when sources are cached.
pub record Cached : Type 0 where
  pub name : String
  pub license : String
  pub proxy : Bool
  pub sources_provider : String
  pub compiler_version : String
  pub solgo_version : String
  pub implementations : List ℕ
  pub optimized : Bool
  pub optimization_runs : ℕ
  pub evm_version : String
  pub abi : String
  pub verified : Bool
  pub verification_provider : String

-- The fields of a contract's descriptor that go into the storage.
pub record Report : Type 0 where
  pub cached : Cached
  pub open cached use *
  pub execution_bytecode : List ℕ
  pub bytecode : List ℕ

-- `contracts.Contract` of solgo, with its descriptor. The calls that reach the chain, a provider or
-- the parser may panic; they return the contract as they leave it and the text of their error.
pub record Solgo : Type 1 where
  pub SolContract : Type 0
  pub Sources : Type 0
  pub Files : Type 0
  pub is_valid : SolContract → Outcome Bool
  -- `GetDescriptor() != nil`, `HasMetadata`, `HasSources`, `HasDetector`.
  pub has_descriptor : SolContract → Bool
  pub has_metadata : SolContract → Bool
  pub has_sources : SolContract → Bool
  pub has_detector : SolContract → Bool
  -- The entry contract of the detector's tree has a constructor.
  pub has_constructor : SolContract → Outcome Bool
  pub discover_metadata : SolContract → Outcome (SolContract × Option String)
  pub discover_source_code : SolContract → Outcome (SolContract × Option String)
  pub parse : SolContract → Outcome (SolContract × Option String)
  pub discover_constructor : SolContract → Outcome (SolContract × Option String)
  -- `NewSourcesFromPath`; `none` is its error.
  pub sources_from_path : String → FilePath → Files → Option Sources
  -- `GetDetector().GetSources().WriteToDir`.
  pub write_sources : SolContract → FilePath → Files → Outcome (Files × Option String)
  -- The assignments of sources and fields to the contract's descriptor.
  pub use_cached : Sources → Cached → SolContract → SolContract
  pub report : SolContract → Report
  -- `UnknownSafetyState`.
  pub unknown_safety_state : String

pub data Lookup : Type 0 where
  no_rows : Lookup
  lookup_failed : String → Lookup
  stored : Contract → Lookup

-- The calls of pkg/models that the pipeline makes. Errors are their texts.
pub record Store : Type 1 where
  pub Db : Type 0
  pub get_contract_by_unique_index : ℕ → ℕ → ℕ → Db → Lookup
  pub save_contract : Contract → Db → Option String × Db
  pub update_contract : Contract → Db → Option String × Db

-- The options that the pipeline reads, and the clock at the time of the run. `to_hex` and
-- `to_decimal` are the `Hex` of an address and the `String` of a big integer.
pub record Config : Type 0 where
  pub force_reprocess : Bool
  pub ots_enabled : Bool
  pub contracts_path : String
  pub now : ℕ
  pub to_hex : ℕ → String
  pub to_decimal : ℕ → String
