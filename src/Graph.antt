-- ===== src/Graph.antt =====
-- pkg/graph: the GraphQL resolvers. The types of models_gen.go that they answer with; an edge's node
-- is the type `Contract` there. The loaded configuration is a list of networks.
pub mod Networks
pub mod Addresses
pub mod Cache
pub mod Contracts
pub mod Order
pub mod Pages
pub mod Preloads
pub mod Samples
pub mod Unpack
mod Tests
use downloader.Base.{ℕ, String, Bool, Option, none, List, map}
use downloader.Models.{Contract, Codec}
use downloader.Options as Options

pub record Network : Type 0 where
  pub network_id : ℕ
  pub name : String
  pub canonical_name : String
  pub symbol : String
  pub website : String
  pub suspended : Bool
  pub maintenance : Bool

-- How each resolver copies a network of the configuration.
abbrev pub network_of : Options.Network → Network
network_of n = record {
  network_id = n.network_id;
  name = n.name;
  canonical_name = n.canonical_name;
  symbol = n.symbol;
  website = n.website;
  suspended = n.suspended;
  maintenance = n.maintenance;
}

pub record Node : Type 0 where
  pub network : Option Network
  pub address : String
  pub name : String
  pub block_number : ℕ
  pub block_hash : String
  pub transaction_hash : String
  pub standards : List String
  pub license : String
  pub optimized : Bool
  pub optimization_runs : ℕ
  pub proxy : Bool
  pub implementations : List String
  pub abi : String
  pub execution_bytecode : String
  pub bytecode : String
  pub evm_version : String
  pub verified : Bool
  pub source_available : Bool
  pub sources_provider : String
  pub verification_provider : String
  pub self_destructed : Bool
  pub compiler_version : String
  pub solgo_version : String
  pub current_state : String
  pub next_state : String
  pub completed_states : List String
  pub failed_states : List String
  pub completed : Bool
  pub is_partial : Bool
  pub created_at : ℕ
  pub updated_at : ℕ

pub record Edge : Type 0 where
  pub node : Node
  pub cursor : String

pub record PageInfo : Type 0 where
  pub has_next_page : Bool
  pub has_previous_page : Bool
  pub start_cursor : String
  pub end_cursor : String

pub record Connection : Type 0 where
  pub edges : List Edge
  pub page_info : PageInfo

-- The contract as both resolvers present it, before its network is set.
abbrev pub node_of : Codec → Contract → Node
node_of k c = record {
  network = none;
  address = k.address_hex c.address;
  name = c.name;
  block_number = k.uint64 c.block_number;
  block_hash = k.hash_hex c.block_hash;
  transaction_hash = k.hash_hex c.transaction_hash;
  standards = c.standards;
  license = c.license;
  optimized = c.optimized;
  optimization_runs = c.optimization_runs;
  proxy = c.proxy;
  implementations = map k.address_hex c.proxy_implementations;
  abi = c.abi;
  execution_bytecode = k.bytes_to_hex c.execution_bytecode;
  bytecode = k.bytes_to_hex c.bytecode;
  evm_version = c.evm_version;
  verified = c.verified;
  source_available = c.source_available;
  sources_provider = c.sources_provider;
  verification_provider = c.verification_provider;
  self_destructed = c.self_destructed;
  compiler_version = c.compiler_version;
  solgo_version = c.solgo_version;
  current_state = "";
  next_state = "";
  completed_states = c.completed_states;
  failed_states = c.failed_states;
  completed = c.processed;
  is_partial = c.is_partial;
  created_at = c.created_at;
  updated_at = c.updated_at;
}
