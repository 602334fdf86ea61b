-- ===== src/Graph/Samples.antt =====
-- A table of three contracts of one network, and a codec that reads them.
use downloader.Base.{ℕ, true, false, some, [], ◌∷◌}
use downloader.Options as Options
use downloader.Models.{Contract, Row, Codec}
use downloader.Models.Table.{Table}

abbrev pub codec : Codec
codec = record {
  uint64 = λ n. n;
  hash_hex = λ n. "0x07";
  hex_to_hash = λ s. 7;
  address_hex = λ n. "0x09";
  hex_to_address = λ s. 9;
  bytes_to_hex = λ b. "";
  hex_to_bytes = λ s. [];
  texts_to_json = λ t. some "[]";
  json_to_texts = λ s. some [];
  addresses_to_json = λ a. some "[]";
  json_to_addresses = λ s. some [];
}

abbrev pub row : ℕ → Row
row n = record {
  id = n;
  network_id = 1;
  block_number = n;
  block_hash = "0x07";
  transaction_hash = "0x07";
  address = "0x09";
  name = "Token";
  standards = "[]";
  proxy = false;
  license = "MIT";
  compiler_version = "0.8.0";
  solgo_version = "1";
  optimized = true;
  optimization_runs = 200;
  evm_version = "london";
  abi = "[]";
  verified = true;
  sources_provider = "etherscan";
  verification_provider = "etherscan";
  execution_bytecode = "";
  bytecode = "";
  source_available = true;
  safety_state = "unknown";
  self_destructed = false;
  proxy_implementations = "[]";
  completed_states = "[]";
  failed_states = "[]";
  processed = true;
  is_partial = false;
  created_at = 5;
  updated_at = 6;
}

abbrev pub table : Table
table = record { rows = row 1 ∷ row 2 ∷ row 3 ∷ []; next_id = 4 }

abbrev pub entity : ℕ → Contract
entity n = record {
  id = n;
  network_id = 1;
  block_number = n;
  block_hash = 7;
  transaction_hash = 7;
  address = 9;
  name = "Token";
  standards = [];
  proxy = false;
  license = "MIT";
  compiler_version = "0.8.0";
  solgo_version = "1";
  optimized = true;
  optimization_runs = 200;
  evm_version = "london";
  abi = "[]";
  verified = true;
  sources_provider = "etherscan";
  verification_provider = "etherscan";
  execution_bytecode = [];
  bytecode = [];
  safety_state = "unknown";
  source_available = true;
  self_destructed = false;
  proxy_implementations = [];
  completed_states = [];
  failed_states = [];
  processed = true;
  is_partial = false;
  created_at = 5;
  updated_at = 6;
}

abbrev pub ethereum : Options.Network
ethereum = record {
  name = "Ethereum Mainnet";
  network_id = 1;
  canonical_name = "ethereum";
  symbol = "ETH";
  website = "https://ethereum.org";
  suspended = false;
  maintenance = false;
}
