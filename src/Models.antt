-- ===== src/Models.antt =====
-- pkg/models/contracts.go: the contract entry and its columns. Addresses and hashes are numbers,
-- bytecode is a list of bytes, and a time is a number. The texts of columns come from libraries:
-- a `Codec` stands for them.
pub mod Columns
pub mod Table
pub mod Types
mod Tests
use downloader.Base.{String, joined, ℕ, Bool, not, ◌&&◌, Option, some, List, ◌≡◌}

pub record Contract : Type 0 where
  pub id : ℕ
  pub network_id : ℕ
  pub block_number : ℕ
  pub block_hash : ℕ
  pub transaction_hash : ℕ
  pub address : ℕ
  pub name : String
  pub standards : List String
  pub proxy : Bool
  pub license : String
  pub compiler_version : String
  pub solgo_version : String
  pub optimized : Bool
  pub optimization_runs : ℕ
  pub evm_version : String
  pub abi : String
  pub verified : Bool
  pub sources_provider : String
  pub verification_provider : String
  pub execution_bytecode : List ℕ
  pub bytecode : List ℕ
  pub safety_state : String
  pub source_available : Bool
  pub self_destructed : Bool
  pub proxy_implementations : List ℕ
  pub completed_states : List String
  pub failed_states : List String
  pub processed : Bool
  pub is_partial : Bool
  pub created_at : ℕ
  pub updated_at : ℕ

-- `IsCompleted`.
unfoldable pub is_completed : Contract → Bool
is_completed c = c.processed && not c.is_partial

-- `ContractKeyPrefix`.
abbrev pub contract_key_prefix : String
contract_key_prefix = "contract:entry"

-- `GetKey`, with the texts of a number and of an address.
unfoldable pub get_key : (ℕ → String) → (ℕ → String) → Contract → String
get_key to_decimal to_hex c =
    joined contract_key_prefix
      (joined "-" (joined (to_decimal c.network_id) (joined "-" (to_hex c.address))))

-- A row of the table `contracts` (migrations/sqlite3), column by column.
pub record Row : Type 0 where
  pub id : ℕ
  pub network_id : ℕ
  pub block_number : ℕ
  pub block_hash : String
  pub transaction_hash : String
  pub address : String
  pub name : String
  pub standards : String
  pub proxy : Bool
  pub license : String
  pub compiler_version : String
  pub solgo_version : String
  pub optimized : Bool
  pub optimization_runs : ℕ
  pub evm_version : String
  pub abi : String
  pub verified : Bool
  pub sources_provider : String
  pub verification_provider : String
  pub execution_bytecode : String
  pub bytecode : String
  pub source_available : Bool
  pub safety_state : String
  pub self_destructed : Bool
  pub proxy_implementations : String
  pub completed_states : String
  pub failed_states : String
  pub processed : Bool
  pub is_partial : Bool
  pub created_at : ℕ
  pub updated_at : ℕ

-- What go-ethereum (`Hex`, `HexToHash`, `HexToAddress`, `Bytes2Hex`, `Hex2Bytes`) and the JSON
-- helpers of solgo do; `none` is their error. `uint64` is `big.Int.Uint64`.
pub record Codec : Type 0 where
  pub uint64 : ℕ → ℕ
  pub hash_hex : ℕ → String
  pub hex_to_hash : String → ℕ
  pub address_hex : ℕ → String
  pub hex_to_address : String → ℕ
  pub bytes_to_hex : List ℕ → String
  pub hex_to_bytes : String → List ℕ
  pub texts_to_json : List String → Option String
  pub json_to_texts : String → Option (List String)
  pub addresses_to_json : List ℕ → Option String
  pub json_to_addresses : String → Option (List ℕ)

-- The codec writes what the contract holds, and reads it back.
pub record IsInverse (k : Codec) (c : Contract) : Type 0 where
  pub block_hash_back : k.hex_to_hash (k.hash_hex c.block_hash) ≡ c.block_hash
  pub transaction_hash_back : k.hex_to_hash (k.hash_hex c.transaction_hash) ≡ c.transaction_hash
  pub address_back : k.hex_to_address (k.address_hex c.address) ≡ c.address
  pub execution_bytecode_back :
      k.hex_to_bytes (k.bytes_to_hex c.execution_bytecode) ≡ c.execution_bytecode
  pub bytecode_back : k.hex_to_bytes (k.bytes_to_hex c.bytecode) ≡ c.bytecode
  pub standards_json : String
  pub standards_written : k.texts_to_json c.standards ≡ some standards_json
  pub standards_back : k.json_to_texts standards_json ≡ some c.standards
  pub implementations_json : String
  pub implementations_written :
      k.addresses_to_json c.proxy_implementations ≡ some implementations_json
  pub implementations_back : k.json_to_addresses implementations_json ≡ some c.proxy_implementations
  pub completed_json : String
  pub completed_written : k.texts_to_json c.completed_states ≡ some completed_json
  pub completed_back : k.json_to_texts completed_json ≡ some c.completed_states
  pub failed_json : String
  pub failed_written : k.texts_to_json c.failed_states ≡ some failed_json
  pub failed_back : k.json_to_texts failed_json ≡ some c.failed_states
