-- ===== src/Models/Columns.antt =====
-- How pkg/models/contracts.go turns a contract into the parameters of a statement (`SaveContract`,
-- `UpdateContract`) and a row into a contract (`GetContractByUniqueIndex`, `GetContractByAddress`).
pub mod RoundTrip
use downloader.Base.{ℕ, String, Option, none, some}
use downloader.Models.{Contract, Row, Codec}

pub data Error : Type 0 where
  no_rows : Error
  query_failed : String → Error
  bad_standards bad_proxy_implementations bad_completed_states bad_failed_states : Error
  prepare_failed : String → Error
  bad_json : Error
  exec_failed : String → Error

pub data Found : Type 0 where
  found : Contract → Found
  failed : Error → Found

abbrev or_empty : Option String → String
or_empty none = ""
or_empty (some t) = t

module _ (k : Codec) where
  open k use {
    uint64, hash_hex, hex_to_hash, address_hex, hex_to_address, bytes_to_hex, hex_to_bytes,
  }
  open k use {texts_to_json, json_to_texts, addresses_to_json, json_to_addresses}

  -- `row.Scan`, and the conversions behind it.
  unfoldable pub decode : Row → Found
  decode r = elim (json_to_texts r.standards) [
    | none ↦ failed bad_standards
    | some standards ↦ elim (json_to_addresses r.proxy_implementations) [
      | none ↦ failed bad_proxy_implementations
      | some implementations ↦ elim (json_to_texts r.completed_states) [
        | none ↦ failed bad_completed_states
        | some completed ↦ elim (json_to_texts r.failed_states) [
          | none ↦ failed bad_failed_states
          | some failures ↦ found (record {
            id = r.id;
            network_id = r.network_id;
            block_number = r.block_number;
            block_hash = hex_to_hash r.block_hash;
            transaction_hash = hex_to_hash r.transaction_hash;
            address = hex_to_address r.address;
            name = r.name;
            standards = standards;
            proxy = r.proxy;
            license = r.license;
            compiler_version = r.compiler_version;
            solgo_version = r.solgo_version;
            optimized = r.optimized;
            optimization_runs = r.optimization_runs;
            evm_version = r.evm_version;
            abi = r.abi;
            verified = r.verified;
            sources_provider = r.sources_provider;
            verification_provider = r.verification_provider;
            execution_bytecode = hex_to_bytes r.execution_bytecode;
            bytecode = hex_to_bytes r.bytecode;
            safety_state = r.safety_state;
            source_available = r.source_available;
            self_destructed = r.self_destructed;
            proxy_implementations = implementations;
            completed_states = completed;
            failed_states = failures;
            processed = r.processed;
            is_partial = r.is_partial;
            created_at = r.created_at;
            updated_at = r.updated_at;
          })
        ]
      ]
    ]
  ]

  -- The parameters of a statement, under a given id and creation time; only a failure to write the
  -- failed states is an error.
  unfoldable pub encode : ℕ → ℕ → Contract → Option Row
  encode id created c = elim (texts_to_json c.failed_states) [
    | none ↦ none
    | some failures ↦ some (record {
      id = id;
      network_id = uint64 c.network_id;
      block_number = uint64 c.block_number;
      block_hash = hash_hex c.block_hash;
      transaction_hash = hash_hex c.transaction_hash;
      address = address_hex c.address;
      name = c.name;
      standards = or_empty (texts_to_json c.standards);
      proxy = c.proxy;
      license = c.license;
      compiler_version = c.compiler_version;
      solgo_version = c.solgo_version;
      optimized = c.optimized;
      optimization_runs = c.optimization_runs;
      evm_version = c.evm_version;
      abi = c.abi;
      verified = c.verified;
      sources_provider = c.sources_provider;
      verification_provider = c.verification_provider;
      execution_bytecode = bytes_to_hex c.execution_bytecode;
      bytecode = bytes_to_hex c.bytecode;
      source_available = c.source_available;
      safety_state = c.safety_state;
      self_destructed = c.self_destructed;
      proxy_implementations = or_empty (addresses_to_json c.proxy_implementations);
      completed_states = or_empty (texts_to_json c.completed_states);
      failed_states = failures;
      processed = c.processed;
      is_partial = c.is_partial;
      created_at = created;
      updated_at = c.updated_at;
    })
  ]
