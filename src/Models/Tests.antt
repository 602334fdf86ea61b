-- ===== src/Models/Tests.antt =====
-- A sample contract, saved, looked up and updated.
use downloader.Base.{◌≡◌, refl, true, false, none, some, [], ◌∷◌}
use downloader.Models.{Contract, Row, Codec, IsInverse}
use downloader.Models.Columns.{found, encode}
use downloader.Models.Columns.RoundTrip.{stored}
use downloader.Models.Table.{
  Table, no_fault, save_contract, update_contract, get_contract_by_unique_index,
}
use downloader.Models.Table.Lookup.{get_contract_by_unique_index-save_contract}
use downloader.Models.Table.Index.{IsIndexed, save_contract-IsIndexed}
use downloader.Models.Table.Outcomes.{Saved, Updated, save_contract-Saved, update_contract-Updated}

-- A codec that knows one contract.
abbrev small_codec : Codec
small_codec = record {
  uint64 = λ n. n;
  hash_hex = λ n. "0x07";
  hex_to_hash = λ s. 7;
  address_hex = λ n. "0x09";
  hex_to_address = λ s. 9;
  bytes_to_hex = λ b. "0102";
  hex_to_bytes = λ s. 1 ∷ 2 ∷ [];
  texts_to_json = λ t. some "[\"erc20\"]";
  json_to_texts = λ s. some ("erc20" ∷ []);
  addresses_to_json = λ a. some "[9]";
  json_to_addresses = λ s. some (9 ∷ []);
}

abbrev sample : Contract
sample = record {
  id = 0;
  network_id = 1;
  block_number = 100;
  block_hash = 7;
  transaction_hash = 7;
  address = 9;
  name = "Token";
  standards = "erc20" ∷ [];
  proxy = false;
  license = "MIT";
  compiler_version = "0.8.0";
  solgo_version = "1";
  optimized = true;
  optimization_runs = 200;
  evm_version = "london";
  abi = "[]";
  verified = true;
  sources_provider = "etherscan";
  verification_provider = "etherscan";
  execution_bytecode = 1 ∷ 2 ∷ [];
  bytecode = 1 ∷ 2 ∷ [];
  safety_state = "unknown";
  source_available = true;
  self_destructed = false;
  proxy_implementations = 9 ∷ [];
  completed_states = "erc20" ∷ [];
  failed_states = "erc20" ∷ [];
  processed = true;
  is_partial = true;
  created_at = 5;
  updated_at = 6;
}

sample-IsInverse : IsInverse small_codec sample
sample-IsInverse = record {
  block_hash_back = refl;
  transaction_hash_back = refl;
  address_back = refl;
  execution_bytecode_back = refl;
  bytecode_back = refl;
  standards_json = "[\"erc20\"]";
  standards_written = refl;
  standards_back = refl;
  implementations_json = "[9]";
  implementations_written = refl;
  implementations_back = refl;
  completed_json = "[\"erc20\"]";
  completed_written = refl;
  completed_back = refl;
  failed_json = "[\"erc20\"]";
  failed_written = refl;
  failed_back = refl;
}

abbrev sample_row : Row
sample_row = record {
  id = 3;
  network_id = 1;
  block_number = 100;
  block_hash = "0x07";
  transaction_hash = "0x07";
  address = "0x09";
  name = "Token";
  standards = "[\"erc20\"]";
  proxy = false;
  license = "MIT";
  compiler_version = "0.8.0";
  solgo_version = "1";
  optimized = true;
  optimization_runs = 200;
  evm_version = "london";
  abi = "[]";
  verified = true;
  sources_provider = "etherscan";
  verification_provider = "etherscan";
  execution_bytecode = "0102";
  bytecode = "0102";
  source_available = true;
  safety_state = "unknown";
  self_destructed = false;
  proxy_implementations = "[9]";
  completed_states = "[\"erc20\"]";
  failed_states = "[\"erc20\"]";
  processed = true;
  is_partial = true;
  created_at = 5;
  updated_at = 6;
}

abbrev empty_table : Table
empty_table = record { rows = []; next_id = 3 }

abbrev sample_table : Table
sample_table = record { rows = sample_row ∷ []; next_id = 4 }

save_sample : save_contract small_codec "UNIQUE" no_fault sample empty_table ≡ (none, sample_table)
unfolding save_contract encode
save_sample = refl

get_contract_by_unique_index-save_contract_example :
    get_contract_by_unique_index small_codec "UNIQUE" no_fault 1 100 9 sample_table
    ≡ found (stored small_codec 3 5 sample)
get_contract_by_unique_index-save_contract_example =
    get_contract_by_unique_index-save_contract small_codec "UNIQUE" sample sample-IsInverse
      empty_table sample_table save_sample

empty-IsIndexed : IsIndexed empty_table
empty-IsIndexed = record { distinct = tt; below = tt }

saved_sample : IsIndexed sample_table
unfolding save_contract encode
saved_sample =
    save_contract-IsIndexed small_codec "UNIQUE" no_fault sample empty_table empty-IsIndexed

save_contract-Saved_example :
    IsIndexed (save_contract small_codec "UNIQUE" no_fault sample empty_table).1
    × Saved small_codec "UNIQUE" sample empty_table
        (save_contract small_codec "UNIQUE" no_fault sample empty_table)
save_contract-Saved_example =
    save_contract-Saved small_codec "UNIQUE" no_fault sample empty_table empty-IsIndexed

update_contract-Updated_example :
    IsIndexed
      (update_contract small_codec "UNIQUE" no_fault (record sample { id = 3 }) sample_table).1
    × Updated small_codec "UNIQUE"
        (record sample { id = 3 })
        sample_table
        (update_contract small_codec "UNIQUE" no_fault (record sample { id = 3 }) sample_table)
update_contract-Updated_example =
    update_contract-Updated small_codec "UNIQUE" no_fault (record sample { id = 3 }) sample_table
      saved_sample
