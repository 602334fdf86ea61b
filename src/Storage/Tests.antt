-- ===== src/Storage/Tests.antt =====
-- A run of the pipeline over an empty table.
use downloader.Base.{ℕ, ◌≡◌, refl, Bool, true, false, none, some, [], ◌∷◌, ret, Returns}
use downloader.Models.{Row, Codec}
use downloader.Models.Table.{first, get_contract_by_unique_index}
use downloader.Unpacker.States.{discover_state, done_state}
use downloader.Unpacker.Entry.{Job}
use downloader.Unpacker.Assembly.{unpack, at}
use downloader.Unpacker.Study.{stages}
use downloader.Unpacker.Flow.Opening.{IsFetched}
use downloader.Unpacker.Samples.{small_solgo, config, small-IsCalm, header, prepared}
use downloader.Storage.{table_store}
use downloader.Storage.Lost.{IsLost, process_final-IsLost}
use downloader.Unpacker.Final.{process_final}
use downloader.Storage.Kept.{IsWriting, index_of, unpack-stores}

abbrev plain_codec : Codec
plain_codec = record {
  uint64 = λ n. n;
  hash_hex = λ n. "0x07";
  hex_to_hash = λ s. 7;
  address_hex = λ n. "0x09";
  hex_to_address = λ s. 9;
  bytes_to_hex = λ b. "";
  hex_to_bytes = λ s. [];
  texts_to_json = λ t. some "[]";
  json_to_texts = λ s. some [];
  addresses_to_json = λ a. some "[]";
  json_to_addresses = λ s. some [];
}

plain-IsWriting : IsWriting plain_codec
plain-IsWriting t = refl

abbrev table_job : Job small_solgo (table_store plain_codec "UNIQUE constraint failed")
table_job = record { descriptor = prepared []; db = record { rows = []; next_id = 1 }; files = [] }

table_job-IsFetched :
    IsFetched small_solgo
      (table_store plain_codec "UNIQUE constraint failed")
      config
      table_job
      header
      none
unfolding get_contract_by_unique_index first
table_job-IsFetched = record {
  header_is = refl;
  has_tx = refl;
  has_receipt = refl;
  has_contract = refl;
  not_directed = refl;
  answered = refl;
}

abbrev never : ℕ → Bool
never n = false

unpack-stores_example :
    (j' : Job small_solgo (table_store plain_codec "UNIQUE constraint failed")) × (r : Row)
    × (unpack small_solgo
          (table_store plain_codec "UNIQUE constraint failed")
          config
          7
          never
          discover_state
          table_job
        ≡ some (
            ret (
              none,
              at small_solgo
                  (table_store plain_codec "UNIQUE constraint failed")
                  config
                  done_state
                  j'
                  (discover_state ∷ stages),
            )))
    × (first
          (index_of plain_codec "UNIQUE constraint failed" small_solgo config never
            (λ n. refl)
            small-IsCalm
            table_job
            header)
          j'.db.rows
        ≡ some r)
    × (r.processed ≡ true)
unfolding first
unpack-stores_example =
    unpack-stores plain_codec "UNIQUE constraint failed" small_solgo config never (λ n. refl)
      small-IsCalm table_job header plain-IsWriting table_job-IsFetched refl

-- A table that has the contract of the job already.
abbrev old_row : Row
old_row = record {
  id = 1;
  network_id = 1;
  block_number = 100;
  block_hash = "";
  transaction_hash = "";
  address = "0x09";
  name = "";
  standards = "";
  proxy = false;
  license = "";
  compiler_version = "";
  solgo_version = "";
  optimized = false;
  optimization_runs = 0;
  evm_version = "";
  abi = "";
  verified = false;
  sources_provider = "";
  verification_provider = "";
  execution_bytecode = "";
  bytecode = "";
  source_available = false;
  safety_state = "";
  self_destructed = false;
  proxy_implementations = "";
  completed_states = "";
  failed_states = "";
  processed = true;
  is_partial = false;
  created_at = 1;
  updated_at = 1;
}

abbrev late_job : Job small_solgo (table_store plain_codec "UNIQUE constraint failed")
late_job = record {
  descriptor = prepared (discover_state ∷ []);
  db = record { rows = old_row ∷ []; next_id = 2 };
  files = [];
}

process_final-IsLost_example :
    Returns (IsLost plain_codec "UNIQUE constraint failed" small_solgo config late_job) (
      process_final small_solgo
        (table_store plain_codec "UNIQUE constraint failed")
        config
        late_job)
unfolding first
process_final-IsLost_example =
    process_final-IsLost plain_codec "UNIQUE constraint failed" small_solgo config late_job header
      old_row small-IsCalm plain-IsWriting refl (refl, refl, refl, refl) refl refl refl refl
