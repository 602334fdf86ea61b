-- ===== src/Graph/Unpack/Tests.antt =====
-- A chain that knows a contract and a broker that brings the syncer's answer.
use downloader.Base.{
  ℕ, ◌≡◌, refl, sym, nat_eq, Bool, false, none, some, Option, List, [], ◌∷◌, take, if◌then◌else◌,
  ret,
}
use downloader.Options as Options
use downloader.Models.{IsInverse}
use downloader.Models.Columns.{encode}
use downloader.Models.Columns.RoundTrip.{stored}
use downloader.Models.Table.{Table, first, save_contract}
use downloader.Models.Table as Table
use downloader.Unpacker.Samples.{small_solgo, config, header}
use downloader.Syncer.{Chain, Unpack}
use downloader.Syncer as Syncer
use downloader.Graph.Samples.{codec, entity, ethereum}
use downloader.Graph.{node_of, network_of}
use downloader.Graph.Contracts.{Library, no_rows}
use downloader.Graph.Pages.{no_fault}
use downloader.Graph.Unpack.{Broker, got, wrong, resolve_failed, mutation_unpack}
use downloader.Graph.Unpack.Answers.{
  mutation_unpack-save_contract, mutation_unpack-served, served-resolves,
}

abbrev library : Library
library = record {
  base64_encode = λ b. "";
  base64_decode = λ s. none;
  gob_encode = λ n. n ∷ [];
  gob_decode = λ b. none;
  int64 = λ n. n;
  limited = λ n rows. take n rows;
  is_text_of = λ n s. false;
}

abbrev empty_table : Table
empty_table = record { rows = []; next_id = 1 }

entity-IsInverse : IsInverse codec (entity 3)
entity-IsInverse = record {
  block_hash_back = refl;
  transaction_hash_back = refl;
  address_back = refl;
  execution_bytecode_back = refl;
  bytecode_back = refl;
  standards_json = "[]";
  standards_written = refl;
  standards_back = refl;
  implementations_json = "[]";
  implementations_written = refl;
  implementations_back = refl;
  completed_json = "[]";
  completed_written = refl;
  completed_back = refl;
  failed_json = "[]";
  failed_written = refl;
  failed_back = refl;
}

abbrev small_chain : Chain Bool
small_chain = record {
  new_contract = λ network addr. Syncer.got false;
  discover_chain_info = λ c. Syncer.got c;
  get_block = λ c. some header;
  get_transaction = λ c. some (record { tx_hash = 8 });
  get_receipt = λ c. some (record { contract_address = 9 });
  set_block = λ h c. c;
  set_transaction = λ t c. c;
  set_receipt = λ r c. c;
  to_network = λ n. "ethereum";
  marshal_binary = λ event. Syncer.got (if event.resolved then 1 ∷ [] else 0 ∷ []);
  publish = λ id data_bytes. none;
}

abbrev never : ℕ → Bool
never n = false

-- The one message there is: its number says whether the event is resolved.
abbrev encoded : Bool → List ℕ
encoded resolved = if resolved then 1 ∷ [] else 0 ∷ []

abbrev request : Unpack
request = record {
  network_id = 1;
  address = 9;
  correlation_id = "unpack.response.1.0x09";
  resolved = false;
}

abbrev decoded : List ℕ → Option Unpack
decoded [] = none
decoded (n ∷ _) = some (record request { resolved = nat_eq n 1 })

abbrev broker : Broker
broker = record {
  correlation = λ n s. "unpack.response.1.0x09";
  marshal = λ event. some (encoded event.resolved);
  unmarshal = decoded;
  subscribe_sync = λ id. none;
  publish = λ subject data_bytes. none;
  next_msg = λ data_bytes t. (some (1 ∷ []), t);
}

saved_table : Table
unfolding save_contract encode
saved_table = (save_contract codec "UNIQUE" Table.no_fault (entity 3) empty_table).1

mutation_unpack-save_contract_example :
    mutation_unpack library codec
      (ethereum ∷ [])
      broker
      no_fault
      (record { network_id = 1; address = "0x09" })
      saved_table
    ≡ (
      ret (
          got (record (node_of codec (stored codec 1 5 (entity 3))) {
            network = some (network_of ethereum);
          })),
      saved_table,
    )
unfolding saved_table first save_contract encode
mutation_unpack-save_contract_example =
    mutation_unpack-save_contract library codec (ethereum ∷ []) broker "UNIQUE" (entity 3)
      entity-IsInverse empty_table saved_table ethereum refl refl refl
      (unfold Options.get_network_by_id in refl)

mutation_unpack-served_example :
    mutation_unpack library codec
      (ethereum ∷ [])
      broker
      no_fault
      (record { network_id = 1; address = "0x09" })
      empty_table
    ≡ (ret (wrong (resolve_failed no_rows)), empty_table)
unfolding first
mutation_unpack-served_example =
    mutation_unpack-served library codec (ethereum ∷ []) small_solgo "UNIQUE" config small_chain
      never (λ n. refl) broker (record { network_id = 1; address = "0x09" }) false false []
      empty_table (0 ∷ []) (1 ∷ []) refl refl refl refl
      (sym (
        served-resolves library codec (ethereum ∷ []) small_solgo "UNIQUE" config small_chain never
          (λ n. refl) request false false (1 ∷ []) [] empty_table refl refl refl refl))
      refl refl refl refl refl
