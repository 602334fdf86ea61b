-- ===== src/Syncer/Turns/Tests.antt =====
-- Two deployments whose goroutines take turns.
use downloader.Base.{
  ℕ, zero, suc, ◌≡◌, refl, ◌<◌, ◌≤◌, Bool, String, false, some, none, map, List, [], ◌∷◌, length,
  Returns, arith,
}
use downloader.Models.{Codec}
use downloader.Models.Table.{Table, first}
use downloader.Unpacker.Samples.{small_solgo, config, small-IsCalm}
use downloader.Storage.{table_store}
use downloader.Storage.Kept.{IsWriting}
use downloader.Syncer.{got, Chain}
use downloader.Syncer.Turns.{turns}
use downloader.Syncer.Turns.Teams.{count}
use downloader.Syncer.Turns.Schedules.{started, AllKept}
use downloader.Syncer.Turns.Deployments.{Deployment, key_of, job_of, deployments-AllKept}

abbrev plain_codec : Codec
plain_codec = record {
  uint64 = λ n. n;
  hash_hex = λ n. "0x07";
  hex_to_hash = λ s. 7;
  address_hex = λ n. "0x09";
  hex_to_address = λ s. 9;
  bytes_to_hex = λ b. "";
  hex_to_bytes = λ s. [];
  texts_to_json = λ t. some "[]";
  json_to_texts = λ s. some [];
  addresses_to_json = λ a. some "[]";
  json_to_addresses = λ s. some [];
}

abbrev refusal : String
refusal = "UNIQUE constraint failed: contracts.address"

plain-IsWriting : IsWriting plain_codec
plain-IsWriting t = refl

abbrev small_chain : Chain Bool
small_chain = record {
  new_contract = λ network addr. got false;
  discover_chain_info = λ c. got c;
  get_block = λ c. none;
  get_transaction = λ c. none;
  get_receipt = λ c. none;
  set_block = λ h c. c;
  set_transaction = λ t c. c;
  set_receipt = λ r c. c;
  to_network = λ n. "ethereum";
  marshal_binary = λ event. got [];
  publish = λ id data_bytes. none;
}

abbrev deployed_at : ℕ → Deployment Bool
deployed_at n = record {
  entry = record {
    network = "ethereum";
    network_id = 1;
    header = some (record { number = n; block_hash = 7 });
    creator_addr = 4;
    tx = some (record { tx_hash = 8 });
    receipt = none;
    contract_addr = 0;
  };
  header = record { number = n; block_hash = 7 };
  tx = record { tx_hash = 8 };
  receipt = record { contract_address = 9 };
  contract = false;
}

abbrev deployments : List (Deployment Bool)
deployments = deployed_at 100 ∷ deployed_at 101 ∷ []

abbrev empty_table : Table
empty_table = record { rows = []; next_id = 1 }

abbrev never : ℕ → Bool
never n = false

abbrev going : (n : ℕ) → never n ≡ false
going n = refl

-- The second goroutine overtakes the first.
abbrev schedule : List ℕ
schedule = 0 ∷ 1 ∷ 1 ∷ 1 ∷ 0 ∷ 1 ∷ 1 ∷ 0 ∷ 1 ∷ 1 ∷ 0 ∷ 0 ∷ 0 ∷ 0 ∷ []

enough :
    (i : ℕ)
    → i
      < length (
          map
            (key_of plain_codec refusal small_solgo config small_chain never going small-IsCalm
              plain-IsWriting)
            deployments)
    → 7 ≤ count i schedule
enough zero h = omega arith
enough (suc zero) h = omega arith
enough (suc (suc i)) h = absurd (omega arith)

deployments-AllKept_example :
    Returns
      (AllKept plain_codec refusal small_solgo config small-IsCalm plain-IsWriting (
        map
          (key_of plain_codec refusal small_solgo config small_chain never going small-IsCalm
            plain-IsWriting)
          deployments))
      (turns small_solgo
        (table_store plain_codec refusal)
        config
        schedule
        (map (started plain_codec refusal small_solgo config small-IsCalm plain-IsWriting) (
          map
            (job_of plain_codec refusal small_solgo config small_chain never going small-IsCalm
              plain-IsWriting empty_table [])
            deployments))
        empty_table
        [])
unfolding first
deployments-AllKept_example =
    deployments-AllKept plain_codec refusal small_solgo config small_chain never going small-IsCalm
      plain-IsWriting deployments schedule empty_table [] ((refl, tt), (tt, tt))
      (refl, refl, refl, (refl, refl, refl, tt)) enough
