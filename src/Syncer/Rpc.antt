-- ===== src/Syncer/Rpc.antt =====
-- `Server.Unpack` of services/syncer/rpc.go: the remote call that answers with the contracts of a list
-- of addresses, from the storage where it has them.
pub mod Cached
pub mod Ends
use downloader.Base.{
  ℕ, to_lower, ◌-◌, ◌%◌, ◌^◌, String, Bool, true, false, not, Option, none, some, List, [], ◌∷◌,
  ◌++◌, ltb, if◌then◌else◌, Outcome, ret, blocks, panics, ◌>>=◌, deref,
}
use downloader.State.{ℤ, pos, negsuc}
use downloader.Models.{Contract, Codec}
use downloader.Models.Columns.{no_rows, Found, found, failed}
use downloader.Models.Columns as Columns
use downloader.Models.Table.{Table, no_fault, get_contract_by_address}
use downloader.Unpacker.States.{discover_state}
use downloader.Unpacker.Descriptor.{Header, Transaction}
use downloader.Unpacker.Library.{Solgo, Config, FilePath}
use downloader.Unpacker.Entry.{Job, underscored}
use downloader.Storage.{table_store}
use downloader.Syncer.{Fault, Chain, Entry, Reply, replied, refused, recovered, unpack_from_entry}

pub record Message (Sources : Type 0) : Type 0 where
  pub network_id : ℕ
  pub address : String
  pub name : String
  pub abi : String
  pub license : String
  pub compiler_version : String
  pub block_number : ℕ
  pub block_hash : String
  pub transaction_hash : String
  pub verified : Bool
  pub optimized : Bool
  pub is_proxy : Bool
  pub optimization_runs : ℤ
  pub sources : Option Sources

-- `CQR_UNKNOWN` and `CQR_FOUND`.
pub data QueueStatus : Type 0 where
  cqr_unknown cqr_found : QueueStatus

pub record ContractQueueResponse (Sources : Type 0) : Type 0 where
  pub status : QueueStatus
  pub contract : Option (Message Sources)

pub record UnpackRequest : Type 0 where
  pub network_id : ℕ
  pub addresses : List String

pub record UnpackResponse (Sources : Type 0) : Type 0 where
  pub status : Bool
  pub network_id : ℕ
  pub contracts : List (ContractQueueResponse Sources)

pub data Error : Type 0 where
  invalid_address : String → Error
  unknown_network : ℕ → Error
  lookup_failed : Columns.Error → Error
  unpack_failed : Fault → Error

-- `int32`.
abbrev pub int32 : ℕ → ℤ
int32 n = let m = n % 2 ^ 32 in if ltb m (2 ^ 31) then pos m else negsuc (2 ^ 32 - 1 - m)

-- What the call takes from the libraries: the reading of the arguments, the path of a contract's
-- sources, and those of a parsed contract.
pub record Remote (S : Solgo) : Type 0 where
  pub is_hex_address : String → Bool
  pub get_network_from_id : ℕ → Option String
  pub get_sources : S.SolContract → S.Sources

module _ (S : Solgo) (k : Codec) (violation : String) (cfg : Config) (chain : Chain S.SolContract)
    (remote : Remote S) where
  abbrev Response : Type 0
  Response = ContractQueueResponse S.Sources

  -- The storage's contract.
  abbrev pub stored_message : ℕ → String → Contract → Option S.Sources → Message S.Sources
  stored_message network_id addr c sources = record {
    network_id = network_id;
    address = addr;
    name = c.name;
    abi = c.abi;
    license = c.license;
    compiler_version = c.compiler_version;
    block_number = c.block_number;
    block_hash = k.hash_hex c.block_hash;
    transaction_hash = k.hash_hex c.transaction_hash;
    verified = c.verified;
    optimized = c.optimized;
    is_proxy = c.proxy;
    optimization_runs = int32 c.optimization_runs;
    sources = sources;
  }

  -- The contract as it was unpacked; its block and its transaction are read.
  abbrev pub unpacked_message : ℕ → String → S.SolContract → Outcome (Message S.Sources)
  unpacked_message network_id addr c = do
    h ← deref (chain.get_block c)
    t ← deref (chain.get_transaction c)
    ret (record {
      network_id = network_id;
      address = addr;
      name = (S.report c).name;
      abi = (S.report c).abi;
      license = (S.report c).license;
      compiler_version = (S.report c).compiler_version;
      block_number = h.number;
      block_hash = k.hash_hex h.block_hash;
      transaction_hash = k.hash_hex t.tx_hash;
      verified = (S.report c).verified;
      optimized = (S.report c).optimized;
      is_proxy = (S.report c).proxy;
      optimization_runs = int32 (S.report c).optimization_runs;
      sources = if S.has_sources c then some (remote.get_sources c) else none;
    })

  -- Where the sources of a stored contract are kept.
  abbrev pub sources_path : String → ℕ → ℕ → FilePath
  sources_path network number addr =
      cfg.contracts_path
      ∷ underscored (to_lower network)
      ∷ "mainnet"
      ∷ "contracts"
      ∷ cfg.to_decimal number
      ∷ cfg.to_hex addr
      ∷ []

  -- One round of the loop: a response, with what it leaves of the storage and the files, or an error.
  pub data Round : Type 0 where
    answered : Response → Table → S.Files → Round
    stopped : Error → Round

  -- After a panic that was recovered the descriptor is nil, and is read.
  abbrev settle : ℕ → String → Response → Reply (Job S (table_store k violation)) → Outcome Round
  settle network_id addr response (replied (some e) j) = ret (stopped (unpack_failed e))
  settle network_id addr response (refused e) = ret (stopped (unpack_failed e))
  settle network_id addr response recovered = panics
  settle network_id addr response (replied none j) = elim j.descriptor.contract [
    | none ↦ ret (answered response j.db j.files)
    | some c ↦
        if S.has_descriptor c
        then (do
          m ← unpacked_message network_id addr c
          ret (answered (record { status = cqr_found; contract = some m }) j.db j.files))
        else ret (answered response j.db j.files)
  ]

  -- The run for an address, after what the storage answered.
  abbrev run :
      ℕ → (ℕ → Bool) → ℕ → String → String → Response → Table → S.Files → Option (Outcome Round)
  run fuel done network_id network addr response t files =
      elim (unpack_from_entry S (table_store k violation) cfg chain fuel done
        (record {
          network = network;
          network_id = network_id;
          header = none;
          creator_addr = 0;
          tx = none;
          receipt = none;
          contract_addr = k.hex_to_address addr;
        })
        discover_state t files) [
          | none ↦ none
          | some o ↦ some (do reply ← o; settle network_id addr response reply)
        ]

  -- The storage's answer: what it has is the response, if the sources are there too.
  abbrev pub from_storage :
      ℕ → (ℕ → Bool) → ℕ → String → String → Table → S.Files → Found → Option (Outcome Round)
  from_storage fuel done network_id network addr t files (failed no_rows) =
      run fuel done network_id network addr (record { status = cqr_unknown; contract = none }) t
        files
  from_storage fuel done network_id network addr t files (failed e) =
      some (ret (stopped (lookup_failed e)))
  from_storage fuel done network_id network addr t files (found c) =
      elim (S.sources_from_path c.name (sources_path network c.block_number (k.hex_to_address addr))
        files) [
          | some sources ↦ some (
              ret (
                answered
                  (record {
                    status = cqr_found;
                    contract = some (stored_message network_id addr c (some sources));
                  })
                  t files))
          | none ↦
              run fuel done network_id network addr
                (record {
                  status = cqr_found;
                  contract = some (stored_message network_id addr c none);
                })
                t files
        ]

  unfoldable pub process_address :
      ℕ → (ℕ → Bool) → ℕ → String → Table → S.Files → Option (Outcome Round)
  unfolding unpack_from_entry get_contract_by_address to_lower
  process_address fuel done network_id addr t files =
      if not (remote.is_hex_address addr)
      then some (ret (stopped (invalid_address addr)))
      else elim (remote.get_network_from_id network_id) [
        | none ↦ some (ret (stopped (unknown_network network_id)))
        | some network ↦
            from_storage fuel done network_id network addr t files
              (get_contract_by_address k violation no_fault network_id (k.hex_to_address addr) t)
      ]

  -- What the call returns: nil and an error, or a response. A panic is recovered, and the response is
  -- what it was by then.
  pub data Ended : Type 0 where
    failed_with : Error → Ended
    responded : UnpackResponse S.Sources → Ended

  unfoldable pub rpc_loop :
      ℕ
      → (ℕ → Bool)
      → UnpackResponse S.Sources
      → List String
      → Table
      → S.Files
      → Option (Outcome Ended)
  unfolding process_address
  rpc_loop fuel done resp [] t files = some (ret (responded resp))
  rpc_loop fuel done resp (addr ∷ addresses) t files =
      elim (process_address fuel done resp.network_id addr t files) [
        | none ↦ none
        | some blocks ↦ some blocks
        | some panics ↦ some (ret (responded resp))
        | some (ret (stopped e)) ↦ some (ret (failed_with e))
        | some (ret (answered r t' files')) ↦
            rpc_loop fuel done (record resp { contracts = resp.contracts ++ r ∷ [] }) addresses t'
              files'
      ]

  unfoldable pub rpc_unpack :
      ℕ → (ℕ → Bool) → UnpackRequest → Table → S.Files → Option (Outcome Ended)
  unfolding rpc_loop
  rpc_unpack fuel done req t files =
      rpc_loop fuel done (record { status = true; network_id = req.network_id; contracts = [] })
        req.addresses t files
