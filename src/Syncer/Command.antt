-- ===== src/Syncer/Command.antt =====
-- `Service.Unpack` of services/syncer/unpack.go: the command that unpacks one address.
use downloader.Base.{
  ℕ, String, ◌≡◌, refl, ap, Bool, true, false, not, Option, none, some, if◌then◌else◌, Outcome, ret,
  ◌>>=◌,
}
use downloader.Unpacker.States.{discover_state}
use downloader.Unpacker.Library.{Solgo, Store, Config}
use downloader.Unpacker.Entry.{Job}
use downloader.Unpacker.Runs.{unpack-swallows}
use downloader.Syncer.{
  Fault, chain_failed, got, wrong, Chain, Entry, Reply, replied, refused, recovered, get_descriptor,
  run_unpack,
}
use downloader.Syncer.Delivery.{start, run_unpack_lem}

-- The arguments, read: `IsHexAddress` and `HexToAddress`, `GetNetworkFromString` and `GetNetworkID`.
pub record Arguments : Type 0 where
  pub is_hex_address : String → Bool
  pub hex_to_address : String → ℕ
  pub get_network_from_string : String → Option String
  pub get_network_id : String → ℕ

pub data Error : Type 0 where
  invalid_address : String → Error
  unknown_network : String → Error
  failed : Fault → Error

-- The error of the command, and what the run leaves.
pub data Ended (S : Solgo) (W : Store) : Type 0 where
  ended : Option Error → W.Db → S.Files → Ended S W

module _ (S : Solgo) (W : Store) (cfg : Config) (chain : Chain S.SolContract)
    (args : Arguments) where
  abbrev pub entry_for : String → ℕ → Entry
  entry_for network addr = record {
    network = network;
    network_id = args.get_network_id network;
    header = none;
    creator_addr = 0;
    tx = none;
    receipt = none;
    contract_addr = addr;
  }

  abbrev pub answer : W.Db → S.Files → Reply (Job S W) → Ended S W
  answer db files (replied none j) = ended none j.db j.files
  answer db files (replied (some e) j) = ended (some (failed e)) j.db j.files
  answer db files (refused e) = ended (some (failed e)) db files
  answer db files recovered = ended none db files

  abbrev pub finish :
      W.Db → S.Files → Option (Outcome (Reply (Job S W))) → Option (Outcome (Ended S W))
  finish db files none = none
  finish db files (some o) = some (do reply ← o; ret (answer db files reply))

  -- The contract gets its chain information and the entry does not.
  unfoldable pub unpack_command :
      ℕ → (ℕ → Bool) → String → String → W.Db → S.Files → Option (Outcome (Ended S W))
  unfolding get_descriptor
  unpack_command fuel done addr network db files =
      if not (args.is_hex_address addr)
      then some (ret (ended (some (invalid_address addr)) db files))
      else elim (args.get_network_from_string network) [
        | none ↦ some (ret (ended (some (unknown_network network)) db files))
        | some n ↦
            let e = entry_for n (args.hex_to_address addr) in
            elim (chain.new_contract n e.contract_addr) [
              | wrong x ↦ some (ret (ended (some (failed (chain_failed x))) db files))
              | got c ↦ elim (chain.discover_chain_info c) [
                | wrong x ↦ some (ret (ended (some (failed (chain_failed x))) db files))
                | got c1 ↦ finish db files (
                    run_unpack S W cfg chain fuel done discover_state e
                      (record { descriptor = get_descriptor e c1; db = db; files = files }))
              ]
            ]
      ]

  -- The command for an address that the chain knows, in a context that is not done, ends without an
  -- error although nothing was unpacked: the storage and the files are as before.
  pub unpack_command-swallows :
      (done : ℕ → Bool) (never : (n : ℕ) → done n ≡ false) (addr network n : String)
      (c c1 : S.SolContract) (db : W.Db) (files : S.Files)
      → args.is_hex_address addr ≡ true
      → args.get_network_from_string network ≡ some n
      → chain.new_contract n (args.hex_to_address addr) ≡ got c
      → chain.discover_chain_info c ≡ got c1
      → unpack_command 1 done addr network db files ≡ some (ret (ended none db files))
  unfolding unpack_command
  unpack_command-swallows done never addr network n c c1 db files valid known made info =
      let e : Entry = entry_for n (args.hex_to_address addr) in
      let j : Job S W = start S W cfg chain done never e c1 db files in
      rw (unpack_command, valid, known, made, info)
        (ap (finish db files) (
          run_unpack_lem S W cfg chain done never 1 e j _
            (unpack-swallows S W cfg done never j (unfold get_descriptor in refl))))
