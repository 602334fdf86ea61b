-- ===== src/Syncer/Rpc/Cached.antt =====
-- What the remote call answers for contracts that the storage has.
use mathlib.Core.List.{append-nil, append_assoc}
use downloader.Base.{
  ℕ, String, ◌≡◌, refl, sym, ap, ◌∙◌, Bool, true, some, List, [], ◌∷◌, ◌++◌, map, ret, panics,
}
use downloader.Models.{Contract, Codec}
use downloader.Models.Columns.{found}
use downloader.Models.Table.{Table, no_fault, get_contract_by_address}
use downloader.Unpacker.Library.{Solgo, Config}
use downloader.Syncer.{Chain}
use downloader.Syncer.Rpc.{
  answered, Remote, UnpackResponse, ContractQueueResponse, cqr_found, stored_message, sources_path,
  from_storage, process_address, responded, rpc_loop, rpc_unpack,
}

-- An address, the contract that the storage has there, and its sources.
pub record Item (Sources : Type 0) : Type 0 where
  pub addr : String
  pub contract : Contract
  pub sources : Sources

module _ (S : Solgo) (k : Codec) (violation : String) (cfg : Config) (chain : Chain S.SolContract)
    (remote : Remote S) (fuel : ℕ) (done : ℕ → Bool) (network_id : ℕ) (network : String) (t : Table)
    (files : S.Files) where
  pub record IsCached (i : Item S.Sources) : Type 0 where
    pub valid : remote.is_hex_address i.addr ≡ true
    pub is_stored :
        get_contract_by_address k violation no_fault network_id (k.hex_to_address i.addr) t
        ≡ found i.contract
    pub has_sources :
        S.sources_from_path i.contract.name
          (sources_path S k violation cfg chain remote network i.contract.block_number
            (k.hex_to_address i.addr))
          files
        ≡ some i.sources

  abbrev pub AreCached : List (Item S.Sources) → Type 0
  AreCached [] = Unit {0}
  AreCached (i ∷ items) = IsCached i × AreCached items

  abbrev pub response_of : Item S.Sources → ContractQueueResponse S.Sources
  response_of i = record {
    status = cqr_found;
    contract = some (
        stored_message S k violation cfg chain remote network_id i.addr i.contract
          (some i.sources));
  }

  abbrev pub response_with : List (ContractQueueResponse S.Sources) → UnpackResponse S.Sources
  response_with contracts = record { status = true; network_id = network_id; contracts = contracts }

  process_address-cached :
      (i : Item S.Sources)
      → remote.get_network_from_id network_id ≡ some network
      → IsCached i
      → process_address S k violation cfg chain remote fuel done network_id i.addr t files
        ≡ some (ret (answered (response_of i) t files))
  unfolding process_address
  process_address-cached i known c =
      rw (process_address, c.valid, known)
        (ap
            (from_storage S k violation cfg chain remote fuel done network_id network i.addr t
              files)
            c.is_stored
          ∙ rw (from_storage, c.has_sources) refl)

  -- The cached addresses at the front of a request are answered, and the call goes on with the others.
  rpc_loop-cached :
      (items : List (Item S.Sources)) (rest : List String)
      (contracts : List (ContractQueueResponse S.Sources))
      → remote.get_network_from_id network_id ≡ some network
      → AreCached items
      → rpc_loop S k violation cfg chain remote fuel done
          (response_with contracts)
          (map (λ i. i.addr) items ++ rest)
          t
          files
        ≡ rpc_loop S k violation cfg chain remote fuel done
            (response_with (contracts ++ map response_of items))
            rest
            t
            files
  unfolding rpc_loop
  rpc_loop-cached [] rest contracts known c =
      ap (λ l. rpc_loop S k violation cfg chain remote fuel done (response_with l) rest t files)
        (sym (append-nil contracts))
  rpc_loop-cached (i ∷ items) rest contracts known (c, cs) =
      rw (rpc_loop, process_address-cached i known c)
        (rpc_loop-cached items rest (contracts ++ response_of i ∷ []) known cs
          ∙ ap
              (λ l.
                rpc_loop S k violation cfg chain remote fuel done (response_with l) rest t files)
              (append_assoc contracts (response_of i ∷ []) (map response_of items)))

  -- A request for addresses of a known network that the storage has, with their sources: every address
  -- is answered as found, in the order of the request, from the storage and the sources, and nothing is
  -- unpacked.
  pub rpc_unpack-cached :
      (items : List (Item S.Sources))
      → remote.get_network_from_id network_id ≡ some network
      → AreCached items
      → rpc_unpack S k violation cfg chain remote fuel done
          (record { network_id = network_id; addresses = map (λ i. i.addr) items })
          t
          files
        ≡ some (ret (responded (response_with (map response_of items))))
  unfolding rpc_unpack rpc_loop
  rpc_unpack-cached items known c =
      ap (λ l. rpc_loop S k violation cfg chain remote fuel done (response_with []) l t files)
        (sym (append-nil (map (λ i. i.addr) items)))
      ∙ rpc_loop-cached items [] [] known c

  -- Where, after such addresses, there is one whose processing panics: the call reports success all the
  -- same, with the answers up to there, and the addresses after it are not processed.
  pub rpc_unpack-panics :
      (items : List (Item S.Sources)) (addr : String) (rest : List String)
      → remote.get_network_from_id network_id ≡ some network
      → AreCached items
      → process_address S k violation cfg chain remote fuel done network_id addr t files
        ≡ some panics
      → rpc_unpack S k violation cfg chain remote fuel done
          (record { network_id = network_id; addresses = map (λ i. i.addr) items ++ addr ∷ rest })
          t
          files
        ≡ some (ret (responded (response_with (map response_of items))))
  unfolding rpc_unpack rpc_loop
  rpc_unpack-panics items addr rest known c bad =
      rpc_loop-cached items (addr ∷ rest) [] known c ∙ rw (rpc_loop, bad) refl
