-- ===== src/Graph/Unpack/Answers.antt =====
-- What the mutation answers: for a contract that the storage has, and for one that the syncer has yet
-- to unpack.
use downloader.Base.{
  [], ◌∷◌, ℕ, String, ◌≡◌, refl, ap, ◌∙◌, Bool, true, false, not, ◌&&◌, Option, none, some, List,
  Option-cases, inl, inr, Outcome, ret, arith,
}
use downloader.Options.{get_network_by_id}
use downloader.Options as Options
use downloader.Models.{Contract, Row, Codec, IsInverse}
use downloader.Models.Columns.{found, decode}
use downloader.Models.Columns.RoundTrip.{stored}
use downloader.Models.Table.{Table, first, same_address, save_contract, get_contract_by_address}
use downloader.Models.Table as Table
use downloader.Models.Table.Lookup.{get_contract_by_address-save_contract}
use downloader.Unpacker.Library.{Solgo, Config}
use downloader.Unpacker.Entry.{Job}
use downloader.Storage.{table_store}
use downloader.Syncer.{Chain, Unpack, Reply, replied, Message, unpacker_interceptor}
use downloader.Syncer as Syncer
use downloader.Syncer.Delivery.{unpacker_interceptor-resolves}
use downloader.Graph.{node_of, network_of}
use downloader.Graph.Contracts.{Library, no_rows, answered, resolve_contract}
use downloader.Graph.Pages.{no_fault}
use downloader.Graph.Unpack.{
  Broker, ContractUnpackRequest, got, wrong, resolve_failed, request_of, receive, ask,
  mutation_unpack,
}

module _ (lib : Library) (k : Codec) (networks : List Options.Network) where
  resolve_contract-first :
      (network_id address : ℕ) (t : Table) (r : Row) (c : Contract) (n : Options.Network)
      → first (same_address network_id (k.address_hex address)) t.rows ≡ some r
      → decode k r ≡ found c
      → get_network_by_id (k.uint64 c.network_id) networks ≡ some n
      → resolve_contract lib k networks no_fault network_id address t
        ≡ ret (answered (record (node_of k c) { network = some (network_of n) }))
  unfolding resolve_contract
  resolve_contract-first network_id address t r c n row read known =
      rw (resolve_contract, row, read, known) refl

  found-first :
      (violation : String) (network address : ℕ) (t : Table) (c : Contract)
      → get_contract_by_address k violation Table.no_fault network address t ≡ found c
      → (r : Row) × (first (same_address (k.uint64 network) (k.address_hex address)) t.rows
          ≡ some r)
        × (decode k r ≡ found c)
  unfolding get_contract_by_address
  found-first violation network address t c h =
      elim (Option-cases (first (same_address (k.uint64 network) (k.address_hex address)) t.rows)) [
        | inl e ↦ absurd (ground (arith, e, h))
        | inr (r, e) ↦ (r, e, ground (arith, e, h))
      ]

  -- A contract that was saved as processed and not partial, at an address that no row had, is the
  -- answer to a request for its network and address, whatever NATS does, and the table stays: the
  -- codec reads back what it writes of the contract, and its network is configured.
  pub mutation_unpack-save_contract :
      (broker : Broker) (violation : String) (c : Contract) (i : IsInverse k c) (t t' : Table)
      (n : Options.Network)
      → save_contract k violation Table.no_fault c t ≡ (none, t')
      → first (same_address (k.uint64 c.network_id) (k.address_hex c.address)) t.rows ≡ none
      → (c.processed && not c.is_partial) ≡ true
      → get_network_by_id (k.uint64 (k.uint64 c.network_id)) networks ≡ some n
      → mutation_unpack lib k networks broker no_fault
          (record { network_id = k.uint64 c.network_id; address = k.address_hex c.address })
          t'
        ≡ (
          ret (
              got (record (node_of k (stored k t.next_id c.created_at c)) {
                network = some (network_of n);
              })),
          t',
        )
  unfolding mutation_unpack
  mutation_unpack-save_contract broker violation c i t t' n saved fresh complete known =
      let (r, row, read) =
        found-first violation c.network_id c.address t' (stored k t.next_id c.created_at c)
          (get_contract_by_address-save_contract k violation c i t t' saved fresh) in
      rw
        (
          i.address_back,
          mutation_unpack,
          resolve_contract-first (k.uint64 c.network_id) c.address t' r
              (stored k t.next_id c.created_at c) n row read known,
          complete,
        )
        refl

  -- What the syncer makes of a request: the message that it publishes if it has resolved it, and the
  -- table that its run leaves.
  module _ (S : Solgo) (violation : String) (cfg : Config) (chain : Chain S.SolContract)
      (done : ℕ → Bool) (never : (n : ℕ) → done n ≡ false) where
    abbrev table_of : Table → Syncer.Reply (Job S (table_store k violation)) → Table
    table_of t (replied e j) = j.db
    table_of t _ = t

    abbrev answer_of :
        Table
        → Option (Outcome (Syncer.Reply (Job S (table_store k violation)) × Unpack × List Message))
        → Option (List ℕ) × Table
    answer_of t (some (ret (reply, event, m ∷ sent))) = (some m.data_bytes, table_of t reply)
    answer_of t (some (ret (reply, event, []))) = (none, table_of t reply)
    answer_of t _ = (none, t)

    abbrev pub served : S.Files → Unpack → Table → Option (List ℕ) × Table
    served files event t =
        answer_of t
          (unpacker_interceptor S (table_store k violation) cfg chain 1 done event t files)

    pub served-resolves :
        (event : Unpack) (c c1 : S.SolContract) (data_bytes : List ℕ) (files : S.Files) (t : Table)
        → chain.new_contract (chain.to_network event.network_id) event.address ≡ Syncer.got c
        → chain.discover_chain_info c ≡ Syncer.got c1
        → chain.marshal_binary (record event { resolved = true }) ≡ Syncer.got data_bytes
        → chain.publish event.correlation_id data_bytes ≡ none
        → served files event t ≡ (some data_bytes, t)
    served-resolves event c c1 data_bytes files t made info written published =
        ap (answer_of t)
          (unpacker_interceptor-resolves S (table_store k violation) cfg chain done never event c c1
            data_bytes t files made info written published).0

    -- A request for a contract that no row has, where NATS works and what comes back is what the syncer
    -- answers, for a contract that the chain knows, and the context is not done: the syncer says that it
    -- has resolved the request, and the mutation fails as no row is found. The table stays.
    pub mutation_unpack-served :
        (broker : Broker) (contract : ContractUnpackRequest) (c c1 : S.SolContract)
        (files : S.Files) (t : Table) (sent back : List ℕ)
        → first
            (same_address contract.network_id (k.address_hex (k.hex_to_address contract.address)))
            t.rows
          ≡ none
        → broker.subscribe_sync (broker.correlation contract.network_id contract.address) ≡ none
        → broker.marshal (request_of lib k networks broker contract) ≡ some sent
        → broker.publish "contracts:unpack" sent ≡ none
        → broker.next_msg sent t ≡ served files (request_of lib k networks broker contract) t
        → chain.marshal_binary
            (record (request_of lib k networks broker contract) { resolved = true })
          ≡ Syncer.got back
        → broker.unmarshal back
          ≡ some (record (request_of lib k networks broker contract) { resolved = true })
        → chain.new_contract
            (chain.to_network contract.network_id)
            (k.hex_to_address contract.address)
          ≡ Syncer.got c
        → chain.discover_chain_info c ≡ Syncer.got c1
        → chain.publish (broker.correlation contract.network_id contract.address) back ≡ none
        → mutation_unpack lib k networks broker no_fault contract t
          ≡ (ret (wrong (resolve_failed no_rows)), t)
    unfolding mutation_unpack ask receive resolve_contract
    mutation_unpack-served broker contract c c1 files t sent back missing subscribed marshalled
          published answered_ marshalled' back_ made info acknowledged =
        let msg : broker.next_msg sent t ≡ (some back, t) =
          answered_
          ∙ served-resolves (request_of lib k networks broker contract) c c1 back files t made info
              marshalled' acknowledged in
        rw
          (
            mutation_unpack, ask, receive, resolve_contract, missing, subscribed, marshalled,
            published, msg, back_, missing,
          )
          refl
