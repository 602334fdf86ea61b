-- ===== src/Syncer/Blocks/Goroutine.antt =====
-- The goroutine of a deployment that the chain has a receipt of.
use downloader.Base.{
  ℕ, String, ◌≡◌, refl, ap, ◌∙◌, Bool, true, false, not, ◌&&◌, Option, none, some, is_some, ret,
  Bool-cases, inl, inr, ◌==◌, if◌then◌else◌, arith,
}
use downloader.Models.{Contract}
use downloader.State.{
  Key, Error, unknown_head_block, Descriptor, set_descriptor_key, get_head_block_key_by_direction,
  latest_inspected_head_block, latest_inspected_archive_block,
}
use downloader.State.Store.{Big, set, written}
use downloader.Cache.{Client, write}
use downloader.Unpacker.States.{discover_state}
use downloader.Unpacker.Descriptor.{Header, Transaction, Receipt}
use downloader.Unpacker.Library.{Solgo, Store, Config}
use downloader.Unpacker.Entry.{Job}
use downloader.Unpacker.Discover.{is_done}
use downloader.Unpacker.Flow.{IsCalm}
use downloader.Unpacker.Flow.Opening.{IsFetched, answer}
use downloader.Unpacker.Runs.{IsUnpacked, unpack-run}
use downloader.Syncer.{
  got, Chain, Entry, has_chain_info, replied, get_descriptor, locate, unpack_from_entry,
}
use downloader.Syncer.Delivery.{start, from_located, run_unpack_lem}
use downloader.Syncer.Blocks.{Ethereum, Shared, mark, process_entry}

-- The entry with its receipt, and the contract that is told of all three.
abbrev pub with_receipt : Entry → Receipt → Entry
with_receipt e r = record e { receipt = some r; contract_addr = r.contract_address }

abbrev pub informed : {C : Type 0} → Chain C → Entry → C → C
informed chain e c =
    chain.set_receipt e.receipt (chain.set_transaction e.tx (chain.set_block e.header c))

module _ (S : Solgo) (W : Store) (cfg : Config) (chain : Chain S.SolContract) (big : Big)
    (client : Client) {Block : Type 0} (eth : Ethereum Block) (done : ℕ → Bool)
    (never : (n : ℕ) → done n ≡ false) (calm : IsCalm S) where
  locate_complete :
      (e : Entry) (h : Header) (tx : Transaction) (r : Receipt) (c : S.SolContract)
      → e.header ≡ some h
      → e.tx ≡ some tx
      → chain.new_contract e.network r.contract_address ≡ got c
      → locate S W cfg chain (with_receipt e r)
        ≡ got (with_receipt e r, informed chain (with_receipt e r) c)
  unfolding locate
  locate_complete e h tx r c eh et made =
      let known : has_chain_info (with_receipt e r) ≡ true = ground (arith, eh, et) in
      rw (locate, made, known) refl

  fetched :
      (e : Entry) (h : Header) (tx : Transaction) (r : Receipt) (c : S.SolContract)
      (found : Option Contract) (db : W.Db) (files : S.Files)
      → e.header ≡ some h
      → e.tx ≡ some tx
      → W.get_contract_by_unique_index e.network_id h.number r.contract_address db ≡ answer found
      → IsFetched S W cfg (start S W cfg chain done never (with_receipt e r) c db files) h found
  unfolding get_descriptor
  fetched e h tx r c found db files eh et a = record {
    header_is = eh;
    has_tx = ap is_some et;
    has_receipt = refl;
    has_contract = refl;
    not_directed = refl;
    answered = a;
  }

  -- The number is the latest of the direction, in the descriptor and, if the cache takes it, there.
  pub record Marks (direction : String) (n : ℕ) (g g' : Shared client.Server W.Db S.Files)
      : Type 0 where
    pub descriptor_is : g'.descriptor ≡ (
        if direction == "head"
        then record (g.descriptor) { latest_inspected_head_block_number = some n }
        else if direction == "archive"
        then record (g.descriptor) { latest_inspected_archive_block_number = some n }
        else g.descriptor)
    pub server_is : g'.server ≡ (
        if direction == "head"
        then (client.set_key latest_inspected_head_block (big.bytes n) g.server).1
        else if direction == "archive"
        then (client.set_key latest_inspected_archive_block (big.bytes n) g.server).1
        else g.server)

  written-parts : (d : Descriptor) (r : Option String × client.Server) → (written d r).1 ≡ (d, r.1)
  written-parts d (none, s) = refl
  written-parts d (some e, s) = refl

  set-left :
      (key : Key) (n : ℕ) (d d' : Descriptor) (s : client.Server)
      → set_descriptor_key key n d ≡ (none, d')
      → (set big client key n d s).1 ≡ (d', (client.set_key key (big.bytes n) s).1)
  unfolding set write
  set-left key n d d' s h =
      ap
        (λ (r : Option Error × Descriptor).
          (elim r.0 as (λ _. Option Error × (Descriptor × client.Server)) [
            | some e ↦ (some e, (r.1, s))
            | none ↦ written r.1 (client.set_key key (big.bytes n) s)
          ]).1)
        h
      ∙ written-parts d' (client.set_key key (big.bytes n) s)

  -- What `mark` leaves, where the direction has this key.
  marked :
      (direction : String) (n : ℕ) (g : Shared client.Server W.Db S.Files) (key : Key)
      (d' : Descriptor) (s' : client.Server)
      → (get_head_block_key_by_direction direction).0 ≡ key
      → (set big client key n g.descriptor g.server).1 ≡ (d', s')
      → ((mark S W cfg chain big client eth direction n g).descriptor ≡ d')
        × ((mark S W cfg chain big client eth direction n g).server ≡ s')
  marked direction n g key d' s' at leaves =
      let all : (set big client (get_head_block_key_by_direction direction).0 n g.descriptor
            g.server).1
          ≡ (d', s') =
        ap (λ k. (set big client k n g.descriptor g.server).1) at ∙ leaves in
      (ap (λ x. x.0) all, ap (λ x. x.1) all)

  unknown_set :
      (n : ℕ) (d : Descriptor) (s : client.Server)
      → (set big client unknown_head_block n d s).1 ≡ (d, s)
  unfolding set set_descriptor_key
  unknown_set n d s = refl

  mark-Marks :
      (direction : String) (n : ℕ) (g : Shared client.Server W.Db S.Files)
      → Marks direction n g (mark S W cfg chain big client eth direction n g)
  mark-Marks direction n g = elim (Bool-cases (direction == "head")) [
    | inl head ↦
        let (d, s) =
          marked direction n g latest_inspected_head_block
            (record (g.descriptor) { latest_inspected_head_block_number = some n })
            (client.set_key latest_inspected_head_block (big.bytes n) g.server).1
            (unfold get_head_block_key_by_direction in rw head refl)
            (set-left latest_inspected_head_block n g.descriptor
              (record (g.descriptor) { latest_inspected_head_block_number = some n }) g.server
              (unfold set_descriptor_key in refl)) in
        record { descriptor_is = d ∙ rw head refl; server_is = s ∙ rw head refl }
    | inr no_head ↦ elim (Bool-cases (direction == "archive")) [
      | inl archive ↦
          let (d, s) =
            marked direction n g latest_inspected_archive_block
              (record (g.descriptor) { latest_inspected_archive_block_number = some n })
              (client.set_key latest_inspected_archive_block (big.bytes n) g.server).1
              (unfold get_head_block_key_by_direction in rw (no_head, archive) refl)
              (set-left latest_inspected_archive_block n g.descriptor
                (record (g.descriptor) { latest_inspected_archive_block_number = some n }) g.server
                (unfold set_descriptor_key in refl)) in
          record {
            descriptor_is = d ∙ rw (no_head, archive) refl;
            server_is = s ∙ rw (no_head, archive) refl;
          }
      | inr other ↦
          let (d, s) =
            marked direction n g unknown_head_block g.descriptor g.server
              (unfold get_head_block_key_by_direction in rw (no_head, other) refl)
              (unknown_set n g.descriptor g.server) in
          record {
            descriptor_is = d ∙ rw (no_head, other) refl;
            server_is = s ∙ rw (no_head, other) refl;
          }
    ]
  ]

  -- The goroutine of an entry with its header and its transaction, where the client has the receipt, the
  -- chain knows the contract, the storage has not completed it, the library returns and the context is
  -- not done: the contract is unpacked; the number of the entry's header is the latest one of the
  -- direction in the descriptor, and went to the cache under the direction's key; and the storage and
  -- the files are those that the run leaves.
  pub process_entry-visits :
      (direction : String) (e : Entry) (h : Header) (tx : Transaction) (r : Receipt)
      (c : S.SolContract) (found : Option Contract) (g : Shared client.Server W.Db S.Files)
      → e.header ≡ some h
      → e.tx ≡ some tx
      → eth.transaction_receipt tx ≡ got r
      → chain.new_contract e.network r.contract_address ≡ got c
      → W.get_contract_by_unique_index e.network_id h.number r.contract_address g.db ≡ answer found
      → (is_done found && not cfg.force_reprocess) ≡ false
      → (j' : Job S W) × (g' : Shared client.Server W.Db S.Files) × IsUnpacked S W cfg done never
          calm found h
          (start S W cfg chain done never
            (with_receipt e r)
            (informed chain (with_receipt e r) c)
            g.db
            g.files)
          j'
        × Marks direction h.number g g'
        × (g'.db ≡ j'.db)
        × (g'.files ≡ j'.files)
        × (process_entry S W cfg chain big client eth 7 done direction e tx g ≡ some (ret g'))
  unfolding process_entry
  process_entry-visits direction e h tx r c found g eh et received made a open_ =
      let e1 = with_receipt e r in
      let c1 = informed chain e1 c in
      let j : Job S W = start S W cfg chain done never e1 c1 g.db g.files in
      let (j', u, p, run) =
        unpack-run S W cfg done never calm j h found
          (fetched e h tx r c1 found g.db g.files eh et a) open_ in
      let reply : unpack_from_entry S W cfg chain 7 done e1 discover_state g.db g.files
          ≡ some (ret (replied none j')) =
        from_located S W cfg chain done never 7 e1 e1 c1 g.db g.files
          (locate_complete e h tx r c eh et made)
        ∙ run_unpack_lem S W cfg chain done never 7 e1 j _ run in
      let left : Shared client.Server W.Db S.Files = record g { db = j'.db; files = j'.files } in
      let m = mark-Marks direction h.number left in
      (
        j',
        mark S W cfg chain big client eth direction h.number left,
        u,
        record { descriptor_is = m.descriptor_is; server_is = m.server_is },
        refl,
        refl,
        rw (process_entry, received, reply, u.2) refl,
      )
