-- ===== src/Syncer/Delivery.antt =====
-- What reaches the storage of an entry of the chain, and of an event.
use downloader.Base.{
  List, [], ◌∷◌, ℕ, ◌≡◌, refl, ap, ◌∙◌, ◌>>=◌, Bool, true, false, not, ◌&&◌, Option, none, some,
  Outcome, ret, is_some,
}
use downloader.Models.{Contract}
use downloader.Unpacker.States.{discover_state, error_state}
use downloader.Unpacker.Descriptor.{Header}
use downloader.Unpacker.Library.{Solgo, Store, Config}
use downloader.Unpacker.Entry.{Job}
use downloader.Unpacker.Discover.{is_done}
use downloader.Unpacker.Flow.{IsCalm}
use downloader.Unpacker.Flow.Opening.{IsFetched, answer}
use downloader.Unpacker.Assembly.{at, Sm, unpack}
use downloader.Unpacker.Runs.{IsUnpacked, unpack-visits, unpack-swallows}
use downloader.Syncer.{
  got, Chain, Entry, Unpack, Reply, replied, has_chain_info, get_descriptor, recovering, result,
  Message, locate, run_unpack, unpack_from_entry, entry_of, acknowledge, unpacker_interceptor,
}

module _ (S : Solgo) (W : Store) (cfg : Config) (chain : Chain S.SolContract) (done : ℕ → Bool)
    (never : (n : ℕ) → done n ≡ false) where
  abbrev pub start : Entry → S.SolContract → W.Db → S.Files → Job S W
  start e c db files = record { descriptor = get_descriptor e c; db = db; files = files }

  -- What the chain knows of a contract is enough to unpack it: the code at the address, and its
  -- header, transaction and receipt.
  pub record IsKnown (e : Entry) (c1 : S.SolContract) (h : Header) : Type 0 where
    pub made : S.SolContract
    pub new_contract_is : chain.new_contract e.network e.contract_addr ≡ got made
    pub chain_info_is : chain.discover_chain_info made ≡ got c1
    pub block_is : chain.get_block c1 ≡ some h
    pub has_tx : is_some (chain.get_transaction c1) ≡ true
    pub has_receipt : is_some (chain.get_receipt c1) ≡ true

  -- The entry with what the chain knows.
  abbrev pub filled : Entry → S.SolContract → Entry
  filled e c1 = record e {
    header = chain.get_block c1;
    tx = chain.get_transaction c1;
    receipt = chain.get_receipt c1;
  }

  locate_known :
      (e : Entry) (c1 : S.SolContract) (h : Header)
      → IsKnown e c1 h
      → has_chain_info e ≡ false
      → locate S W cfg chain e ≡ got (filled e c1, c1)
  unfolding locate
  locate_known e c1 h k lacks = rw (k.new_contract_is, lacks, k.chain_info_is, locate) refl

  start-IsFetched :
      (e : Entry) (c1 : S.SolContract) (h : Header) (found : Option Contract) (db : W.Db)
      (files : S.Files)
      → IsKnown e c1 h
      → W.get_contract_by_unique_index e.network_id h.number e.contract_addr db ≡ answer found
      → IsFetched S W cfg (start (filled e c1) c1 db files) h found
  unfolding get_descriptor
  start-IsFetched e c1 h found db files k a = record {
    header_is = k.block_is;
    has_tx = k.has_tx;
    has_receipt = k.has_receipt;
    has_contract = refl;
    not_directed = refl;
    answered = a;
  }

  pub from_located :
      (fuel : ℕ) (e e1 : Entry) (c : S.SolContract) (db : W.Db) (files : S.Files)
      → locate S W cfg chain e ≡ got (e1, c)
      → unpack_from_entry S W cfg chain fuel done e discover_state db files
        ≡ run_unpack S W cfg chain fuel done discover_state e1 (start e1 c db files)
  unfolding unpack_from_entry
  from_located fuel e e1 c db files l = rw (l, unpack_from_entry) refl

  pub run_unpack_lem :
      (fuel : ℕ) (e : Entry) (j : Job S W) (sm : Sm S W cfg)
      → unpack S W cfg fuel done discover_state j ≡ some (ret (none, sm))
      → run_unpack S W cfg chain fuel done discover_state e j ≡ some (ret (replied none sm.carried))
  run_unpack_lem fuel e j sm r =
      ap (λ o. elim o [ none ↦ none | some r ↦ some (recovering e (result S W cfg chain r)) ]) r

  -- An entry without its chain information, of a contract that the chain knows and that is not
  -- completed in the storage: where the library returns and the context is not done, seven rounds
  -- unpack it, and the call returns its descriptor without an error.
  pub unpack_from_entry-visits :
      (calm : IsCalm S) (e : Entry) (c1 : S.SolContract) (h : Header) (found : Option Contract)
      (db : W.Db) (files : S.Files)
      → IsKnown e c1 h
      → has_chain_info e ≡ false
      → W.get_contract_by_unique_index e.network_id h.number e.contract_addr db ≡ answer found
      → (is_done found && not cfg.force_reprocess) ≡ false
      → (j' : Job S W) × IsUnpacked S W cfg done never calm found h
          (start (filled e c1) c1 db files)
          j'
        × (unpack_from_entry S W cfg chain 7 done e discover_state db files
            ≡ some (ret (replied none j')))
  unfolding unpack_from_entry
  unpack_from_entry-visits calm e c1 h found db files k lacks a open_ =
      let (j', u, r) =
        unpack-visits S W cfg done never calm (start (filled e c1) c1 db files) h found
          (start-IsFetched e c1 h found db files k a) open_ in
      (
        j',
        u,
        from_located 7 e (filled e c1) c1 db files (locate_known e c1 h k lacks)
            ∙ run_unpack_lem 7 (filled e c1) (start (filled e c1) c1 db files) _ r,
      )

  -- The reply to an event, when the run is over.
  abbrev deliver :
      Unpack
      → Option (Outcome (Reply (Job S W)))
      → Option (Outcome (Reply (Job S W) × Unpack × List Message))
  deliver event o = elim o [
    | none ↦ none
    | some r ↦ some (do reply ← r; ret (acknowledge S W cfg chain event reply))
  ]

  -- An event of a contract that the chain knows is resolved, and a message that says so goes out under
  -- its correlation id, where it can be written and published; although nothing was unpacked: its entry
  -- has no chain information, so that the run ends in the error state of the machine, and returns no
  -- error. The context is not done; the storage and the files are as before, and the descriptor is that
  -- of the entry, not processed.
  pub unpacker_interceptor-resolves :
      (event : Unpack) (c c1 : S.SolContract) (data_bytes : List ℕ) (db : W.Db) (files : S.Files)
      → chain.new_contract (chain.to_network event.network_id) event.address ≡ got c
      → chain.discover_chain_info c ≡ got c1
      → chain.marshal_binary (record event { resolved = true }) ≡ got data_bytes
      → chain.publish event.correlation_id data_bytes ≡ none
      → let j : Job S W = start (entry_of S W cfg chain event) c1 db files in
        (unpacker_interceptor S W cfg chain 1 done event db files
          ≡ some (
              ret (
                replied none j,
                record event { resolved = true },
                record { subject = event.correlation_id; data_bytes = data_bytes } ∷ [],
              )))
        × (unpack S W cfg 1 done discover_state j
            ≡ some (ret (none, at S W cfg error_state j (discover_state ∷ error_state ∷ []))))
        × (j.descriptor.processed ≡ false)
  unfolding unpacker_interceptor
  unpacker_interceptor-resolves event c c1 data_bytes db files made info written published =
      let e : Entry = entry_of S W cfg chain event in
      let j : Job S W = start e c1 db files in
      let swallowed = unpack-swallows S W cfg done never j (unfold get_descriptor in refl) in
      let run = run_unpack_lem 1 e j _ swallowed in
      (
        rw (made, info, unpacker_interceptor)
            (ap (deliver event) run ∙ rw (acknowledge, written, published) refl),
        swallowed,
        unfold get_descriptor in refl,
      )
