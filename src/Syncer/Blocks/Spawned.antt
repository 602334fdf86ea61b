-- ===== src/Syncer/Blocks/Spawned.antt =====
-- The goroutines that the archive's blocks start.
use mathlib.Core.List.{append-nil, append_assoc}
use downloader.Base.{
  ℕ, suc, ◌-◌, ◌≤◌, String, ◌≡◌, refl, sym, ap, ◌∙◌, true, false, none, some, List, [], ◌∷◌, ◌++◌,
  Option-cases, inl, inr, ret,
}
use downloader.State.{archive_start_block_number, archive_end_block_number}
use downloader.State.Store.{Big}
use downloader.Cache.{Client}
use downloader.Unpacker.Descriptor.{Transaction}
use downloader.Syncer.{Entry}
use downloader.Subscribers.Blocks.{Subscriber, not_active, Chain, World, set_in}
use downloader.Subscribers.Archive.{ArchiveBlock, start, first_block, consulted}
use downloader.Subscribers.Archive.Range.{numbers, IsMild, handle, start-handle}
use downloader.Syncer.Blocks.{Ethereum, entry_of_tx, intercept, block_interceptor}

module _ {Block : Type 0} (eth : Ethereum Block) (chain : Chain Block) (network : String)
    (network_id : ℕ) where
  -- The entries of the transactions that deploy a contract: these have a sender and no receiver.
  abbrev pub deployments : Block → List Transaction → List Entry
  deployments block [] = []
  deployments block (tx ∷ txs) = elim (eth.sender tx) [
    | none ↦ deployments block txs
    | some from ↦ elim (eth.to tx) [
      | some _ ↦ deployments block txs
      | none ↦
          entry_of_tx eth chain.has_client network network_id block from tx ∷ deployments block txs
    ]
  ]

  -- The deployments of the blocks that the client returns for the given numbers.
  abbrev pub deployed : List ℕ → List Entry
  deployed [] = []
  deployed (n ∷ ns) = elim (chain.block_by_number n) [
    | none ↦ deployed ns
    | some block ↦ deployments block (eth.transactions block) ++ deployed ns
  ]

  intercept-deployments :
      (block : Block) (txs : List Transaction) (started : List Entry)
      → chain.has_client network ≡ true
      → intercept eth chain.has_client network network_id block txs started
        ≡ (none, started ++ deployments block txs)
  unfolding intercept
  intercept-deployments block [] started c = ap (λ l. (none, l)) (sym (append-nil started))
  intercept-deployments block (tx ∷ txs) started c = elim (Option-cases (eth.sender tx)) [
    | inl e ↦ rw (intercept, deployments, e) (intercept-deployments block txs started c)
    | inr (from, e) ↦ elim (Option-cases (eth.to tx)) [
      | inr (x, k) ↦ rw (intercept, deployments, e, k) (intercept-deployments block txs started c)
      | inl k ↦
          let entry = entry_of_tx eth chain.has_client network network_id block from tx in
          rw (intercept, deployments, e, k, c)
            (intercept-deployments block txs (started ++ entry ∷ []) c
              ∙ ap (λ l. (none, l)) (append_assoc started (entry ∷ []) (deployments block txs)))
    ]
  ]

  module _ {S : Type 0} where
    block_interceptor-IsMild :
        IsMild {S = S} (block_interceptor eth chain.has_client network network_id ∷ [])
    unfolding block_interceptor
    block_interceptor-IsMild = ((λ block w. refl), tt)

    hooked :
        (block : Block) (w : World S (List Entry))
        → chain.has_client network ≡ true
        → (block_interceptor eth chain.has_client network network_id block w).1
          ≡ record w { outside = w.outside ++ deployments block (eth.transactions block) }
    unfolding block_interceptor
    hooked block w c =
        ap (λ r. record w { outside = r.1 })
          (intercept-deployments block (eth.transactions block) w.outside c)

    -- Whatever numbers the hook gets the blocks of, where the pool has a client of the network: it starts
    -- the goroutines of their deployments, in order, and changes nothing else.
    pub handle-deployed :
        (ns : List ℕ) (w : World S (List Entry))
        → chain.has_client network ≡ true
        → handle chain (block_interceptor eth chain.has_client network network_id ∷ []) ns w
          ≡ record w { outside = w.outside ++ deployed ns }
    handle-deployed [] w c = ap (λ l. record w { outside = l }) (sym (append-nil w.outside))
    handle-deployed (n ∷ ns) w c = elim (Option-cases (chain.block_by_number n)) [
      | inl e ↦ rw (handle, deployed, e) (handle-deployed ns w c)
      | inr (block, e) ↦
          let new : List Entry = deployments block (eth.transactions block) in
          rw (handle, deployed, e)
            (ap (handle chain (block_interceptor eth chain.has_client network network_id ∷ []) ns)
                (hooked block w c)
              ∙ (handle-deployed ns (record w { outside = w.outside ++ new }) c
                  ∙ ap (λ l. record w { outside = l }) (append_assoc w.outside new (deployed ns))))
    ]

-- A run of the archive subscriber with the block interceptor as its hook, under the conditions on which
-- the run ends: it returns without an error, and has started one goroutine for each transaction that
-- deploys a contract in the blocks from the first to the last that the client returned, in the order of
-- the chain, and none besides.
pub start-deployed :
    {Block : Type 0} (big : Big) (client : Client) (eth : Ethereum Block) (chain : Chain Block)
    (opts : Subscriber) (network : String) (network_id fuel : ℕ)
    (b : ArchiveBlock client.Server (List Entry)) (w1 w2 : World client.Server (List Entry))
    → opts.enabled ≡ true
    → chain.get_network_from_string opts.network ≡ some network
    → chain.has_client network ≡ true
    → set_in big client archive_start_block_number opts.start_block_number b.world ≡ (none, w1)
    → set_in big client archive_end_block_number opts.end_block_number w1 ≡ (none, w2)
    → b.done ≡ false
    → suc opts.end_block_number - first_block opts w2.descriptor ≤ fuel
    → start big client chain
        (block_interceptor eth chain.has_client network network_id ∷ [])
        opts
        fuel
        false
        b
      ≡ some (
          ret (
            none,
            record {
              status = not_active;
              done = false;
              world = record (consulted opts w2) {
                outside =
                    (consulted opts w2).outside
                    ++ deployed eth chain network network_id
                        (numbers (first_block opts w2.descriptor) opts.end_block_number);
              };
            },
          ))
start-deployed big client eth chain opts network network_id fuel b w1 w2 enabled known served set1
      set2 open_ enough =
    start-handle big client chain (block_interceptor eth chain.has_client network network_id ∷ [])
      opts fuel network b w1 w2 enabled known served set1 set2 open_
      (block_interceptor-IsMild eth chain network network_id) enough
    ∙ ap (λ w. some (ret (none, record { status = not_active; done = false; world = w })))
        (handle-deployed eth chain network network_id
          (numbers (first_block opts w2.descriptor) opts.end_block_number) (consulted opts w2)
          served)
