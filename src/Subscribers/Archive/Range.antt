-- ===== src/Subscribers/Archive/Range.antt =====
-- The blocks that a run of the archive subscriber hands to its hooks.
use downloader.Base.{
  ℕ, zero, suc, ◌-◌, ◌≤◌, String, ◌≡◌, refl, ap, ◌∙◌, true, false, none, some, List, [], ◌∷◌, leb,
  is_some, Bool-cases, Option-cases, inl, inr, ret, arith,
}
use downloader.State.{archive_start_block_number, archive_end_block_number}
use downloader.State.Store.{Big}
use downloader.Cache.{Client}
use downloader.Subscribers.Blocks.{Subscriber, not_active, Chain, World, Hook, run_hooks, set_in}
use downloader.Subscribers.Archive.{
  start_set, end_set, ArchiveBlock, loop, start, first_block, consulted,
}

-- So many numbers from the given one on.
abbrev pub range : ℕ → ℕ → List ℕ
range zero i = []
range (suc n) i = i ∷ range n (suc i)

-- The numbers from the first to the last, both included.
abbrev pub numbers : ℕ → ℕ → List ℕ
numbers first last = range (suc last - first) first

numbers-nil : (i end : ℕ) → leb i end ≡ false → numbers i end ≡ []
numbers-nil i end h =
    let none_left : suc end - i ≡ 0 = ground (arith, h) in ap (λ n. range n i) none_left

numbers-cons : (i end : ℕ) → leb i end ≡ true → numbers i end ≡ i ∷ numbers (suc i) end
numbers-cons i end h =
    let more : suc end - i ≡ suc (suc end - suc i) = ground (arith, h) in ap (λ n. range n i) more

module _ {Block S W : Type 0} where
  -- A hook whose errors come with a block.
  abbrev pub IsMild : List (Hook Block S W) → Type 0
  IsMild [] = Unit {0}
  IsMild (hook ∷ hooks) =
      ((block : Block) (w : World S W) → is_some (hook block w).0.block ≡ true) × IsMild hooks

  -- Every hook in turn, on the same block.
  abbrev pub apply_hooks : List (Hook Block S W) → Block → World S W → World S W
  apply_hooks [] block w = w
  apply_hooks (hook ∷ hooks) block w = apply_hooks hooks block (hook block w).1

  pub run_hooks-IsMild :
      (hooks : List (Hook Block S W)) (block : Block) (w : World S W)
      → IsMild hooks
      → run_hooks hooks block w ≡ ret (apply_hooks hooks block w)
  unfolding run_hooks
  run_hooks-IsMild [] block w m = refl
  run_hooks-IsMild (hook ∷ hooks) block w m = elim (Option-cases (hook block w).0.error) [
    | inl e ↦ rw (run_hooks, e) (run_hooks-IsMild hooks block (hook block w).1 m.1)
    | inr (x, e) ↦ elim (Option-cases (hook block w).0.block) [
      | inl k ↦ absurd (ground (arith, k, m.0 block w))
      | inr (b, k) ↦ rw (run_hooks, e, k) (run_hooks-IsMild hooks block (hook block w).1 m.1)
    ]
  ]

  module _ (chain : Chain Block) (hooks : List (Hook Block S W)) where
    -- The numbers in turn: the hooks on the block that the client returns, if it returns one.
    abbrev pub handle : List ℕ → World S W → World S W
    handle [] w = w
    handle (n ∷ ns) w = elim (chain.block_by_number n) [
      | none ↦ handle ns w
      | some block ↦ handle ns (apply_hooks hooks block w)
    ]

    -- The loop ends with the fuel of one round for each number from the first to the last, and hands
    -- the blocks of these numbers to the hooks, in order, where every error of a hook comes with a
    -- block.
    pub loop-handle :
        (fuel end i : ℕ) (w : World S W)
        → IsMild hooks
        → suc end - i ≤ fuel
        → loop chain hooks fuel end i w ≡ some (ret (handle (numbers i end) w))
    unfolding loop
    loop-handle zero end i w m enough =
        let out : leb i end ≡ false = ground (arith, enough) in
        rw (loop, out, numbers-nil i end out) refl
    loop-handle (suc fuel) end i w m enough = elim (Bool-cases (leb i end)) [
      | inr out ↦ rw (loop, out, numbers-nil i end out) refl
      | inl more ↦
          let rest : suc end - suc i ≤ fuel = ground (arith, more, enough) in
          elim (Option-cases (chain.block_by_number i)) [
            | inl e ↦
                rw (loop, more, numbers-cons i end more, handle, e)
                  (loop-handle fuel end (suc i) w m rest)
            | inr (block, e) ↦
                rw
                  (loop, more, numbers-cons i end more, handle, e, run_hooks-IsMild hooks block w m)
                  (loop-handle fuel end (suc i) (apply_hooks hooks block w) m rest)
          ]
    ]

module _ (big : Big) (client : Client) {Block W : Type 0} (chain : Chain Block)
    (hooks : List (Hook Block client.Server W)) (opts : Subscriber) where
  -- Where the subscriber is enabled, its network is known and has a client, both numbers are set
  -- without an error, the context is not done, the subscriber was not stopped, and every error of a
  -- hook comes with a block: the start ends with the fuel of one round for each number, without an
  -- error and not active, and the hooks had the blocks that the client returned for the numbers from
  -- the first to the last, in order. The first is the start or, on resumption, the latest block that
  -- was inspected, if that is not before the start.
  pub start-handle :
      (fuel : ℕ) (network : String) (b : ArchiveBlock client.Server W)
      (w1 w2 : World client.Server W)
      → opts.enabled ≡ true
      → chain.get_network_from_string opts.network ≡ some network
      → chain.has_client network ≡ true
      → set_in big client archive_start_block_number opts.start_block_number b.world ≡ (none, w1)
      → set_in big client archive_end_block_number opts.end_block_number w1 ≡ (none, w2)
      → b.done ≡ false
      → IsMild hooks
      → suc opts.end_block_number - first_block opts w2.descriptor ≤ fuel
      → start big client chain hooks opts fuel false b
        ≡ some (
            ret (
              none,
              record {
                status = not_active;
                done = false;
                world =
                    handle chain hooks
                      (numbers (first_block opts w2.descriptor) opts.end_block_number)
                      (consulted opts w2);
              },
            ))
  unfolding start
  start-handle fuel network b w1 w2 enabled known served set1 set2 open_ m enough =
      rw (start, enabled, known)
        (ap (start_set big client chain hooks opts fuel false network b) set1
          ∙ (ap (end_set big client chain hooks opts fuel false network b) set2
              ∙ rw
                  (
                    open_,
                    served,
                    loop-handle chain hooks fuel opts.end_block_number
                        (first_block opts w2.descriptor) (consulted opts w2) m enough,
                  )
                  (ap
                    (λ x. some (
                      ret (
                        none,
                        record {
                          status = not_active;
                          done = x;
                          world =
                              handle chain hooks
                                (numbers (first_block opts w2.descriptor) opts.end_block_number)
                                (consulted opts w2);
                        },
                      )))
                    open_)))
