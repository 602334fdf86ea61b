-- ===== src/Subscribers/Head.antt =====
-- pkg/subscribers/blocks_head.go: the subscriber of new heads. What the select receives is a list of
-- events.
use downloader.Base.{
  ℕ, String, ◌≡◌, refl, not, Option, none, some, List, [], ◌∷◌, ◌++◌, map, if◌then◌else◌,
  Option-cases, inl, inr, Outcome, ret, ◌>>=◌,
}
use downloader.State.{current_block_head}
use downloader.State as State
use downloader.State.Store.{Big}
use downloader.Cache.{Client}
use downloader.Subscribers.Blocks.{Subscriber, Chain, World, Hook, run_hooks, set_in}
use downloader.Subscribers.Archive.Range.{IsMild, apply_hooks, run_hooks-IsMild}

pub data Event : Type 0 where
  cancelled : Event
  subscription_failed : Option String → Event
  new_head : ℕ → Event

pub data Error : Type 0 where
  unsupported_network : String → Error
  no_client : String → Error
  no_head : Error
  head_not_set : State.Error → Error
  not_subscribed : String → Error
  subscription_error : String → Error

-- A start that returned, or that waits for the next event.
pub data Progress (S W : Type 0) : Type 0 where
  returned : Option Error → World S W → Progress S W
  waits : World S W → Progress S W

module _ (big : Big) (client : Client) {Block W : Type 0} (chain : Chain Block)
    (hooks : List (Hook Block client.Server W)) where
  -- A new head: its block is fetched, its number is set, and the hooks run; an error ends the round.
  abbrev pub receive : ℕ → World client.Server W → Outcome (World client.Server W)
  receive n w = elim (chain.block_by_number n) [
    | none ↦ ret w
    | some block ↦
        let (e, w') = set_in big client current_block_head (chain.number block) w in
        elim e [ some _ ↦ ret w' | none ↦ run_hooks hooks block w' ]
  ]

  abbrev error_of : Option String → Option Error
  error_of none = none
  error_of (some e) = some (subscription_error e)

  unfoldable pub loop : List Event → World client.Server W → Outcome (Progress client.Server W)
  unfolding run_hooks
  loop [] w = ret (waits w)
  loop (cancelled ∷ events) w = ret (returned none w)
  loop (subscription_failed e ∷ events) w = ret (returned (error_of e) w)
  loop (new_head n ∷ events) w = do w' ← receive n w; loop events w'

  abbrev subscribed :
      List Event → Option String → World client.Server W → Outcome (Progress client.Server W)
  subscribed events (some e) w = ret (returned (some (not_subscribed e)) w)
  subscribed events none w = loop events w

  -- `Start`, with what `SubscribeNewHead` answers and what then happens.
  unfoldable pub start :
      Subscriber
      → Option String
      → List Event
      → World client.Server W
      → Outcome (Progress client.Server W)
  unfolding loop
  start opts subscription events w =
      if not opts.enabled
      then ret (returned none w)
      else elim (chain.get_network_from_string opts.network) [
        | none ↦ ret (returned (some (unsupported_network opts.network)) w)
        | some network ↦
            if not (chain.has_client network)
            then ret (returned (some (no_client network)) w)
            else elim chain.head [
              | none ↦ ret (returned (some no_head) w)
              | some block ↦
                  let (e, w') = set_in big client current_block_head (chain.number block) w in
                  elim e [
                    | some x ↦ ret (returned (some (head_not_set x)) w')
                    | none ↦ subscribed events subscription w'
                  ]
            ]
      ]

  -- What a new head does where the hooks' errors come with a block.
  abbrev pub received : ℕ → World client.Server W → World client.Server W
  received n w = elim (chain.block_by_number n) [
    | none ↦ w
    | some block ↦
        let (e, w') = set_in big client current_block_head (chain.number block) w in
        elim e [ some _ ↦ w' | none ↦ apply_hooks hooks block w' ]
  ]

  abbrev pub received_all : List ℕ → World client.Server W → World client.Server W
  received_all [] w = w
  received_all (n ∷ ns) w = received_all ns (received n w)

  pub receive-received :
      (n : ℕ) (w : World client.Server W) → IsMild hooks → receive n w ≡ ret (received n w)
  receive-received n w m = elim (Option-cases (chain.block_by_number n)) [
    | inl e ↦ rw (receive, received, e) refl
    | inr (block, e) ↦
        elim (Option-cases (set_in big client current_block_head (chain.number block) w).0) [
          | inl k ↦ rw (receive, received, e, k) (run_hooks-IsMild hooks block _ m)
          | inr (x, k) ↦ rw (receive, received, e, k) refl
        ]
  ]

  -- Where the errors of the hooks come with a block, the loop receives new heads, in order, until the
  -- context is done or the subscription fails: then it returns, whatever else would come.
  pub loop-stops :
      (ns : List ℕ) (o : Option (Option String)) (rest : List Event) (w : World client.Server W)
      → IsMild hooks
      → loop
          (map new_head ns ++ elim o [ none ↦ cancelled | some e ↦ subscription_failed e ] ∷ rest)
          w
        ≡ ret (returned (elim o [ none ↦ none | some e ↦ error_of e ]) (received_all ns w))
  unfolding loop
  loop-stops [] none rest w m = refl
  loop-stops [] (some e) rest w m = refl
  loop-stops (n ∷ ns) o rest w m =
      rw (loop, receive-received n w m) (loop-stops ns o rest (received n w) m)
