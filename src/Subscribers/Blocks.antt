-- ===== src/Subscribers/Blocks.antt =====
-- What the block subscribers of pkg/subscribers share: the options of a subscriber
-- (pkg/options/syncer.go), its status, the clients of the chain and the hooks on a block.
use downloader.Base.{ℕ, String, Bool, Option, none, some, List, [], ◌∷◌, Outcome, ret, panics}
use downloader.State.{Descriptor, Error, Key}
use downloader.State.Store.{Big, set}
use downloader.Cache.{Client}

pub record Subscriber : Type 0 where
  pub enabled : Bool
  pub network : String
  pub resumption : Bool
  pub subject_name : String
  pub type : String
  pub start_block_number : ℕ
  pub end_block_number : ℕ

pub data Status : Type 0 where
  active : Status
  not_active : Status

-- `GetNetworkFromString`, whether the pool has a client of a network, and what that client returns for
-- a number, or for the head; `none` is an error.
pub record Chain (Block : Type 0) : Type 0 where
  pub get_network_from_string : String → Option String
  pub has_client : String → Bool
  pub block_by_number : ℕ → Option Block
  pub head : Option Block
  pub number : Block → ℕ

-- The synchronization state, with its cache, and whatever else hooks act on.
pub record World (S W : Type 0) : Type 0 where
  pub descriptor : Descriptor
  pub server : S
  pub outside : W

-- A hook's block, which may be nil, and its error.
pub record Hooked (Block : Type 0) : Type 0 where
  pub block : Option Block
  pub error : Option String

abbrev pub Hook : Type 0 → Type 0 → Type 0 → Type 0
Hook Block S W = Block → World S W → Hooked Block × World S W

module _ {Block S W : Type 0} where
  -- The loop over the hooks. Each gets the block that the client returned; an error is logged with the
  -- number of the block that came with it.
  unfoldable pub run_hooks : List (Hook Block S W) → Block → World S W → Outcome (World S W)
  run_hooks [] block w = ret w
  run_hooks (hook ∷ hooks) block w =
      let (h, w') = hook block w in
      elim h.error [
        | none ↦ run_hooks hooks block w'
        | some e ↦ elim h.block [ none ↦ panics | some _ ↦ run_hooks hooks block w' ]
      ]

module _ (big : Big) (client : Client) {W : Type 0} where
  -- `state.Set`.
  abbrev pub set_in : Key → ℕ → World client.Server W → Option Error × World client.Server W
  set_in key n w =
      let (e, (d, s)) = set big client key n w.descriptor w.server in
      (e, record w { descriptor = d; server = s })
