-- ===== src/Subscribers/Archive.antt =====
-- pkg/subscribers/blocks_archive.go: the subscriber of a range of blocks.
pub mod Range
use downloader.Base.{
  ℕ, zero, suc, String, Bool, true, false, not, Option, none, some, List, leb, if◌then◌else◌,
  Outcome, ret, blocks, panics,
}
use downloader.State.{Descriptor, descriptor, archive_start_block_number, archive_end_block_number}
use downloader.State as State
use downloader.State.Store.{Big}
use downloader.Cache.{Client}
use downloader.Subscribers.Blocks.{
  Subscriber, Status, active, not_active, Chain, World, Hook, run_hooks, set_in,
}

pub data Error : Type 0 where
  unsupported_network : String → Error
  start_not_set end_not_set : State.Error → Error
  no_client : String → Error

-- The state of a subscriber: its status, and whether `Stop` closed its channel.
pub record ArchiveBlock (S W : Type 0) : Type 0 where
  pub status : Status
  pub done : Bool
  pub world : World S W

-- `new`: what `NewArchiveBlock` makes of the state, since its options always validate.
abbrev pub new_archive_block : {S W : Type 0} → World S W → ArchiveBlock S W
new_archive_block w = record { status = active; done = false; world = w }

-- `Stop`: closing a closed channel panics.
unfoldable pub stop : {S W : Type 0} → ArchiveBlock S W → Outcome (ArchiveBlock S W)
stop b = if b.done then panics else ret (record b { done = true })

-- Where the loop starts: at the latest block that is known to be inspected, if that is asked for.
abbrev pub first_block : Subscriber → Descriptor → ℕ
first_block opts d =
    if opts.resumption
    then elim d.latest_inspected_archive_block_number [
      | none ↦ opts.start_block_number
      | some latest ↦ if leb opts.start_block_number latest then latest else opts.start_block_number
    ]
    else opts.start_block_number

-- `Descriptor` sets the percentage, as a resumption asks for it.
abbrev pub consulted : {S W : Type 0} → Subscriber → World S W → World S W
consulted opts w = if opts.resumption then record w { descriptor = descriptor w.descriptor } else w

module _ {Block S W : Type 0} (chain : Chain Block) (hooks : List (Hook Block S W)) where
  open chain use {block_by_number}

  -- The loop over the numbers; `none` says that the fuel ran out.
  unfoldable pub loop : ℕ → ℕ → ℕ → World S W → Option (Outcome (World S W))
  unfolding run_hooks
  loop zero end i w = if leb i end then none else some (ret w)
  loop (suc fuel) end i w = elim (leb i end) [
    | false ↦ some (ret w)
    | true ↦ elim (block_by_number i) [
      | none ↦ loop fuel end (suc i) w
      | some block ↦ elim (run_hooks hooks block w) [
        | ret w' ↦ loop fuel end (suc i) w'
        | blocks ↦ some blocks
        | panics ↦ some panics
      ]
    ]
  ]

module _ (big : Big) (client : Client) {Block W : Type 0} (chain : Chain Block)
    (hooks : List (Hook Block client.Server W)) (opts : Subscriber) where
  open chain use {get_network_from_string, has_client}

  abbrev Replied : Type 0
  Replied = Option Error × ArchiveBlock client.Server W

  -- The deferred function resets the status when the loop is over.
  abbrev over : ArchiveBlock client.Server W → Outcome (World client.Server W) → Outcome Replied
  over b (ret w) = ret (none, record b { status = not_active; world = w })
  over b blocks = blocks
  over b panics = panics

  -- The default case of the select.
  abbrev pub run_loop : ℕ → String → ArchiveBlock client.Server W → Option (Outcome Replied)
  run_loop fuel network b =
      if not (has_client network)
      then some (ret (some (no_client network), b))
      else elim (loop chain hooks fuel opts.end_block_number (first_block opts b.world.descriptor)
          (consulted opts b.world)) [ none ↦ none | some o ↦ some (over b o) ]

  -- The select.
  abbrev pub select : ℕ → Bool → String → ArchiveBlock client.Server W → Option (Outcome Replied)
  select fuel cancelled network b =
      if cancelled
      then some (ret (none, b))
      else if b.done
      then some (ret (none, b))
      else run_loop fuel network b

  abbrev pub end_set :
      ℕ
      → Bool
      → String
      → ArchiveBlock client.Server W
      → Option State.Error × World client.Server W
      → Option (Outcome Replied)
  end_set fuel cancelled network b (some e, w) =
      some (ret (some (end_not_set e), record b { world = w }))
  end_set fuel cancelled network b (none, w) =
      select fuel cancelled network (record b { world = w })

  abbrev pub start_set :
      ℕ
      → Bool
      → String
      → ArchiveBlock client.Server W
      → Option State.Error × World client.Server W
      → Option (Outcome Replied)
  start_set fuel cancelled network b (some e, w) =
      some (ret (some (start_not_set e), record b { world = w }))
  start_set fuel cancelled network b (none, w) =
      end_set fuel cancelled network b
        (set_in big client archive_end_block_number opts.end_block_number w)

  -- `Start`, in a context that is done or not; the status is active while the loop runs.
  unfoldable pub start : ℕ → Bool → ArchiveBlock client.Server W → Option (Outcome Replied)
  unfolding loop
  start fuel cancelled b =
      if not opts.enabled
      then some (ret (none, b))
      else elim (get_network_from_string opts.network) [
        | none ↦ some (ret (some (unsupported_network opts.network), b))
        | some network ↦
            start_set fuel cancelled network b
              (set_in big client archive_start_block_number opts.start_block_number b.world)
      ]
