-- ===== src/Subscribers/Tests.antt =====
-- A manager of one subscriber, and runs of the block subscribers.
use downloader.State.{archive_start_block_number, archive_end_block_number}
use downloader.State.Store.{set}
use downloader.State.Store.Samples.{client, big}
use downloader.Subscribers.Lifecycle.{subscribed}
use downloader.Subscribers.Groups.{Stopping, close, subscribe, wait, gives, waits}
use downloader.Subscribers.Blocks.{active, not_active, World, Hook, set_in}
use downloader.Subscribers.Archive.{ArchiveBlock, new_archive_block, consulted}
use downloader.Subscribers.Archive as Archive
use downloader.Subscribers.Archive.Range.{numbers, handle, start-handle}
use downloader.Subscribers.Head.{new_head, cancelled, returned, received_all, loop-stops}
use downloader.Subscribers.Head as Head
use downloader.Subscribers.Samples.{small_chain, opts, at_start}
use downloader.Base.{
  true, ◌≡◌, refl, ℕ, false, none, some, List, [], ◌∷◌, ◌++◌, nat_eq, if◌then◌else◌, ret, blocks,
  arith,
}
use downloader.Subscribers.{
  Manager, got, missing, not_found, already_exists, registers, returned, register, unregister, get,
}
use downloader.Subscribers.Names.{register_lem}
use downloader.Subscribers.Races.{interleave, register-races}

abbrev empty : Manager ℕ
empty = record { subs = [] }

abbrev one : Manager ℕ
one = record { subs = ("head", 1) ∷ [] }

register_lem_example :
    (get "head" one ≡ got 1)
    × (register "head" 2 one ≡ (some (already_exists "head"), one))
    × ((unregister "head" one).0 ≡ none)
    × (get "head" (unregister "head" one).1 ≡ missing (not_found "head"))
register_lem_example = register_lem "head" "head" 1 2 empty one (unfold register in refl)

register-races_example :
    let (end, end', m') = interleave (registers "head" 1) (registers "head" 2) empty in
    (end ≡ returned none) × (end' ≡ returned none) × (get "head" m' ≡ got 2)
register-races_example = register-races "head" 1 2 empty refl

-- A hook that writes down the blocks that it gets, and finds fault with block 5.
abbrev note_block : Hook ℕ client.Server (List ℕ)
note_block block w = (
  record { block = some block; error = if nat_eq block 5 then some "bad block" else none },
  record w { outside = w.outside ++ block ∷ [] },
)

abbrev idle : ArchiveBlock client.Server (List ℕ)
idle = new_archive_block (at_start [])

abbrev first_set : World client.Server (List ℕ)
first_set = (set_in big client archive_start_block_number 5 idle.world).1

abbrev both_set : World client.Server (List ℕ)
both_set = (set_in big client archive_end_block_number 7 first_set).1

handled_blocks :
    ◌≡◌ {A = List ℕ}
      (handle small_chain (note_block ∷ []) (numbers 5 7) (at_start [])).outside
      (5 ∷ 7 ∷ [])
handled_blocks = refl

start-handle_example :
    Archive.start big client small_chain (note_block ∷ []) opts 3 false idle
    ≡ some (
        ret (
          none,
          record {
            status = not_active;
            done = false;
            world = handle small_chain (note_block ∷ []) (numbers 5 7) (consulted opts both_set);
          },
        ))
unfolding set
start-handle_example =
    start-handle big client small_chain (note_block ∷ []) opts 3 "ethereum" idle first_set both_set
      refl refl refl refl refl refl ((λ block w. refl), tt) (omega arith)

loop-stops_example :
    Head.loop big client small_chain
      (note_block ∷ [])
      (new_head 5 ∷ new_head 8 ∷ cancelled ∷ new_head 9 ∷ [])
      (at_start [])
    ≡ ret (
        returned none
          (received_all big client small_chain (note_block ∷ []) (5 ∷ 8 ∷ []) (at_start [])))
loop-stops_example =
    loop-stops big client small_chain (note_block ∷ []) (5 ∷ 8 ∷ []) none (new_head 9 ∷ [])
      (at_start []) ((λ block w. refl), tt)

abbrev stopping : Stopping ℕ
stopping = record { status = λ n. active; stop = λ n. none }

close_waits : close stopping false one ≡ blocks
unfolding close
close_waits = refl

-- A subscriber does not start where the context is done.
subscribe_cancelled :
    subscribe (λ n. gives none) (λ n. false) true [] one ≡ ret (some "context canceled")
unfolding subscribe subscribed wait
subscribe_cancelled = refl

-- And it runs on where another one has failed after it started.
subscribe_waits : subscribe (λ n. waits none) (λ n. false) false [] one ≡ blocks
unfolding subscribe subscribed wait
subscribe_waits = refl
