-- ===== src/Syncer/Blocks/Resumption.antt =====
-- What a resumption of the archive makes of the order in which the goroutines finish.
use downloader.Base.{
  ℕ, zero, suc, ◌≤◌, ◌<◌, ◌≡◌, refl, sym, ap, true, false, some, none, any, nat_eq, arith,
}
use downloader.State.{Descriptor, latest_inspected_archive_block}
use downloader.State.Store.{Big, IsBig, set, load}
use downloader.State.Store.Recovery.{fresh, Reaches, sets, load-Reaches}
use downloader.State.Store.Sets.{set-parts}
use downloader.Cache.{Client, IsStoring}
use downloader.Subscribers.Blocks.{Subscriber}
use downloader.Subscribers.Archive.{first_block}
use downloader.Subscribers.Archive.Range.{range, numbers}

range-below : (count i n : ℕ) → n < i → any (nat_eq n) (range count i) ≡ false
range-below zero i n h = refl
range-below (suc count) i n h = ground (arith, range-below count (suc i) n)

latest-set :
    (big : Big) (client : Client) (m : ℕ) (d d' : Descriptor) (s s' : client.Server)
    → set big client latest_inspected_archive_block m d s ≡ (none, (d', s'))
    → d'.latest_inspected_archive_block_number ≡ some m
unfolding downloader.State.set_descriptor_key
latest-set big client m d d' s s' e = sym (
    ap (λ x. x.latest_inspected_archive_block_number)
      (set-parts big client latest_inspected_archive_block m d d' s s' e).1)

-- A process has loaded its state, has set numbers, and has set the number of a block at or after the
-- start of the archive as the latest one, as the goroutine of the block does when it finishes; no call
-- failed, and the cache stores what it is given. A new process that loads its state then resumes the
-- archive at that block, where the options say that it is resumed, and goes over no block before it:
-- whether the goroutines of these had finished, had failed or never ran.
pub load-first_block :
    (big : Big) (client : Client) (opts : Subscriber) (m n : ℕ) (d d' : Descriptor)
    (s s' : client.Server)
    → IsBig big
    → IsStoring client
    → Reaches big client d s
    → set big client latest_inspected_archive_block m d s ≡ (none, (d', s'))
    → opts.resumption ≡ true
    → opts.start_block_number ≤ m
    → n < m
    → (d'' : Descriptor) × (load big client fresh s' ≡ (none, d''))
      × (first_block opts d'' ≡ m)
      × (any (nat_eq n) (numbers (first_block opts d'') opts.end_block_number) ≡ false)
load-first_block big client opts m n d d' s s' b st r e resumes late before =
    let d'' : Descriptor = record d' { percentage_completed = none } in
    let first : first_block opts d'' ≡ m =
      ground (arith, latest-set big client m d d' s s' e, resumes) in
    (
      d'',
      load-Reaches big client d' s' b st (sets latest_inspected_archive_block m r e),
      first,
      range-below _ (first_block opts d'') n (ground (arith, first)),
    )
