-- ===== src/Syncer/Turns/Schedules.antt =====
-- The goroutines under any schedule.
use downloader.Base.{
  ℕ, suc, ◌≤◌, ◌<◌, ◌≡◌, refl, String, none, map, List, [], ◌∷◌, Returns, Returns-mono, length,
  arith,
}
use downloader.Models.{Codec}
use downloader.Models.Table.{Table}
use downloader.Unpacker.States.{discover_state}
use downloader.Unpacker.Library.{Solgo, Store, Config}
use downloader.Unpacker.Entry.{Job}
use downloader.Unpacker.Assembly.{at}
use downloader.Unpacker.Flow.{IsCalm}
use downloader.Storage.{table_store}
use downloader.Storage.Kept.{IsWriting}
use downloader.Syncer.Turns.{Thread, running, ended, Threads, turns}
use downloader.Syncer.Turns.Links.{last, link}
use downloader.Syncer.Turns.Phases.{Key, IsFresh, IsKept, IsWaiting, waits, studies, is_over}
use downloader.Syncer.Turns.Teams.{
  count, left_after, left_after-count, AreApart, Team, Kept, turns-Kept,
}

module _ (k : Codec) (violation : String) (S : Solgo) (cfg : Config) (calm : IsCalm S)
    (writes : IsWriting k) where
  abbrev W : Store
  W = table_store k violation

  -- Goroutines that have not begun, and whose contracts no row has.
  abbrev pub AreWaiting : Table → List Key → List (Job S W) → Type 0
  AreWaiting t [] [] = Unit
  AreWaiting t (key ∷ keys) (j ∷ jobs) =
      IsWaiting k violation S cfg key j × IsFresh k violation key t × AreWaiting t keys jobs
  AreWaiting t [] (j ∷ jobs) = ⊥
  AreWaiting t (key ∷ keys) [] = ⊥

  -- The goroutines as they are started.
  abbrev pub started : Job S W → Thread S W cfg
  started j = running (at S W cfg discover_state j (discover_state ∷ []))

  Team-starts :
      (t : Table) (keys : List Key) (jobs : List (Job S W))
      → AreWaiting t keys jobs
      → Team k violation S cfg t (λ i. 7) keys (map started jobs)
  Team-starts t [] [] h = tt
  Team-starts t [] (j ∷ jobs) h = h
  Team-starts t (key ∷ keys) [] h = h
  Team-starts t (key ∷ keys) (j ∷ jobs) (w, f, h) =
      (waits j (discover_state ∷ []) refl w f, Team-starts t keys jobs h)

  -- Every goroutine has ended without an error, and its contract is in the table.
  abbrev pub AllKept : List Key → Threads S W cfg → Type 0
  AllKept [] ([], t, files) = Unit
  AllKept (key ∷ keys) (ended e m ∷ ths, t, files) =
      (e ≡ none) × IsKept k violation key t × AllKept keys (ths, t, files)
  AllKept (key ∷ keys) (running m ∷ ths, t, files) = ⊥
  AllKept [] (th ∷ ths, t, files) = ⊥
  AllKept (key ∷ keys) ([], t, files) = ⊥

  AllKept-ends :
      (keys : List Key) (c : ℕ → ℕ) (ths : List (Thread S W cfg)) (t : Table) (files : S.Files)
      → ((i : ℕ) → i < length keys → c i ≡ 0)
      → Team k violation S cfg t c keys ths
      → AllKept keys (ths, t, files)
  AllKept-ends [] c [] t files z h = tt
  AllKept-ends [] c (th ∷ ths) t files z h = h
  AllKept-ends (key ∷ keys) c [] t files z h = h
  AllKept-ends (key ∷ keys) c (ended e m ∷ ths) t files z (is_over j v n kept, h) = (
    refl,
    kept,
    AllKept-ends keys (λ i. c (suc i)) ths t files (λ i lt. z (suc i) (omega arith)) h,
  )
  AllKept-ends (key ∷ keys) c (running m ∷ ths) t files z (waits j v n w f, h) =
      absurd (omega (arith, z 0 (omega arith)))
  AllKept-ends (key ∷ keys) c (running m ∷ ths) t files z (studies j v (last n s) p a f, h) =
      absurd (omega (arith, z 0 (omega arith)))
  AllKept-ends (key ∷ keys) c (running m ∷ ths) t files z (studies j v (link l left n) p a f, h) =
      absurd (omega (arith, z 0 (omega arith)))

  -- In whatever order the goroutines of distinct contracts have their turns, over the table of
  -- contracts in which these have no rows: where the library returns, lists of texts can be written
  -- and every goroutine has seven turns or more, all of them end without an error, and the table has
  -- a processed row of every contract.
  pub turns-AllKept :
      (keys : List Key) (jobs : List (Job S W)) (schedule : List ℕ) (t : Table) (files : S.Files)
      → AreApart k violation keys
      → AreWaiting t keys jobs
      → ((i : ℕ) → i < length keys → 7 ≤ count i schedule)
      → Returns (AllKept keys) (turns S W cfg schedule (map started jobs) t files)
  turns-AllKept keys jobs schedule t files apart waiting enough =
      Returns-mono (Kept k violation S cfg calm writes t (left_after schedule (λ i. 7)) keys)
        (AllKept keys) (turns S W cfg schedule (map started jobs) t files)
        (λ (ths, t', files') (h, _).
          AllKept-ends keys (left_after schedule (λ i. 7)) ths t' files'
            (λ i lt. omega (arith, left_after-count schedule (λ i. 7) i, enough i lt)) h)
        (turns-Kept k violation S cfg calm writes schedule keys t files (λ i. 7) (map started jobs)
          apart (Team-starts t keys jobs waiting))
