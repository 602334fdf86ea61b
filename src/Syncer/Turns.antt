-- ===== src/Syncer/Turns.antt =====
-- The goroutines that `BlockInterceptor` of services/syncer/interceptors.go starts, each with the machine
-- of its own contract over the one database and the one directory of sources. A turn is a round of
-- `StateMachine.Process`, which makes one statement at most; a schedule says whose turns they are.
mod Links
pub mod Phases
mod Moves
pub mod Teams
pub mod Schedules
pub mod Deployments
mod Tests
use downloader.Base.{
  ℕ, zero, suc, false, Option, List, [], ◌∷◌, Outcome, ret, blocks, panics, ◌>>=◌,
}
use downloader.Machine.{Error}
use downloader.Machine.Process.{Step, stop, next, round}
use downloader.Unpacker.Library.{Solgo, Store, Config}
use downloader.Unpacker.Entry.{Job, Failure}
use downloader.Unpacker.Assembly.{Sm}

-- The loop of a goroutine goes on, or `Process` has returned.
pub data Thread (S : Solgo) (W : Store) (cfg : Config) : Type 0 where
  running : Sm S W cfg → Thread S W cfg
  ended : Option (Error Failure) → Sm S W cfg → Thread S W cfg

module _ (S : Solgo) (W : Store) (cfg : Config) where
  -- The goroutine sees the database and the files as they are now.
  abbrev pub seat : W.Db → S.Files → Sm S W cfg → Sm S W cfg
  seat db files m = record m { carried = record (m.carried) { db = db; files = files } }

  abbrev pub after : Step (Job S W) Failure → Thread S W cfg × W.Db × S.Files
  after (stop e m) = (ended e m, m.carried.db, m.carried.files)
  after (next m) = (running m, m.carried.db, m.carried.files)

  -- One turn, in a context that is not done; one that has ended has no more.
  unfoldable pub turn : Thread S W cfg → W.Db → S.Files → Outcome (Thread S W cfg × W.Db × S.Files)
  turn (ended e m) db files = ret (ended e m, db, files)
  turn (running m) db files = do s ← round false (seat db files m); ret (after s)

  abbrev pub Threads : Type 0
  Threads = List (Thread S W cfg) × W.Db × S.Files

  -- The turn of the goroutine at a position.
  unfoldable pub turn_at : ℕ → List (Thread S W cfg) → W.Db → S.Files → Outcome Threads
  turn_at i [] db files = ret ([], db, files)
  turn_at zero (t ∷ ts) db files = do
    (t', db', files') ← turn t db files
    ret (t' ∷ ts, db', files')
  turn_at (suc i) (t ∷ ts) db files = do
    (ts', db', files') ← turn_at i ts db files
    ret (t ∷ ts', db', files')

  unfoldable pub turns : List ℕ → List (Thread S W cfg) → W.Db → S.Files → Outcome Threads
  turns [] ts db files = ret (ts, db, files)
  turns (i ∷ schedule) ts db files = do
    (ts', db', files') ← turn_at i ts db files
    turns schedule ts' db' files'
