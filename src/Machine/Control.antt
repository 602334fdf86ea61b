-- ===== src/Machine/Control.antt =====
-- `Pause`, `Resume` and the readers of pkg/machine/machine.go, next to `Process`.
use downloader.Base.{ℕ, suc, ◌≡◌, Bool, true, false, some, last_or, ret, arith}
use downloader.Machine.{
  no_state, paused, Machine, pause, resume, get_current_state, get_processed_states, get_history,
}
use downloader.Machine.Process.{round, stop, process}
use downloader.Machine.Process.Rounds.{IsSound}
use downloader.Machine.Process.Loop.{process-stop}

module _ {D E : Type 0} where
  round-paused :
      (done : Bool) (m : Machine D E)
      → m.locked ≡ false
      → m.is_paused ≡ true
      → round done m ≡ ret (stop (some paused) m)
  unfolding round
  round-paused done m free p = ground arith

  -- A free machine that was paused runs no handler: `Process` returns the error and changes nothing,
  -- whatever the context; and `Resume` gives back the machine that was not paused.
  pub process-pause :
      (m m' : Machine D E) (fuel n : ℕ) (done : ℕ → Bool)
      → m.is_paused ≡ false
      → pause m ≡ ret m'
      → (process (suc fuel) done n m' ≡ some (ret (some paused, m')))
        × (resume m' ≡ ret m)
        × (m'.history ≡ m.history)
  unfolding pause resume
  process-pause m m' fuel n done running e = (
    process-stop fuel n done m' m' (some paused)
        (round-paused (done n) m' (ground arith) (ground arith)),
    ground arith,
    ground arith,
  )

  -- On a sound machine the readers return and change nothing: the two records of visited states are
  -- the same, and the current state is the last of them.
  pub get_history_lem :
      (m : Machine D E)
      → IsSound m
      → (get_history m ≡ ret (m.history, m))
        × (get_processed_states m ≡ get_history m)
        × (get_current_state m ≡ ret (last_or no_state m.history, m))
  unfolding get_history get_processed_states get_current_state
  get_history_lem m k = (ground (arith, k), ground (arith, k), ground (arith, k))
