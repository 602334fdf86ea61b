-- ===== src/Machine/Process/Recovery.antt =====
-- What becomes of an error on the way: with an error state registered `Process` returns nil.
use downloader.Base.{
  ℕ, suc, ◌≡◌, refl, ◌≢◌, Bool, false, Option, none, some, ==_iff, Outcome, ret, arith,
}
use downloader.Machine.{State, no_state, handler_failed, Error, Handler, Machine, find, recover}
use downloader.Machine.Process.{call_hook, stop, give_up, work, arrive, round, process}
use downloader.Machine.Process.Rounds.{entered, transition_lem}

module _ {D E : Type 0} where
  -- The machine waits in a state that is not final, free, not paused, with a handler for it.
  pub record IsReady (m : Machine D E) (h : Handler D E) : Type 0 where
    pub free : m.locked ≡ false
    pub running : m.is_paused ≡ false
    pub unfinished : m.current_state ≢ m.final_state
    pub handled : find m.current_state m.states ≡ some h

  round-arrive :
      (m : Machine D E) (h : Handler D E)
      → IsReady m h
      → round false m ≡ arrive h (record m { locked = false })
  unfolding round
  round-arrive m h r = ground (arith, ==_iff m.current_state m.final_state)

  give_up_lem :
      (e : Error E) (m : Machine D E)
      → m.locked ≡ false
      → m.error_state ≢ no_state
      → give_up e m ≡ ret (stop none (entered m.error_state m))
  unfolding give_up recover
  give_up_lem e m free has =
      ground (arith, ==_iff m.error_state no_state, transition_lem m.error_state m free)

  arrive_fails :
      (m : Machine D E) (h : Handler D E) (f : D → Outcome (State × D × Option E)) (s : State)
      (d0 d : D) (e : E)
      → m.locked ≡ false
      → m.error_state ≢ no_state
      → call_hook h.enter m.carried ≡ ret (d0, none)
      → h.process ≡ some f
      → f d0 ≡ ret (s, d, some e)
      → arrive h m ≡ ret (stop none (entered m.error_state (record m { carried = d })))
  unfolding arrive work
  arrive_fails m h f s d0 d e free has entering is_f fails =
      ground (arith, give_up_lem (handler_failed e) (record m { carried = d }) free has)

  -- With an error state set, a failure of the state's handler makes `Process` return nil: the
  -- machine has entered the error state with the data that the handler left, and the handler of
  -- the error state has not run.
  pub process_swallows :
      (m : Machine D E) (h : Handler D E) (f : D → Outcome (State × D × Option E)) (fuel n : ℕ)
      (done : ℕ → Bool) (s : State) (d0 d : D) (e : E)
      → IsReady m h
      → m.error_state ≢ no_state
      → done n ≡ false
      → call_hook h.enter m.carried ≡ ret (d0, none)
      → h.process ≡ some f
      → f d0 ≡ ret (s, d, some e)
      → process (suc fuel) done n m
        ≡ some (ret (none, entered m.error_state (record m { carried = d })))
  unfolding process
  process_swallows m h f fuel n done s d0 d e r has_error going entering is_f fails = ground (
    arith,
    round-arrive m h r,
    arrive_fails (record m { locked = false }) h f s d0 d e refl has_error entering is_f fails,
  )
