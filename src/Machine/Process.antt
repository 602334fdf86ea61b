-- ===== src/Machine/Process.antt =====
-- `StateMachine.Process` of pkg/machine/machine.go: one round of its loop in parts, and the loop on
-- fuel. `done n` says whether the context is done at the n-th poll.
pub mod Rounds
pub mod Loop
pub mod Recovery
use downloader.Base.{
  ℕ, zero, suc, ◌+◌, Bool, not, ◌&&◌, Option, none, some, ◌==◌, if◌then◌else◌, Outcome, ret, blocks,
  panics, ◌>>=◌,
}
use downloader.Machine.{
  State, no_state, Error, paused, cancelled, invalid_state, invalid_next_state, handler_failed,
  Handler, Machine, find, exists, lock, unlock, transition, recover,
}

-- A round ends the loop with the error that `Process` returns, or goes on.
pub data Step (D E : Type 0) : Type 0 where
  stop : Option (Error E) → Machine D E → Step D E
  next : Machine D E → Step D E

module _ {D E : Type 0} where
  -- `if handler.Enter != nil { sm.data, err = handler.Enter(sm.data) }`, and so for `Exit`.
  abbrev pub call_hook : Option (D → Outcome (D × Option E)) → D → Outcome (D × Option E)
  call_hook none d = ret (d, none)
  call_hook (some f) d = f d

  abbrev pub call_process :
      Option (D → Outcome (State × D × Option E)) → D → Outcome (State × D × Option E)
  call_process none d = panics
  call_process (some f) d = f d

  -- `return sm.transition(sm.errorState)`, or `return err`.
  unfoldable pub give_up : Error E → Machine D E → Outcome (Step D E)
  give_up e m = do (err, m) ← recover e m; ret (stop err m)

  unfoldable pub move : State → Machine D E → Outcome (Step D E)
  unfolding give_up
  move s m = do
    (err, m) ← transition s m
    elim err [
      | some e ↦ give_up e m
      | none ↦ if s == m.final_state then ret (stop none m) else ret (next m)
    ]

  unfoldable pub leave : Handler D E → State → Machine D E → Outcome (Step D E)
  unfolding move give_up
  leave h s m = do
    (d, err) ← call_hook h.exit m.carried
    let m = record m { carried = d }
    elim err [ some e ↦ give_up (handler_failed e) m | none ↦ move s m ]

  -- A state that is neither registered nor final nor empty is refused.
  abbrev pub is_unknown : State → Machine D E → Bool
  is_unknown s m = not (exists s m) && not (s == m.final_state) && not (s == no_state)

  unfoldable pub work : Handler D E → Machine D E → Outcome (Step D E)
  unfolding leave give_up
  work h m = do
    (s, d, err) ← call_process h.process m.carried
    let m = record m { carried = d }
    elim err [
      | some e ↦ give_up (handler_failed e) m
      | none ↦ if is_unknown s m then give_up (invalid_next_state s) m else leave h s m
    ]

  unfoldable pub arrive : Handler D E → Machine D E → Outcome (Step D E)
  unfolding work give_up
  arrive h m = do
    (d, err) ← call_hook h.enter m.carried
    let m = record m { carried = d }
    elim err [ some e ↦ give_up (handler_failed e) m | none ↦ work h m ]

  unfoldable pub round : Bool → Machine D E → Outcome (Step D E)
  unfolding arrive
  round done m = do
    m ← lock m
    if m.is_paused
        then ret (stop (some paused) (unlock m))
        else if m.current_state == m.final_state
        then ret (stop none (unlock m))
        else elim (find m.current_state m.states) [
          | none ↦ ret (stop (some (invalid_state m.current_state)) (unlock m))
          | some h ↦ if done then ret (stop (some cancelled) (unlock m)) else arrive h (unlock m)
        ]

  -- The `for` loop; `none` says that the fuel ran out.
  unfoldable pub process :
      ℕ → (ℕ → Bool) → ℕ → Machine D E → Option (Outcome (Option (Error E) × Machine D E))
  unfolding round
  process zero done n m = none
  process (suc fuel) done n m = elim (round (done n) m) [
    | blocks ↦ some blocks
    | panics ↦ some panics
    | ret (stop err m') ↦ some (ret (err, m'))
    | ret (next m') ↦ process fuel done (n + 1) m'
  ]
