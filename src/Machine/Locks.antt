-- ===== src/Machine/Locks.antt =====
-- The mutex of pkg/machine/machine.go: `Trigger` holds it over its call of `transition`, which
-- takes it again. And what is left of a machine after `Destroy`.
use downloader.Base.{◌≡◌, ◌⊎◌, false, Option, some, ret, blocks, panics, arith}
use downloader.Machine.{
  State, Action, Error, paused, invalid_transition, Handler, Machine, target, transition,
  register_state, trigger, destroy,
}

module _ {D E : Type 0} where
  -- On a machine that is not paused a trigger that the transition table allows never returns.
  pub trigger-blocks :
      (a : Action) (s : State) (m : Machine D E)
      → m.is_paused ≡ false
      → target m a ≡ some s
      → trigger a m ≡ blocks
  unfolding trigger transition
  trigger-blocks a s m running e = ground arith

  -- A trigger that returns has failed, since the machine is paused or the action is unknown, and has
  -- changed nothing.
  pub trigger_fails :
      (a : Action) (m m' : Machine D E) (err : Option (Error E))
      → trigger a m ≡ ret (err, m')
      → (m' ≡ m) × ((err ≡ some paused) ⊎ (err ≡ some (invalid_transition m.current_state a)))
  unfolding trigger transition
  trigger_fails a m m' err e = ground arith

  -- After `Destroy` no state can be registered: the write to the nil map panics.
  pub register_state-destroy :
      (clear : D → D) (s : State) (h : Handler D E) (m m' : Machine D E)
      → destroy clear m ≡ ret m'
      → register_state s h m' ≡ panics
  unfolding destroy register_state
  register_state-destroy clear s h m m' e = ground arith
