-- ===== src/Machine/Registry.antt =====
-- The registrations of pkg/machine/machine.go: what each adds, refuses and leaves alone.
use downloader.Base.{
  ◌≡◌, ◌⊎◌, true, false, Option, none, some, List, ◌==◌, ==_iff, if◌then◌else◌, lookup, insert,
  lookup-insert, ret, arith,
}
use downloader.Machine.{
  State, Action, Error, no_source_handler, no_destination_handler, Handler, Machine, find, assign,
  exists, actions_of, register_state, register_transition,
}

find-assign :
    {V : Type 0} (k j : State) (v : V) (o o' : Option (List (State × V)))
    → assign k v o ≡ ret o'
    → find j o' ≡ (if k == j then some v else find j o)
find-assign k j v none o' e = cc
find-assign k j v (some l) o' e = ground (arith, lookup-insert k j v l)

module _ {D E : Type 0} where
  -- The transition table as a function.
  abbrev pub edge : Machine D E → State → Action → Option State
  edge m from action = lookup action (actions_of (find from m.transitions))

  -- Where `RegisterState` returns, the handler is found under its state, and the other states have the
  -- handlers that they had.
  pub register_state_lem :
      (s k : State) (h : Handler D E) (m m' : Machine D E)
      → register_state s h m ≡ ret m'
      → find k m'.states ≡ (if s == k then some h else find k m.states)
  unfolding register_state
  register_state_lem s k h m m' e = ground (arith, find-assign s k h m.states m'.states)

  -- Where `RegisterTransition` returns no error, both states are registered, and that edge and no other
  -- was set.
  pub register_transition_lem :
      (from to from' : State) (action action' : Action) (m m' : Machine D E)
      → register_transition from action to m ≡ ret (none, m')
      → (exists from m ≡ true)
        × (exists to m ≡ true)
        × (edge m' from' action' ≡ (
            if from == from'
            then if action == action' then some to else edge m from' action'
            else edge m from' action'))
  unfolding register_transition
  register_transition_lem from to from' action action' m m' e =
      let inner : List (Action × State) = actions_of (find from m.transitions) in
      ground (
        arith,
        find-assign from from' (insert action to inner) m.transitions m'.transitions,
        lookup-insert action action' to inner,
        ==_iff from from',
      )

  -- Where `RegisterTransition` returns an error the machine is as before, and the error names the first
  -- of the two states that has no handler.
  pub register_transition_refused :
      (from to : State) (action : Action) (m m' : Machine D E) (err : Error E)
      → register_transition from action to m ≡ ret (some err, m')
      → (m' ≡ m)
        × (((err ≡ no_source_handler from) × (exists from m ≡ false))
            ⊎ ((err ≡ no_destination_handler from to)
                × (exists from m ≡ true)
                × (exists to m ≡ false)))
  unfolding register_transition
  register_transition_refused from to action m m' err e = ground arith
