-- ===== src/Machine.antt =====
-- pkg/machine/machine.go, handler.go and types.go: the state machine, its registrations and the
-- calls that lock its mutex. `D` is what the handlers read and write: the machine's data and the
-- world outside. `E` is what their errors carry. A nil map is `none`.
pub mod Process
pub mod Registry
pub mod Locks
pub mod Control
mod Tests
use downloader.Base.{
  ℕ, String, Bool, true, false, Option, none, some, List, [], ◌∷◌, ◌++◌, ◌==◌, if◌then◌else◌,
  lookup, insert, Outcome, ret, blocks, panics, ◌>>=◌,
}

abbrev pub State : Type 0
State = String

abbrev pub Action : Type 0
Action = String

-- The zero value of a state.
abbrev pub no_state : State
no_state = ""

pub data Error (E : Type 0) : Type 0 where
  paused : Error E
  cancelled : Error E
  no_error_handler : State → Error E
  no_source_handler : State → Error E
  no_destination_handler : State → State → Error E
  invalid_transition : State → Action → Error E
  invalid_state : State → Error E
  invalid_next_state : State → Error E
  handler_failed : E → Error E

-- A nil function is `none`.
pub record Handler (D E : Type 0) : Type 0 where
  pub enter : Option (D → Outcome (D × Option E))
  pub process : Option (D → Outcome (State × D × Option E))
  pub exit : Option (D → Outcome (D × Option E))

pub record Machine (D E : Type 0) : Type 0 where
  pub current_state : State
  pub final_state : State
  pub error_state : State
  pub states : Option (List (State × Handler D E))
  pub transitions : Option (List (State × List (Action × State)))
  pub carried : D
  pub processed_states : List State
  pub history : List State
  pub is_paused : Bool
  pub locked : Bool

-- A read of a nil map finds nothing.
abbrev pub find {ℓ} : {V : Type ℓ} → State → Option (List (State × V)) → Option V
find k none = none
find k (some m) = lookup k m

-- A write to a nil map panics.
abbrev pub assign {ℓ} :
    {V : Type ℓ} → State → V → Option (List (State × V)) → Outcome (Option (List (State × V)))
assign k v none = panics
assign k v (some m) = ret (some (insert k v m))

-- The inner map of a source state, a fresh one where there is none.
abbrev pub actions_of : Option (List (Action × State)) → List (Action × State)
actions_of none = []
actions_of (some inner) = inner

module _ {D E : Type 0} where
  abbrev pub exists : State → Machine D E → Bool
  exists s m = elim (find s m.states) [ none ↦ false | some _ ↦ true ]

  -- `sync.Mutex` is not reentrant: the second `Lock` of a goroutine waits for ever.
  abbrev pub lock : Machine D E → Outcome (Machine D E)
  lock m = if m.locked then blocks else ret (record m { locked = true })

  abbrev pub unlock : Machine D E → Machine D E
  unlock m = record m { locked = false }

  unfoldable pub new_state_machine : State → D → Machine D E
  new_state_machine initial d = record {
    current_state = initial;
    final_state = no_state;
    error_state = no_state;
    states = some [];
    transitions = some [];
    carried = d;
    processed_states = initial ∷ [];
    history = initial ∷ [];
    is_paused = false;
    locked = false;
  }

  unfoldable pub register_state : State → Handler D E → Machine D E → Outcome (Machine D E)
  register_state s h m = do
    m ← lock m
    states ← assign s h m.states
    ret (unlock (record m { states = states }))

  unfoldable pub register_final_state :
      State → Machine D E → Outcome (Option (Error E) × Machine D E)
  register_final_state s m = do m ← lock m; ret (none, unlock (record m { final_state = s }))

  unfoldable pub register_error_state :
      State → Machine D E → Outcome (Option (Error E) × Machine D E)
  register_error_state s m = do
    m ← lock m
    if exists s m
        then ret (none, unlock (record m { error_state = s }))
        else ret (some (no_error_handler s), unlock m)

  pub register_transition :
      State → Action → State → Machine D E → Outcome (Option (Error E) × Machine D E)
  register_transition from action to m = do
    m ← lock m
    if exists from m
        then if exists to m
          then (do
            let inner = insert action to (actions_of (find from m.transitions))
            transitions ← assign from inner m.transitions
            ret (none, unlock (record m { transitions = transitions })))
          else ret (some (no_destination_handler from to), unlock m)
        else ret (some (no_source_handler from), unlock m)

  -- `transition` takes the mutex itself.
  unfoldable pub transition : State → Machine D E → Outcome (Option (Error E) × Machine D E)
  transition next m = do
    m ← lock m
    ret (
      none,
      unlock (record m {
        processed_states = m.processed_states ++ next ∷ [];
        history = m.history ++ next ∷ [];
        current_state = next;
      }),
    )

  -- What follows a step that failed: the error state where one is registered.
  unfoldable pub recover : Error E → Machine D E → Outcome (Option (Error E) × Machine D E)
  unfolding transition
  recover e m = if m.error_state == no_state then ret (some e, m) else transition m.error_state m

  abbrev pub target : Machine D E → Action → Option State
  target m action = lookup action (actions_of (find m.current_state m.transitions))

  -- The mutex is held over the calls of `transition`; the deferred unlock follows them.
  pub trigger : Action → Machine D E → Outcome (Option (Error E) × Machine D E)
  unfolding transition recover
  trigger action m = do
    m ← lock m
    if m.is_paused then ret (some paused, unlock m) else elim (target m action) [
      | none ↦ ret (some (invalid_transition m.current_state action), unlock m)
      | some next ↦ (do
        (err, m) ← transition next m
        (err, m) ← elim err [ none ↦ ret (none, m) | some e ↦ recover e m ]
        ret (err, unlock m))
    ]

  pub pause : Machine D E → Outcome (Machine D E)
  pause m = do m ← lock m; ret (unlock (record m { is_paused = true }))

  pub resume : Machine D E → Outcome (Machine D E)
  resume m = do m ← lock m; ret (unlock (record m { is_paused = false }))

  -- `Timeout` makes its caller sleep: the machine is neither locked nor paused.
  unfoldable pub timeout : ℕ → Machine D E → Outcome (Machine D E)
  timeout duration m = ret m

  -- `clear` sets the data to nil.
  pub destroy : (D → D) → Machine D E → Outcome (Machine D E)
  destroy clear m = do
    m ← lock m
    ret (
        unlock (record m {
          states = none;
          transitions = none;
          carried = clear m.carried;
          processed_states = [];
          history = [];
        }))

  pub get_current_state : Machine D E → Outcome (State × Machine D E)
  get_current_state m = do m ← lock m; ret (m.current_state, unlock m)

  pub get_processed_states : Machine D E → Outcome (List State × Machine D E)
  get_processed_states m = do m ← lock m; ret (m.processed_states, unlock m)

  pub get_history : Machine D E → Outcome (List State × Machine D E)
  get_history m = do m ← lock m; ret (m.history, unlock m)
