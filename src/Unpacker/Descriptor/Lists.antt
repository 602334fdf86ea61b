-- ===== src/Unpacker/Descriptor/Lists.antt =====
-- The lists of completed and failed states as sets.
use downloader.Base.{
  ◌≡◌, refl, true, false, List, [], ◌∷◌, ◌++◌, ◌==◌, ==_iff, contains, contains-append,
  if◌then◌else◌, arith,
}
use downloader.Machine.{State}
use downloader.Unpacker.Descriptor.{
  Descriptor, append_new, drop_state, append_completed_state, append_failed_state,
  remove_failed_state, append_completed_states, append_failed_states, remove_failed_states,
  has_completed_state, has_failed_state,
}

-- No state stands in the list twice.
abbrev pub IsUnique : List State → Type 0
IsUnique [] = Unit {0}
IsUnique (s ∷ states) = (contains s states ≡ false) × IsUnique states

contains-append_new :
    (s t : State) (states : List State)
    → contains t (append_new s states) ≡ (if s == t then true else contains t states)
unfolding append_new
contains-append_new s t states = ground (arith, contains-append t states (s ∷ []), ==_iff s t)

contains-drop_state :
    (s t : State) (states : List State)
    → contains t (drop_state s states) ≡ (if s == t then false else contains t states)
unfolding drop_state
contains-drop_state s t [] = ground arith
contains-drop_state s t (x ∷ states) =
    ground (arith, contains-drop_state s t states, ==_iff s t, ==_iff x s, ==_iff x t)

IsUnique-append :
    (s : State) (states : List State)
    → IsUnique states
    → contains s states ≡ false
    → IsUnique (states ++ s ∷ [])
IsUnique-append s [] u h = (refl, tt)
IsUnique-append s (x ∷ states) u h = (
  ground (arith, contains-append x states (s ∷ []), ==_iff s x, ==_iff x s),
  IsUnique-append s states u.1 (ground arith),
)

append_new-IsUnique :
    (s : State) (states : List State) → IsUnique states → IsUnique (append_new s states)
unfolding append_new
append_new-IsUnique s states u = ground (arith, IsUnique-append s states u)

module _ {C : Type 0} where
  pub has_completed_state-append :
      (s t : State) (d : Descriptor C)
      → has_completed_state t (append_completed_state s d)
        ≡ (if s == t then true else has_completed_state t d)
  unfolding append_completed_state
  has_completed_state-append s t d = contains-append_new s t d.completed_states

  pub has_failed_state-append :
      (s t : State) (d : Descriptor C)
      → has_failed_state t (append_failed_state s d)
        ≡ (if s == t then true else has_failed_state t d)
  unfolding append_failed_state
  has_failed_state-append s t d = contains-append_new s t d.failed_states

  pub has_failed_state-remove :
      (s t : State) (d : Descriptor C)
      → has_failed_state t (remove_failed_state s d)
        ≡ (if s == t then false else has_failed_state t d)
  unfolding remove_failed_state
  has_failed_state-remove s t d = contains-drop_state s t d.failed_states

  -- From a list without repetition, completing states one after another keeps it so, holds exactly the
  -- old states and the new ones, and leaves the failed states alone.
  pub append_completed_states_lem :
      (states : List State) (t : State) (d : Descriptor C)
      → IsUnique d.completed_states
      → IsUnique (append_completed_states states d).completed_states
        × (has_completed_state t (append_completed_states states d)
            ≡ (if contains t states then true else has_completed_state t d))
        × ((append_completed_states states d).failed_states ≡ d.failed_states)
  unfolding append_completed_states append_completed_state
  append_completed_states_lem [] t d u = (u, refl, refl)
  append_completed_states_lem (s ∷ states) t d u = ground (
    arith,
    append_completed_states_lem states t (append_completed_state s d)
        (append_new-IsUnique s d.completed_states u),
    contains-append_new s t d.completed_states,
  )

  has_failed_state-append_all :
      (states : List State) (t : State) (d : Descriptor C)
      → has_failed_state t (append_failed_states states d)
        ≡ (if contains t states then true else has_failed_state t d)
  unfolding append_failed_states
  has_failed_state-append_all [] t d = refl
  has_failed_state-append_all (s ∷ states) t d = ground (
    arith,
    has_failed_state-append_all states t (append_failed_state s d),
    has_failed_state-append s t d,
  )

  has_failed_state-remove_all :
      (states : List State) (t : State) (d : Descriptor C)
      → has_failed_state t (remove_failed_states states d)
        ≡ (if contains t states then false else has_failed_state t d)
  unfolding remove_failed_states
  has_failed_state-remove_all [] t d = refl
  has_failed_state-remove_all (s ∷ states) t d = ground (
    arith,
    has_failed_state-remove_all states t (remove_failed_state s d),
    has_failed_state-remove s t d,
  )

  -- Of the states that failed, those that are removed afterwards are gone and the others stay.
  pub remove_failed_states-append_failed_states :
      (added removed : List State) (t : State) (d : Descriptor C)
      → has_failed_state t (remove_failed_states removed (append_failed_states added d)) ≡ (
          if contains t removed
          then false
          else if contains t added
          then true
          else has_failed_state t d)
  remove_failed_states-append_failed_states added removed t d = ground (
    arith,
    has_failed_state-remove_all removed t (append_failed_states added d),
    has_failed_state-append_all added t d,
  )
