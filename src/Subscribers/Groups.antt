-- ===== src/Subscribers/Groups.antt =====
-- An errgroup, as `Subscribe` and `Close` of pkg/subscribers/manager.go and the services use it. Its goroutines are
-- listed in the order in which they return, those that do not return anywhere.
use downloader.Base.{
  String, Bool, true, false, ◌||◌, ◌&&◌, Option, none, some, List, [], ◌∷◌, map, is_some,
  if◌then◌else◌, Outcome, ret, blocks, ◌>>=◌,
}
use downloader.Subscribers.{SubscriberType, Manager}
use downloader.Subscribers.Blocks.{Status, active, not_active}
use downloader.Subscribers.Lifecycle.{subscribed}

-- When a goroutine returns, and with which error: by itself, when the context of the service is done,
-- when that of its group is done, or never.
pub data Run : Type 0 where
  gives waits heeds : Option String → Run
  stays : Run

-- Whether it returns by itself, or with the service, and with an error: this ends the group's context.
abbrev pub fails : Bool → Run → Bool
fails parent (gives e) = is_some e
fails parent (waits e) = parent && is_some e
fails parent (heeds e) = false
fails parent stays = false

abbrev pub any_fails : Bool → List Run → Bool
any_fails parent [] = false
any_fails parent (r ∷ runs) = fails parent r || any_fails parent runs

-- The error of a goroutine that has returned, given whether the two contexts are done.
abbrev pub result_of : Bool → Bool → Run → Outcome (Option String)
result_of parent group (gives e) = ret e
result_of parent group (waits e) = if parent then ret e else blocks
result_of parent group (heeds e) = if group then ret e else blocks
result_of parent group stays = blocks

-- `Wait` returns when all have, with the first error.
abbrev pub first_error : Option String → Option String → Option String
first_error (some e) later = some e
first_error none later = later

abbrev pub wait_for : Bool → Bool → List Run → Outcome (Option String)
wait_for parent group [] = ret none
wait_for parent group (r ∷ runs) = do
  e ← result_of parent group r
  later ← wait_for parent group runs
  ret (first_error e later)

unfoldable pub wait : Bool → List Run → Outcome (Option String)
wait parent runs = wait_for parent (parent || any_fails parent runs) runs

-- `startSubscriber`: a context that is done when it looks is the error, and `Start` is not called.
abbrev pub start_subscriber : Bool → Run → Run
start_subscriber true r = gives (some "context canceled")
start_subscriber false r = r

module _ {Sub : Type 0} (run_of : Sub → Run) (late : Sub → Bool) where
  -- `Subscribe`: the subscribers start with contexts of their own, not with the group's. `late` says
  -- whose goroutine looks at the group's context after another one's error.
  unfoldable pub subscribe : Bool → List SubscriberType → Manager Sub → Outcome (Option String)
  unfolding subscribed wait
  subscribe parent names m =
      wait parent
        (map (λ sub. start_subscriber (parent || late sub) (run_of sub)) (subscribed names m))

-- What the manager asks of a subscriber: its status, and the error of its `Stop`.
pub record Stopping (Sub : Type 0) : Type 0 where
  pub status : Sub → Status
  pub stop : Sub → Option String

module _ {Sub : Type 0} (s : Stopping Sub) where
  -- The goroutines of `Close`: those of the active subscribers.
  abbrev pub stops : List (SubscriberType × Sub) → List Run
  stops [] = []
  stops ((name, sub) ∷ rest) = elim (s.status sub) [
    | active ↦ gives (s.stop sub) ∷ stops rest
    | not_active ↦ stops rest
  ]

  -- `Close` waits for the context of the group and never for the group: the context is done with the
  -- manager's, or by an error of a goroutine.
  unfoldable pub close : Bool → Manager Sub → Outcome (Option String)
  close parent m = if parent || any_fails parent (stops m.subs) then ret none else blocks
