-- ===== src/Subscribers/Requests.antt =====
-- pkg/subscribers/unpacker.go: the subscriber of unpack requests. The messages that NATS delivers before
-- the context is done are a list.
use downloader.Base.{
  ℕ, String, ◌≡◌, refl, true, not, Option, none, some, List, [], ◌∷◌, if◌then◌else◌, Option-cases,
  inl, inr,
}
use downloader.Subscribers.Blocks.{Subscriber}

pub data Error : Type 0 where
  not_subscribed : String → Error
  not_unsubscribed : String → Error

-- `Subscribe`, `Unsubscribe`, and the JSON of an event.
pub record Nats (Event : Type 0) : Type 0 where
  pub subscribe : String → Option String
  pub unsubscribe : Option String
  pub unmarshal : List ℕ → Option Event

-- A hook's error, and what it makes of the world.
abbrev pub RequestHook : Type 0 → Type 0 → Type 0
RequestHook Event W = Event → W → Option String × W

module _ {Event W : Type 0} (nats : Nats Event) (hooks : List (RequestHook Event W)) where
  -- The loop over the hooks: an error is logged, and the next hook has its turn.
  abbrev pub run_request_hooks : List (RequestHook Event W) → Event → W → W
  run_request_hooks [] event w = w
  run_request_hooks (hook ∷ rest) event w = run_request_hooks rest event (hook event w).1

  -- The handler of a message: what is no event is logged and dropped.
  unfoldable pub handle_message : List ℕ → W → W
  handle_message msg w = elim (nats.unmarshal msg) [
    | none ↦ w
    | some event ↦ run_request_hooks hooks event w
  ]

  abbrev handle_messages : List (List ℕ) → W → W
  handle_messages [] w = w
  handle_messages (msg ∷ messages) w = handle_messages messages (handle_message msg w)

  unfoldable pub start : Subscriber → List (List ℕ) → W → Option Error × W
  unfolding handle_message
  start opts messages w =
      if not opts.enabled then (none, w) else elim (nats.subscribe opts.subject_name) [
        | some e ↦ (some (not_subscribed e), w)
        | none ↦ elim nats.unsubscribe [
          | some e ↦ (some (not_unsubscribed e), handle_messages messages w)
          | none ↦ (none, handle_messages messages w)
        ]
      ]

  -- The events among the messages.
  abbrev pub events : List (List ℕ) → List Event
  events [] = []
  events (msg ∷ messages) = elim (nats.unmarshal msg) [
    | none ↦ events messages
    | some event ↦ event ∷ events messages
  ]

  abbrev pub deliver : List Event → W → W
  deliver [] w = w
  deliver (event ∷ rest) w = deliver rest (run_request_hooks hooks event w)

  handle_messages-deliver :
      (messages : List (List ℕ)) (w : W) → handle_messages messages w ≡ deliver (events messages) w
  unfolding handle_message
  handle_messages-deliver [] w = refl
  handle_messages-deliver (msg ∷ messages) w = elim (Option-cases (nats.unmarshal msg)) [
    | inl e ↦ rw (handle_message, events, e) (handle_messages-deliver messages w)
    | inr (event, e) ↦ rw (handle_message, events, e) (handle_messages-deliver messages _)
  ]

  -- Where the subject can be subscribed to, every event among the messages reaches every hook, in
  -- order, whatever errors the hooks return and whatever messages are no events; the only error is that
  -- of the end of the subscription.
  pub start-deliver :
      (opts : Subscriber) (messages : List (List ℕ)) (w : W)
      → opts.enabled ≡ true
      → nats.subscribe opts.subject_name ≡ none
      → start opts messages w ≡ (
        elim nats.unsubscribe [ none ↦ none | some e ↦ some (not_unsubscribed e) ],
        deliver (events messages) w,
      )
  unfolding start
  start-deliver opts messages w enabled subscribed = elim (Option-cases nats.unsubscribe) [
    | inl e ↦ rw (start, enabled, subscribed, e, handle_messages-deliver messages w) refl
    | inr (x, e) ↦ rw (start, enabled, subscribed, e, handle_messages-deliver messages w) refl
  ]
