-- ===== src/Subscribers.antt =====
-- pkg/subscribers/manager.go: the registry of subscribers. `Register` and `UnRegister` look for the name
-- under the mutex, give it back, and take it again to write: a goroutine makes two steps.
pub mod Names
pub mod Samples
pub mod Blocks
pub mod Archive
pub mod Head
pub mod Requests
pub mod Groups
pub mod Lifecycle
pub mod Races
mod Tests
use downloader.Base.{
  String, Bool, Option, none, some, List, lookup, insert, delete, is_some, if◌then◌else◌,
}

abbrev pub SubscriberType : Type 0
SubscriberType = String

pub data Error : Type 0 where
  already_exists : SubscriberType → Error
  does_not_exist : SubscriberType → Error
  not_found : SubscriberType → Error

pub data Got (Sub : Type 0) : Type 0 where
  got : Sub → Got Sub
  missing : Error → Got Sub

-- What a goroutine was asked to do.
pub data Call (Sub : Type 0) : Type 0 where
  registers : SubscriberType → Sub → Call Sub
  unregisters : SubscriberType → Call Sub

-- Where a goroutine is: before the look, after it, or back with its error.
pub data Thread (Sub : Type 0) : Type 0 where
  called : Call Sub → Thread Sub
  cleared : Call Sub → Thread Sub
  returned : Option Error → Thread Sub

pub record Manager (Sub : Type 0) : Type 0 where
  pub subs : List (SubscriberType × Sub)

module _ {Sub : Type 0} where
  abbrev pub exists : SubscriberType → Manager Sub → Bool
  exists name m = is_some (lookup name m.subs)

  -- The test that a call begins with.
  unfoldable pub refusal : Call Sub → Manager Sub → Option Error
  refusal (registers name sub) m = if exists name m then some (already_exists name) else none
  refusal (unregisters name) m = if exists name m then none else some (does_not_exist name)

  -- The write that it ends with.
  unfoldable pub write : Call Sub → Manager Sub → Manager Sub
  write (registers name sub) m = record { subs = insert name sub m.subs }
  write (unregisters name) m = record { subs = delete name m.subs }

  -- A goroutine goes on to its next release of the mutex.
  unfoldable pub step : Thread Sub → Manager Sub → Thread Sub × Manager Sub
  unfolding refusal write
  step (called c) m = elim (refusal c m) [ some e ↦ (returned (some e), m) | none ↦ (cleared c, m) ]
  step (cleared c) m = (returned none, write c m)
  step (returned e) m = (returned e, m)

  -- A call with no other goroutine in between.
  unfoldable pub perform : Call Sub → Manager Sub → Option Error × Manager Sub
  unfolding refusal write
  perform c m = elim (refusal c m) [ some e ↦ (some e, m) | none ↦ (none, write c m) ]

  unfoldable pub register : SubscriberType → Sub → Manager Sub → Option Error × Manager Sub
  unfolding perform
  register name sub m = perform (registers name sub) m

  unfoldable pub unregister : SubscriberType → Manager Sub → Option Error × Manager Sub
  unfolding perform
  unregister name m = perform (unregisters name) m

  unfoldable pub get : SubscriberType → Manager Sub → Got Sub
  get name m = elim (lookup name m.subs) [ some sub ↦ got sub | none ↦ missing (not_found name) ]
