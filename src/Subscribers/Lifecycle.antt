-- ===== src/Subscribers/Lifecycle.antt =====
-- `Subscribe` of pkg/subscribers/manager.go: which subscribers it starts.
use downloader.Base.{none, some, List, [], ◌∷◌, map, lookup}
use downloader.Subscribers.{SubscriberType, Manager}

module _ {Sub : Type 0} where
  -- The subscribers under the given names; a name without one is passed over.
  abbrev pub named : List SubscriberType → Manager Sub → List Sub
  named [] m = []
  named (name ∷ names) m = elim (lookup name m.subs) [
    | none ↦ named names m
    | some sub ↦ sub ∷ named names m
  ]

  -- The subscribers that `Subscribe` starts.
  unfoldable pub subscribed : List SubscriberType → Manager Sub → List Sub
  subscribed [] m = map (λ entry. entry.1) m.subs
  subscribed (name ∷ names) m = named (name ∷ names) m
