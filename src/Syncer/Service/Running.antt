-- ===== src/Syncer/Service/Running.antt =====
-- `Start` of services/syncer/service.go, with `Monitor` of pkg/state, `Start` of pkg/pprof and `Start` of
-- services/syncer/rpc.go as goroutines of its group.
use downloader.Base.{
  ℕ, String, Bool, not, Option, none, some, List, [], ◌∷◌, ◌++◌, Outcome, ret, blocks, panics,
  ◌>>=◌, if◌then◌else◌,
}
use downloader.Cache.{Client}
use downloader.State as State
use downloader.State.{Descriptor}
use downloader.State.Store.{Big, load}
use downloader.Subscribers.{SubscriberType, Manager}
use downloader.Subscribers.Blocks.{Subscriber}
use downloader.Subscribers.Groups.{Run, gives, heeds, stays, wait, subscribe}
use downloader.Syncer.Injection as Injection
use downloader.Syncer.Injection.{Built, inject_subscribers}

-- What the options say of the servers of the service, and what their listening and serving answer; `none`
-- says that a server serves for ever.
pub record Serving : Type 0 where
  pub pprof_enabled : Bool
  pub pprof_error : Option String
  pub rpc_enabled : Bool
  pub listen_error : Option String
  pub serve_error : Option String

-- `ListenAndServe` does not know of the context.
abbrev pub pprof_start : Serving → Run
pprof_start v = elim v.pprof_error [ some e ↦ gives (some e) | none ↦ stays ]

-- `Server.Start`: the select comes after `Serve`, which does not know of the context either.
unfoldable pub rpc_start : Serving → Run
rpc_start v = if not v.rpc_enabled then gives none else elim v.listen_error [
  | some e ↦ gives (some e)
  | none ↦ elim v.serve_error [ some e ↦ gives (some e) | none ↦ stays ]
]

-- `Monitor` reports at every tick until the context of the group is done.
abbrev pub monitor : Run
monitor = heeds none

-- A goroutine that calls another group's `Wait`, with contexts that are not those of its own group.
abbrev pub nested : Outcome (Option String) → Run
nested (ret e) = gives e
nested blocks = stays
nested panics = stays

pub data Error : Type 0 where
  not_loaded : State.Error → Error
  not_injected : Injection.Error → Error
  group_failed : String → Error

abbrev pub of_group : Option String → Option Error
of_group none = none
of_group (some e) = some (group_failed e)

module _ (big : Big) (client : Client) (network : String) (network_id : ℕ)
    (configured : List Subscriber) (order : List SubscriberType) (run_of : Built → Run)
    (late : Built → Bool) (v : Serving) where
  -- The goroutines of the service.
  abbrev pub goroutines : Bool → Manager Built → List Run
  goroutines parent m =
      nested (subscribe run_of late parent [] m)
        ∷ (if v.pprof_enabled then pprof_start v ∷ [] else [])
      ++ ((if v.rpc_enabled then rpc_start v ∷ [] else []) ++ monitor ∷ [])

  abbrev pub injected :
      Bool
      → Descriptor
      → Option Injection.Error × Manager Built
      → Outcome (Option Error × Descriptor)
  injected parent d (some e, m) = ret (some (not_injected e), d)
  injected parent d (none, m) = do e ← wait parent (goroutines parent m); ret (of_group e, d)

  abbrev pub loaded :
      Bool → Manager Built → Option State.Error × Descriptor → Outcome (Option Error × Descriptor)
  loaded parent m (some e, d) = ret (some (not_loaded e), d)
  loaded parent m (none, d) =
      injected parent d (inject_subscribers network network_id configured order m)

  -- `Start`, whether the context of the service is done or not.
  unfoldable pub start :
      Bool → Descriptor → client.Server → Manager Built → Outcome (Option Error × Descriptor)
  unfolding load inject_subscribers subscribe wait rpc_start
  start parent d s m = loaded parent m (load big client d s)
