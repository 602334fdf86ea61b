-- ===== src/Syncer/Service/Program.antt =====
-- services/syncer/entrypoint.go: the command that makes the service and starts it. What solgo says of the
-- names of networks is a parameter.
use downloader.Base.{
  ℕ, String, ◌≡◌, refl, Bool, false, Option, none, some, List, [], ◌∷◌, Outcome, ret, blocks,
  panics, ◌>>=◌,
}
use downloader.Cache as Cache
use downloader.Cache.{Client}
use downloader.State.{Descriptor}
use downloader.State.Store.{Big}
use downloader.State.Store.Recovery.{fresh}
use downloader.Subscribers.{SubscriberType}
use downloader.Subscribers.Blocks.{Subscriber}
use downloader.Subscribers.Groups.{Run}
use downloader.Syncer.Injection.{Built}
use downloader.Syncer.Service as Making
use downloader.Syncer.Service.{
  Libraries, Service, Connection, client_pool, nats, database, bindings, redis, etherscan, Building,
  constructed, failed, new_service, left_open, is_refusal, Accounts, new_service-Accounts,
}
use downloader.Syncer.Service.Running as Running
use downloader.Syncer.Service.Running.{Serving, start}

pub data Error : Type 0 where
  not_constructed : Making.Error → Error
  unknown_network : String → Error
  not_started : Running.Error → Error

-- `GetNetworkFromString` and `GetNetworkID`.
pub record Networks : Type 0 where
  pub get_network_from_string : String → Option String
  pub get_network_id : String → ℕ

abbrev of_start : Option Running.Error → Option Error
of_start none = none
of_start (some e) = some (not_started e)

abbrev all_connections : List Connection
all_connections = client_pool ∷ nats ∷ database ∷ bindings ∷ redis ∷ etherscan ∷ []

module _ (client : Client) (libraries : Libraries) (networks : Networks) where
  -- What is left of a command that returned.
  abbrev pub Leaves : String → Outcome (List Connection × Option Error) → Type 0
  Leaves flag blocks = Unit
  Leaves flag panics = Unit
  Leaves flag (ret (conns, some (not_constructed e))) =
      (conns ≡ left_open client libraries e) × (is_refusal client libraries e ≡ false)
  Leaves flag (ret (conns, some (unknown_network name))) =
      (conns ≡ all_connections) × (name ≡ flag) × (networks.get_network_from_string flag ≡ none)
  Leaves flag (ret (conns, some (not_started e))) =
      (conns ≡ all_connections)
      × ((network : String) × (networks.get_network_from_string flag ≡ some network))
  Leaves flag (ret (conns, none)) =
      (conns ≡ all_connections)
      × ((network : String) × (networks.get_network_from_string flag ≡ some network))

module _ (big : Big) (client : Client) (libraries : Libraries) (networks : Networks)
    (configured : List Subscriber) (order : List SubscriberType) (run_of : Built → Run)
    (late : Built → Bool) (v : Serving) (opts : Cache.Options) (server : client.Server)
    (parent : Bool) where
  -- The service starts for the network of the flag.
  abbrev started : List Connection → String → Outcome (List Connection × Option Error)
  started conns network = do
    (err, d) ←
        start big client network (networks.get_network_id network) configured order run_of late v
          parent fresh server (record { subs = [] })
    ret (conns, of_start err)

  abbrev chosen :
      String → List Connection → Option String → Outcome (List Connection × Option Error)
  chosen flag conns none = ret (conns, some (unknown_network flag))
  chosen flag conns (some network) = started conns network

  abbrev built : String → Building Service → Outcome (List Connection × Option Error)
  built flag (conns, failed e) = ret (conns, some (not_constructed e))
  built flag (conns, constructed s) = chosen flag conns (networks.get_network_from_string flag)

  -- `Run`: the connections that are open when it returns, and its error. The flag is looked at after the
  -- service was made.
  unfoldable pub run : String → Outcome (List Connection × Option Error)
  unfolding new_service start
  run flag = built flag (new_service client libraries opts server)

  start-Leaves :
      (flag network : String) (conns : List Connection)
      (o : Outcome (Option Running.Error × Descriptor))
      → conns ≡ all_connections
      → networks.get_network_from_string flag ≡ some network
      → Leaves client libraries networks flag (do (err, d) ← o; ret (conns, of_start err))
  start-Leaves flag network conns blocks all known = tt
  start-Leaves flag network conns panics all known = tt
  start-Leaves flag network conns (ret (none, d)) all known = (all, (network, known))
  start-Leaves flag network conns (ret (some e, d)) all known = (all, (network, known))

  chosen-Leaves :
      (flag : String) (conns : List Connection) (choice : Option String)
      → conns ≡ all_connections
      → networks.get_network_from_string flag ≡ choice
      → Leaves client libraries networks flag (chosen flag conns choice)
  chosen-Leaves flag conns none all e = (all, refl, e)
  chosen-Leaves flag conns (some network) all e =
      start-Leaves flag network conns
        (start big client network (networks.get_network_id network) configured order run_of late v
          parent fresh server (record { subs = [] }))
        all e

  built-Leaves :
      (flag : String) (b : Building Service)
      → Accounts client libraries b
      → Leaves client libraries networks flag (built flag b)
  built-Leaves flag (conns, failed e) h = h
  built-Leaves flag (conns, constructed s) h =
      chosen-Leaves flag conns (networks.get_network_from_string flag) h.0 refl

  -- Where the command returns, nothing that it opened was closed: with the error of the construction
  -- what was opened before it is open, and otherwise all six connections are, also where the flag names
  -- no network, for which the service is made first. Without an error, or with one of the start, the
  -- flag named a network.
  pub run-Leaves : (flag : String) → Leaves client libraries networks flag (run flag)
  unfolding run
  run-Leaves flag =
      built-Leaves flag (new_service client libraries opts server)
        (new_service-Accounts client libraries opts server)
