-- ===== src/Options.antt =====
-- pkg/options: the networks, queues, transports and paths of the configuration.
use downloader.Base.{
  ℕ, String, Bool, Option, none, some, List, [], ◌∷◌, nat_eq, true, false, ◌==◌, if◌then◌else◌,
}

pub record Network : Type 0 where
  pub name : String
  pub network_id : ℕ
  pub canonical_name : String
  pub symbol : String
  pub website : String
  pub suspended : Bool
  pub maintenance : Bool

-- `GetNetworkById`; `none` is a nil network with an error.
unfoldable pub get_network_by_id : ℕ → List Network → Option Network
get_network_by_id id [] = none
get_network_by_id id (n ∷ networks) =
    if nat_eq n.network_id id then some n else get_network_by_id id networks

-- `TransportEnabled` of pkg/options/graphql.go.
unfoldable pub transport_enabled : String → List String → Bool
transport_enabled t [] = false
transport_enabled t (tr ∷ transports) = if tr == t then true else transport_enabled t transports

-- pkg/options/nats.go.
pub record Queue : Type 0 where
  pub name : String
  pub subject : String
  pub delivery_group : String

-- `GetQueueByName`.
unfoldable pub get_queue_by_name : String → List Queue → Option Queue
get_queue_by_name name [] = none
get_queue_by_name name (queue ∷ queues) =
    if queue.name == name then some queue else get_queue_by_name name queues

-- `GetSqliteDbPath` of pkg/options/db.go: the parts that are joined.
abbrev pub get_sqlite_db_path : String → String → List String
get_sqlite_db_path database_path datasource = database_path ∷ datasource ∷ []
