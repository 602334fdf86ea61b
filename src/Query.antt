-- ===== src/Query.antt =====
-- services/query: the service that answers GraphQL requests. Its construction opens what the syncer's
-- does, and it has no unpacker.
mod Tests
use downloader.Base.{
  ℕ, String, ◌≡◌, refl, ap, ◌∙◌, Bool, true, false, ◌||◌, Option, none, some, List, [], ◌∷◌, ◌++◌,
  ◌==◌, if◌then◌else◌, Option-cases, inl, inr, Outcome, ret, blocks, arith,
}
use downloader.Cache as Cache
use downloader.Cache.{Client}
use downloader.Options.{transport_enabled}
use downloader.Subscribers.Groups.{Run, gives, stays, wait}
use downloader.Syncer.Service.{
  Libraries, Building, constructed, opening, ◌>>=◌, client_pool, nats, bindings, etherscan,
  no_client_pool, no_nats, no_bindings, no_etherscan, open_database, open_cache,
}

pub record Service : Type 0 where
  pub pool : ℕ
  pub nats_conn : ℕ
  pub db : ℕ
  pub bind_manager : ℕ
  pub cache : ℕ
  pub provider : ℕ

-- `NewService`.
unfoldable pub new_service :
    (client : Client) → Libraries → Cache.Options → client.Server → Building Service
new_service client libraries opts server = do
  pool ← opening client_pool no_client_pool libraries.new_client_pool
  conn ← opening nats no_nats libraries.connect
  db ← open_database client libraries
  bind_manager ← opening bindings no_bindings (libraries.new_bindings pool)
  cache ← open_cache client libraries opts server
  provider ← opening etherscan no_etherscan (libraries.new_etherscan cache)
  (
    [],
    constructed (record {
      pool = pool;
      nats_conn = conn;
      db = db;
      bind_manager = bind_manager;
      cache = cache;
      provider = provider;
    }),
  )

pub data Transport : Type 0 where
  websocket http_options http_get http_post : Transport

-- The transports that `serveGraphQL` adds, in its order.
unfoldable pub graphql_transports : List String → List Transport
unfolding transport_enabled
graphql_transports configured =
    (if transport_enabled "ws" configured then websocket ∷ [] else [])
    ++ http_options ∷ http_get ∷ http_post ∷ []

-- What `ListenAndServe` answers: it serves for ever, or fails, and knows of no context.
abbrev pub listen_and_serve : Option String → Run
listen_and_serve none = stays
listen_and_serve (some e) = gives (some e)

-- The goroutines of `Start`: the GraphQL server, and the profiling server where it is enabled.
abbrev pub servers : Option String → Bool → Option String → List Run
servers graphql pprof_enabled pprof =
    listen_and_serve graphql ∷ (if pprof_enabled then listen_and_serve pprof ∷ [] else [])

unfoldable pub start : Bool → Option String → Bool → Option String → Outcome (Option String)
unfolding wait
start parent graphql pprof_enabled pprof = wait parent (servers graphql pprof_enabled pprof)

-- The service returns just when every server that is enabled has failed, with the error of the GraphQL
-- server, and otherwise runs on, although its context is done or one of its servers has failed.
pub start_lem :
    (parent : Bool) (graphql : Option String) (pprof_enabled : Bool) (pprof : Option String)
    → start parent graphql pprof_enabled pprof ≡ elim graphql [
      | none ↦ blocks
      | some e ↦
          if pprof_enabled
          then elim pprof [ none ↦ blocks | some x ↦ ret (some e) ]
          else ret (some e)
    ]
unfolding start wait
start_lem parent none true none = refl
start_lem parent none true (some x) = refl
start_lem parent none false pprof = refl
start_lem parent (some e) true none = refl
start_lem parent (some e) true (some x) = refl
start_lem parent (some e) false pprof = refl
