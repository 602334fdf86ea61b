-- ===== src/Syncer/Service.antt =====
-- services/syncer/service.go: the construction of the service, and `Start`. The libraries' constructors
-- are parameters; a connection is a number.
pub mod Running
pub mod Program
mod Tests
use downloader.Base.{
  ℕ, String, ◌≡◌, refl, Bool, true, false, Option, none, some, List, [], ◌∷◌, ◌++◌, ◌⊎◌, inl, inr,
  Option-cases, arith,
}
use downloader.Cache as Cache
use downloader.Cache.{Client}
use downloader.Db.{new_db, opened, not_opened, not_wal}
use downloader.Unpacker.Construction as Construction
use downloader.Unpacker.Construction.{
  Unpacker, new_unpacker, made, refused, with_nats, with_pool, with_db, with_bindings_manager,
  with_ether_scan_provider, with_state_manager,
}
use downloader.Syncer.{Attempt, got, wrong}

-- What a construction opens.
pub data Connection : Type 0 where
  client_pool nats database bindings redis etherscan : Connection

pub data Error : Type 0 where
  no_client_pool no_nats no_database no_wal no_bindings no_cache no_etherscan no_unpacker :
      String → Error

pub data Constructed (A : Type 0) : Type 0 where
  constructed : A → Constructed A
  failed : Error → Constructed A

pub record Libraries : Type 0 where
  pub new_client_pool : Attempt ℕ
  pub connect : Attempt ℕ
  -- `sql.Open`, the database, and the statement that sets its mode.
  pub open_error : Option String
  pub database_handle : ℕ
  pub wal_error : Option String
  pub new_bindings : ℕ → Attempt ℕ
  pub new_etherscan : ℕ → Attempt ℕ
  -- The pointers that the repository's own constructors give.
  pub redis_handle : ℕ
  pub state_handle : ℕ

pub record Service : Type 0 where
  pub pool : ℕ
  pub nats : ℕ
  pub db : ℕ
  pub unpacker : Unpacker
  pub bind_manager : ℕ
  pub cache : ℕ
  pub etherscan : ℕ
  pub state : ℕ

-- What was opened, and what came of it: nothing closes a connection that was opened.
abbrev pub Building : Type 0 → Type 0
Building A = List Connection × Constructed A

infixl 5 ◌>>=◌
abbrev pub ◌>>=◌ : {A B : Type 0} → Building A → (A → Building B) → Building B
(before, failed e) >>= f = (before, failed e)
(before, constructed a) >>= f = let (after, r) = f a in (before ++ after, r)

abbrev pub opening : {A : Type 0} → Connection → (String → Error) → Attempt A → Building A
opening c why (wrong e) = ([], failed (why e))
opening c why (got a) = (c ∷ [], constructed a)

Attempt-cases :
    {A : Type 0} (a : Attempt A) → ((x : A) × (a ≡ got x)) ⊎ ((e : String) × (a ≡ wrong e))
Attempt-cases (got x) = inl (x, refl)
Attempt-cases (wrong e) = inr (e, refl)

module _ (client : Client) (libraries : Libraries) where
  open libraries use {
    new_client_pool, connect, open_error, database_handle, wal_error, new_bindings, new_etherscan,
    redis_handle, state_handle,
  }

  abbrev pub open_database : Building ℕ
  open_database = elim (new_db open_error database_handle wal_error) [
    | opened db ↦ (database ∷ [], constructed db)
    | not_opened e ↦ ([], failed (no_database e))
    | not_wal e ↦ (database ∷ [], failed (no_wal e))
  ]

  -- The client is made before the options are checked; it connects when the server is asked.
  abbrev pub open_cache : Cache.Options → client.Server → Building ℕ
  open_cache opts server = elim (Cache.new client opts server) [
    | some e ↦ (redis ∷ [], failed (no_cache e))
    | none ↦ (redis ∷ [], constructed redis_handle)
  ]

  abbrev make_unpacker : ℕ → ℕ → ℕ → ℕ → ℕ → Building Unpacker
  make_unpacker pool conn db bind_manager provider =
      elim (new_unpacker (
        with_nats (some conn)
        ∷ with_pool (some pool)
        ∷ with_db (some db)
        ∷ with_bindings_manager (some bind_manager)
        ∷ with_ether_scan_provider (some provider)
        ∷ with_state_manager (some state_handle)
        ∷ [])) [ made u ↦ ([], constructed u) | refused e ↦ ([], failed (no_unpacker e)) ]

  -- `NewService`; the constructors of the managers and of the servers do not fail.
  unfoldable pub new_service : Cache.Options → client.Server → Building Service
  unfolding new_db Cache.new new_unpacker
  new_service opts server = do
    pool ← opening client_pool no_client_pool new_client_pool
    conn ← opening nats no_nats connect
    db ← open_database
    bind_manager ← opening bindings no_bindings (new_bindings pool)
    cache ← open_cache opts server
    provider ← opening etherscan no_etherscan (new_etherscan cache)
    u ← make_unpacker pool conn db bind_manager provider
    (
      [],
      constructed (record {
        pool = pool;
        nats = conn;
        db = db;
        unpacker = u;
        bind_manager = bind_manager;
        cache = cache;
        etherscan = provider;
        state = state_handle;
      }),
    )

  -- The connections that are open where the construction fails, none of which is closed.
  abbrev pub left_open : Error → List Connection
  left_open (no_client_pool e) = []
  left_open (no_nats e) = client_pool ∷ []
  left_open (no_database e) = client_pool ∷ nats ∷ []
  left_open (no_wal e) = client_pool ∷ nats ∷ database ∷ []
  left_open (no_bindings e) = client_pool ∷ nats ∷ database ∷ []
  left_open (no_cache e) = client_pool ∷ nats ∷ database ∷ bindings ∷ redis ∷ []
  left_open (no_etherscan e) = client_pool ∷ nats ∷ database ∷ bindings ∷ redis ∷ []
  left_open (no_unpacker e) = client_pool ∷ nats ∷ database ∷ bindings ∷ redis ∷ etherscan ∷ []

  -- The unpacker works on the connections of the service.
  abbrev pub Shares : Unpacker → Service → Type 0
  Shares u s =
      (u.pool ≡ some s.pool)
      × (u.nats ≡ some s.nats)
      × (u.db ≡ some s.db)
      × (u.bind_manager ≡ some s.bind_manager)
      × (u.etherscan ≡ some s.etherscan)
      × (u.state ≡ some s.state)
      × (u.js ≡ none)

  abbrev pub is_refusal : Error → Bool
  is_refusal (no_unpacker e) = true
  is_refusal e = false

  abbrev pub Accounts : Building Service → Type 0
  Accounts (conns, failed e) = (conns ≡ left_open e) × (is_refusal e ≡ false)
  Accounts (conns, constructed s) =
      (conns ≡ client_pool ∷ nats ∷ database ∷ bindings ∷ redis ∷ etherscan ∷ [])
      × Shares s.unpacker s

  -- The construction of a service fails with the error of a library or of the cache, never with that of
  -- the unpacker, and leaves open what it had opened before; or it gives a service whose unpacker works
  -- on the service's own connections, all of them open.
  pub new_service-Accounts :
      (opts : Cache.Options) (server : client.Server) → Accounts (new_service opts server)
  unfolding new_service new_db new_unpacker
  new_service-Accounts opts server = elim (Attempt-cases new_client_pool) [
    | inr (e, p) ↦ rw (new_service, p) (refl, refl)
    | inl (pool, p) ↦ elim (Attempt-cases connect) [
      | inr (e, q) ↦ rw (new_service, p, q) (refl, refl)
      | inl (conn, q) ↦ elim (Option-cases open_error) [
        | inr (e, r) ↦ rw (new_service, p, q, r, new_db) (refl, refl)
        | inl r ↦ elim (Option-cases wal_error) [
          | inr (e, w) ↦ rw (new_service, p, q, r, w, new_db) (refl, refl)
          | inl w ↦ elim (Attempt-cases (new_bindings pool)) [
            | inr (e, b) ↦ rw (new_service, p, q, r, w, b, new_db) (refl, refl)
            | inl (bind_manager, b) ↦ elim (Option-cases (Cache.new client opts server)) [
              | inr (e, c) ↦ rw (new_service, p, q, r, w, b, open_cache, c, new_db) (refl, refl)
              | inl c ↦ elim (Attempt-cases (new_etherscan redis_handle)) [
                | inr (e, h) ↦
                    rw (new_service, p, q, r, w, b, open_cache, c, h, new_db) (refl, refl)
                | inl (provider, h) ↦
                    rw (new_service, p, q, r, w, b, open_cache, c, h, new_db, new_unpacker)
                      (refl, (refl, refl, refl, refl, refl, refl, refl))
              ]
            ]
          ]
        ]
      ]
    ]
  ]
