-- ===== src/Graph/Cache.antt =====
-- pkg/graph/cache.go: the cache of persisted queries, on the server that also keeps the synchronization
-- state. The client library, with its time to live, is a parameter.
mod Tests
use downloader.Base.{
  joined, ℕ, String, ◌≡◌, refl, ap, ◌∙◌, Bool, true, false, Option, none, some, List, ◌==◌, ==_iff,
  ==_refl, Bool-cases, inl, inr, if◌then◌else◌, arith,
}
use Prim.Native.Char.{code}
use downloader.Cache as Cache
use downloader.Cache.{Client, Reply, value, nil, failure}
use downloader.State.{
  Key, Descriptor, current_block_head, latest_inspected_head_block, latest_inspected_archive_block,
  archive_start_block_number, archive_end_block_number,
}
use downloader.State.Store.{Big, get_state}
use downloader.State.Store.Recovery.{IsSynced}

-- `SET` with a time to live, whatever comes of it.
abbrev pub Expiring : Client → Type 0
Expiring client = String → List ℕ → ℕ → client.Server → Option String × client.Server

-- `SET` stores what `GET` reads back while it lives, and leaves the other keys alone.
pub record IsExpiring (client : Client) (set_expiring : Expiring client) : Type 0 where
  pub stores :
      (key : String) (b : List ℕ) (ttl : ℕ) (s s' : client.Server)
      → set_expiring key b ttl s ≡ (none, s')
      → client.get_key key s' ≡ value b
  pub spares :
      (key other : String) (b : List ℕ) (ttl : ℕ) (s : client.Server)
      → (key == other) ≡ false
      → client.get_key other (set_expiring key b ttl s).1 ≡ client.get_key other s

-- `apqPrefix + key`.
abbrev pub apq_key : String → String
apq_key key = joined "unpack:apq:" key

-- The code of the first character.
abbrev head_code : String → ℕ
head_code String.[] = 0
head_code (String.◌∷◌ c s) = code c

module _ (client : Client) (set_expiring : Expiring client) (ttl : ℕ) where
  -- `Add` drops the error.
  unfoldable pub add : String → List ℕ → client.Server → client.Server
  add key query s = (set_expiring (apq_key key) query ttl s).1

  -- `Get`; `none` says that nothing was found.
  unfoldable pub get : String → client.Server → Option (List ℕ)
  get key s = elim (client.get_key (apq_key key) s) [
    | value b ↦ some b
    | nil ↦ none
    | failure e ↦ none
  ]

  -- A key of the state is not one of a query.
  differs : (key : String) (rest : String) → (apq_key key == String.◌∷◌ "i" rest) ≡ false
  differs key rest = elim (Bool-cases (apq_key key == String.◌∷◌ "i" rest)) [
    | inl e ↦
        absurd (omega (arith, ap head_code ((==_iff (apq_key key) (String.◌∷◌ "i" rest)).0 e)))
    | inr e ↦ e
  ]

  -- What was added is found, while it lives.
  get-add :
      (key : String) (query : List ℕ) (s s' : client.Server)
      → IsExpiring client set_expiring
      → set_expiring (apq_key key) query ttl s ≡ (none, s')
      → get key (add key query s) ≡ some query
  unfolding get add
  get-add key query s s' x e =
      let found : client.get_key (apq_key key) (set_expiring (apq_key key) query ttl s).1
          ≡ value query =
        ap (λ r. client.get_key (apq_key key) r.1) e ∙ x.stores (apq_key key) query ttl s s' e in
      rw (get, add, found) refl

  module _ (big : Big) where
    get_state-add :
        (key : String) (rest : String) (query : List ℕ) (s : client.Server)
        → IsExpiring client set_expiring
        → get_state big client (String.◌∷◌ "i" rest) (add key query s)
          ≡ get_state big client (String.◌∷◌ "i" rest) s
    unfolding get_state add Cache.get
    get_state-add key rest query s x =
        let same = x.spares (apq_key key) (String.◌∷◌ "i" rest) query ttl s (differs key rest) in
        rw (get_state, Cache.get, add, same) refl

    -- A query that is added leaves the synchronization state as it is: the cache still has the numbers
    -- of the descriptor, whether the server took the query or not.
    pub add-IsSynced :
        (key : String) (query : List ℕ) (d : Descriptor) (s : client.Server)
        → IsExpiring client set_expiring
        → IsSynced big client d s
        → IsSynced big client d (add key query s)
    add-IsSynced key query d s x v = record {
      current_head = get_state-add key _ query s x ∙ v.current_head;
      latest_head = get_state-add key _ query s x ∙ v.latest_head;
      latest_archive = get_state-add key _ query s x ∙ v.latest_archive;
      archive_start = get_state-add key _ query s x ∙ v.archive_start;
      archive_end = get_state-add key _ query s x ∙ v.archive_end;
    }
