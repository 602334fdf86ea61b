-- ===== src/Cache.antt =====
-- pkg/cache/client.go and pkg/options/cache.go: the Redis client and the validation of its options.
-- The server and the client library are parameters.
use downloader.Base.{
  ℕ, String, ◌≡◌, Bool, true, false, Option, none, some, List, ◌==◌, nat_eq, if◌then◌else◌,
}
use downloader.State.{ℤ, pos, negsuc}

-- Passwords and timeouts are not checked.
pub record Options : Type 0 where
  pub addr : String
  pub db : ℤ
  pub max_retries : ℤ
  pub min_retry_backoff : ℤ
  pub max_retry_backoff : ℤ

abbrev pub is_negative : ℤ → Bool
is_negative (pos n) = false
is_negative (negsuc n) = true

-- `ValidateOptions`; `some` is the error.
unfoldable pub validate_options : Options → Option String
validate_options opts =
    if opts.addr == ""
    then some "addr cannot be empty"
    else if is_negative opts.db
    then some "db cannot be negative"
    else if is_negative opts.max_retries
    then some "max retires cannot be negative"
    else if is_negative opts.min_retry_backoff
    then some "min retry backoff cannot be negative"
    else if is_negative opts.max_retry_backoff
    then some "max retry backoff cannot be negative"
    else none

-- What a command of the client answers: a value, `redis.Nil`, or another error's text.
pub data Reply (A : Type 0) : Type 0 where
  value : A → Reply A
  nil : Reply A
  failure : String → Reply A

-- The commands `GET`, `SET`, `EXISTS` and `PING` on a server.
pub record Client : Type 1 where
  pub Server : Type 0
  pub get_key : String → Server → Reply (List ℕ)
  pub set_key : String → List ℕ → Server → Option String × Server
  pub exists_key : String → Server → Reply ℕ
  pub ping : Server → Option String

-- `SET` stores what `GET` reads back, under that key and no other.
pub record IsStoring (client : Client) : Type 0 where
  pub stores :
      (key other : String) (b : List ℕ) (s s' : client.Server)
      → client.set_key key b s ≡ (none, s')
      → client.get_key other s' ≡ (if key == other then value b else client.get_key other s)

module _ (client : Client) where
  open client use {Server, get_key, set_key, exists_key, ping}

  -- `New`: the options are checked, then the server is asked.
  unfoldable pub new : Options → Server → Option String
  unfolding validate_options
  new opts s = elim (validate_options opts) [ some e ↦ some e | none ↦ ping s ]

  unfoldable pub get : String → Server → Reply (List ℕ)
  get key s = get_key key s

  unfoldable pub write : String → List ℕ → Server → Option String × Server
  write key b s = set_key key b s

  unfoldable pub exists : String → Server → Reply Bool
  exists key s = elim (exists_key key s) [
    | value n ↦ value (nat_eq n 1)
    | nil ↦ nil
    | failure e ↦ failure e
  ]
