-- ===== src/Syncer/Service/Tests.antt =====
-- A service with an archive subscriber.
use downloader.Base.{true, false, none, some, List, [], ◌∷◌, ◌==◌, if◌then◌else◌}
use downloader.Cache as Cache
use downloader.State.{pos}
use downloader.State.Store.Samples.{client, big}
use downloader.Subscribers.Blocks.{Subscriber}
use downloader.Subscribers.Samples as Samples
use downloader.Subscribers.Groups.{Run, gives, waits}
use downloader.Syncer.{got, wrong}
use downloader.Syncer.Injection.{Built, archive_block, head_block}
use downloader.Syncer.Service.{Libraries, Accounts, new_service, new_service-Accounts}
use downloader.Syncer.Service.Program.{Networks, run, Leaves, run-Leaves}
use downloader.Syncer.Service.Running.{Serving}

abbrev libraries : Libraries
libraries = record {
  new_client_pool = got 1;
  connect = got 2;
  open_error = none;
  database_handle = 3;
  wal_error = none;
  new_bindings = λ pool. wrong "no bindings";
  new_etherscan = λ cache. got 5;
  redis_handle = 6;
  state_handle = 7;
}

abbrev cache_options : Cache.Options
cache_options = record {
  addr = "localhost:6379";
  db = pos 0;
  max_retries = pos 3;
  min_retry_backoff = pos 1;
  max_retry_backoff = pos 2;
}

new_service-Accounts_example :
    Accounts client libraries (new_service client libraries cache_options [])
new_service-Accounts_example = new_service-Accounts client libraries cache_options []

abbrev configured : List Subscriber
configured = Samples.opts ∷ record Samples.opts { type = "head" } ∷ []

-- The archive fails, and the head waits for the context.
abbrev run_of : Built → Run
run_of (archive_block network id opts) = gives (some "no client")
run_of (head_block network id opts) = waits none
run_of (Built.unpacker network id opts) = waits none

abbrev serving : Serving
serving = record {
  pprof_enabled = false;
  pprof_error = none;
  rpc_enabled = true;
  listen_error = none;
  serve_error = none;
}

abbrev silent : Serving
silent = record serving { rpc_enabled = false }

-- One network is known, and no library fails.
abbrev networks : Networks
networks = record {
  get_network_from_string = λ s. if s == "ethereum" then some "ethereum" else none;
  get_network_id = λ s. 1;
}

abbrev working : Libraries
working = record libraries { new_bindings = λ pool. got 4 }

run-Leaves_example : Leaves client working networks "etherium" (
    run big client working networks configured
      ("head" ∷ "archive" ∷ [])
      run_of
      (λ sub. false)
      silent
      cache_options
      []
      true
      "etherium")
run-Leaves_example =
    run-Leaves big client working networks configured ("head" ∷ "archive" ∷ []) run_of
      (λ sub. false) silent cache_options [] true "etherium"
