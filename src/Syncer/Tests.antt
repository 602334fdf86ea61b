-- ===== src/Syncer/Tests.antt =====
-- A chain that knows one contract; an entry, and an event, of that contract.
use downloader.Base.{
  ℕ, ◌≡◌, refl, Bool, true, false, none, some, List, [], ◌∷◌, ◌++◌, map, any, nat_eq, if◌then◌else◌,
  ret, arith,
}
use downloader.Models.Columns.{decode}
use downloader.Models.Table.{first, get_contract_by_address}
use downloader.Unpacker.Library.{Solgo, FilePath}
use downloader.Graph.Samples.{codec, table, entity}
use downloader.Syncer.Rpc.{Remote, responded, rpc_unpack}
use downloader.Syncer.Rpc.Ends.{Answers, rpc_unpack-Answers}
use downloader.Syncer.Rpc.Cached.{Item, IsCached, response_of, response_with, rpc_unpack-cached}
use downloader.State.{
  Descriptor, archive_start_block_number, archive_end_block_number, latest_inspected_archive_block,
}
use downloader.State.Store.{set, load}
use downloader.State.Store.Samples.{client, big, big-IsBig, client-IsStoring}
use downloader.State.Store.Recovery.{fresh, starts}
use downloader.Subscribers.{Manager, get}
use downloader.Subscribers as Subscribers
use downloader.Subscribers.Blocks.{Subscriber, not_active, World, set_in}
use downloader.Subscribers.Archive.{ArchiveBlock, new_archive_block, consulted, first_block}
use downloader.Subscribers.Archive as Archive
use downloader.Subscribers.Archive.Range.{numbers}
use downloader.Subscribers.Samples.{at_start}
use downloader.Subscribers.Samples as Samples
use downloader.Models.{Contract}
use downloader.Syncer.Blocks.{Ethereum, Shared, block_interceptor, process_entry}
use downloader.Syncer.Blocks.Goroutine.{Marks, process_entry-visits}
use downloader.Syncer.Blocks.Spawned.{deployed, start-deployed}
use downloader.Syncer.Blocks.Resumption.{load-first_block}
use downloader.Syncer.Injection.{
  Built, get_by_type, inject_subscribers, archive_block, inject_subscribers_lem,
}
use downloader.Syncer.Command.{Arguments, ended, unpack_command, unpack_command-swallows}
use downloader.Unpacker.States.{discover_state, error_state}
use downloader.Unpacker.Assembly.{unpack, at}
use downloader.Unpacker.Entry.{Job}
use downloader.Unpacker.Samples.{small_solgo, small_store, config, small-IsCalm, header}
use downloader.Unpacker.Runs.{IsUnpacked}
use downloader.Syncer.{
  got, Chain, Entry, Unpack, replied, entry_of, unpack_from_entry, unpacker_interceptor,
}
use downloader.Syncer.Delivery.{
  start, filled, IsKnown, unpack_from_entry-visits, unpacker_interceptor-resolves,
}

abbrev small_chain : Chain Bool
small_chain = record {
  new_contract = λ network addr. got false;
  discover_chain_info = λ c. got c;
  get_block = λ c. some header;
  get_transaction = λ c. some (record { tx_hash = 8 });
  get_receipt = λ c. some (record { contract_address = 9 });
  set_block = λ h c. c;
  set_transaction = λ t c. c;
  set_receipt = λ r c. c;
  to_network = λ n. "ethereum";
  marshal_binary = λ event. got (if event.resolved then 1 ∷ [] else 0 ∷ []);
  publish = λ id data_bytes. none;
}

abbrev event : Unpack
event = record { network_id = 1; address = 9; correlation_id = "id"; resolved = false }

abbrev entry : Entry
entry = record {
  network = "ethereum";
  network_id = 1;
  header = none;
  creator_addr = 2;
  tx = none;
  receipt = none;
  contract_addr = 9;
}

abbrev never : ℕ → Bool
never n = false

entry-IsKnown :
    IsKnown small_solgo small_store config small_chain never (λ n. refl) entry false header
entry-IsKnown = record {
  made = false;
  new_contract_is = refl;
  chain_info_is = refl;
  block_is = refl;
  has_tx = refl;
  has_receipt = refl;
}

unpack_from_entry-visits_example :
    let e1 : Entry =
      filled small_solgo small_store config small_chain never (λ n. refl) entry false in
    let j : Job small_solgo small_store =
      start small_solgo small_store config small_chain never (λ n. refl) e1 false [] [] in
    (j' : Job small_solgo small_store) × IsUnpacked small_solgo small_store config never
      (λ n. refl)
      small-IsCalm
      none
      header
      j
      j'
    × (unpack_from_entry small_solgo small_store config small_chain 7 never entry discover_state []
          []
        ≡ some (ret (replied none j')))
unpack_from_entry-visits_example =
    unpack_from_entry-visits small_solgo small_store config small_chain never (λ n. refl)
      small-IsCalm entry false header none [] [] entry-IsKnown refl refl refl

unpacker_interceptor-resolves_example :
    let j : Job small_solgo small_store =
      start small_solgo small_store config small_chain never
        (λ n. refl)
        (entry_of small_solgo small_store config small_chain event)
        false
        []
        [] in
    (unpacker_interceptor small_solgo small_store config small_chain 1 never event [] []
      ≡ some (
          ret (
            replied none j,
            record event { resolved = true },
            record { subject = "id"; data_bytes = 1 ∷ [] } ∷ [],
          )))
    × (unpack small_solgo small_store config 1 never discover_state j
        ≡ some (
            ret (
              none,
              at small_solgo small_store config error_state j (discover_state ∷ error_state ∷ []),
            )))
    × (j.descriptor.processed ≡ false)
unpacker_interceptor-resolves_example =
    unpacker_interceptor-resolves small_solgo small_store config small_chain never (λ n. refl) event
      false false (1 ∷ []) [] [] refl refl refl refl

abbrev args : Arguments
args = record {
  is_hex_address = λ s. true;
  hex_to_address = λ s. 9;
  get_network_from_string = λ s. some s;
  get_network_id = λ s. 1;
}

unpack_command-swallows_example :
    unpack_command small_solgo small_store config small_chain args 1 never "0x09" "ethereum" [] []
    ≡ some (ret (ended none [] []))
unpack_command-swallows_example =
    unpack_command-swallows small_solgo small_store config small_chain args never (λ n. refl) "0x09"
      "ethereum" "ethereum" false false [] [] refl refl refl refl

-- Each block deploys one contract and calls another.
abbrev ethereum : Ethereum ℕ
ethereum = record {
  header = λ n. record { number = n; block_hash = n };
  transactions = λ n. record { tx_hash = n } ∷ record { tx_hash = 0 } ∷ [];
  sender = λ t. some 2;
  to = λ t. if nat_eq t.tx_hash 0 then some 3 else none;
  transaction_receipt = λ t. got (record { contract_address = 9 });
}

abbrev idle : ArchiveBlock client.Server (List Entry)
idle = new_archive_block (at_start [])

abbrev first_set : World client.Server (List Entry)
first_set = (set_in big client archive_start_block_number 5 idle.world).1

abbrev both_set : World client.Server (List Entry)
both_set = (set_in big client archive_end_block_number 7 first_set).1

two_deployments :
    map (λ e. e.creator_addr) (deployed ethereum Samples.small_chain "ethereum" 1 (numbers 5 7))
    ≡ 2 ∷ 2 ∷ []
two_deployments = refl

start-deployed_example :
    Archive.start big client Samples.small_chain
      (block_interceptor ethereum Samples.small_chain.has_client "ethereum" 1 ∷ [])
      Samples.opts
      3
      false
      idle
    ≡ some (
        ret (
          none,
          record {
            status = not_active;
            done = false;
            world = record (consulted Samples.opts both_set) {
              outside =
                  (consulted Samples.opts both_set).outside
                  ++ deployed ethereum Samples.small_chain "ethereum" 1 (numbers 5 7);
            };
          },
        ))
unfolding set
start-deployed_example =
    start-deployed big client ethereum Samples.small_chain Samples.opts "ethereum" 1 3 idle
      first_set both_set refl refl refl refl refl refl (omega arith)

resumes_nothing : load big client fresh [] ≡ (none, fresh)
unfolding load
resumes_nothing = refl

load-first_block_example :
    (d'' : Descriptor) × (load big client fresh ((latest_inspected_archive_block, 7 ∷ []) ∷ [])
      ≡ (none, d''))
    × (first_block Samples.opts d'' ≡ 7)
    × (any (nat_eq 6) (numbers (first_block Samples.opts d'') 7) ≡ false)
unfolding set
load-first_block_example =
    load-first_block big client Samples.opts 7 6 fresh
      (record fresh { latest_inspected_archive_block_number = some 7 }) []
      ((latest_inspected_archive_block, 7 ∷ []) ∷ []) big-IsBig client-IsStoring
      (starts resumes_nothing) refl refl (omega arith) (omega arith)

abbrev cached_solgo : Solgo
cached_solgo = record small_solgo { sources_from_path = λ name path files. some tt }

abbrev remote : Remote cached_solgo
remote = record {
  is_hex_address = λ s. true;
  get_network_from_id = λ n. some "ethereum";
  get_sources = λ c. tt;
}

abbrev item : Item cached_solgo.Sources
item = record { addr = "0x09"; contract = entity 1; sources = tt }

item-IsCached :
    IsCached cached_solgo codec "UNIQUE" config small_chain remote 7 never 1 "ethereum" table []
      item
unfolding get_contract_by_address first decode
item-IsCached = record { valid = refl; is_stored = refl; has_sources = refl }

rpc_unpack-cached_example :
    rpc_unpack cached_solgo codec "UNIQUE" config small_chain remote 7 never
      (record { network_id = 1; addresses = "0x09" ∷ "0x09" ∷ [] })
      table
      []
    ≡ some (
        ret (
          responded (
            response_with cached_solgo codec "UNIQUE" config small_chain remote 7 never 1 "ethereum"
              table []
              (map
                (response_of cached_solgo codec "UNIQUE" config small_chain remote 7 never 1
                  "ethereum" table [])
                (item ∷ item ∷ [])))))
rpc_unpack-cached_example =
    rpc_unpack-cached cached_solgo codec "UNIQUE" config small_chain remote 7 never 1 "ethereum"
      table [] (item ∷ item ∷ []) refl (item-IsCached, (item-IsCached, tt))

abbrev configured : List Subscriber
configured = Samples.opts ∷ record Samples.opts { type = "head" } ∷ []

inject_subscribers_lem_example :
    (m' : Manager Built) × (inject_subscribers "ethereum" 1 configured
        ("head" ∷ "archive" ∷ [])
        (record { subs = [] })
      ≡ (none, m'))
    × (get "archive" m' ≡ Subscribers.got (archive_block "ethereum" 1 Samples.opts))
unfolding get_by_type
inject_subscribers_lem_example =
    inject_subscribers_lem "ethereum" 1 configured ("head" ∷ "archive" ∷ []) "archive"
      (record { subs = [] }) (refl, refl, refl, (refl, refl, refl, tt))

abbrev deployment : Entry
deployment = record entry { header = some header; tx = some (record { tx_hash = 8 }) }

abbrev shared : Shared client.Server (List Contract) (List FilePath)
shared = record { descriptor = fresh; server = []; db = []; files = [] }

process_entry-visits_example :
    (j' : Job small_solgo small_store) × (g' : Shared client.Server (List Contract) (List FilePath))
    × IsUnpacked small_solgo small_store config never
        (λ n. refl)
        small-IsCalm
        none
        header
        (start small_solgo small_store config small_chain never
          (λ n. refl)
          (record deployment { receipt = some (record { contract_address = 9 }) })
          false
          []
          [])
        j'
    × Marks small_solgo small_store config small_chain big client ethereum never
        (λ n. refl)
        small-IsCalm
        "archive"
        100
        shared
        g'
    × (g'.db ≡ j'.db)
    × (g'.files ≡ j'.files)
    × (process_entry small_solgo small_store config small_chain big client ethereum 7 never
          "archive" deployment
          (record { tx_hash = 8 })
          shared
        ≡ some (ret g'))
process_entry-visits_example =
    process_entry-visits small_solgo small_store config small_chain big client ethereum never
      (λ n. refl) small-IsCalm "archive" deployment header (record { tx_hash = 8 })
      (record { contract_address = 9 }) false none shared refl refl refl refl refl refl

-- The storage has no contract of this network.
rpc_unpack-Answers_example : Answers cached_solgo codec "UNIQUE" config small_chain remote 2 (
    rpc_unpack cached_solgo codec "UNIQUE" config small_chain remote 8 never
      (record { network_id = 2; addresses = "0x09" ∷ "0x09" ∷ [] })
      table
      [])
rpc_unpack-Answers_example =
    rpc_unpack-Answers cached_solgo codec "UNIQUE" config small_chain remote never
      (record { network_id = 2; addresses = "0x09" ∷ "0x09" ∷ [] }) table []
