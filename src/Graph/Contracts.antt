-- ===== src/Graph/Contracts.antt =====
-- pkg/graph/contracts.go: the query for contracts, page by page, and the contract of an address; with
-- `EncodeCursor` and `DecodeCursor` of pkg/models. SQLite orders by id; what goqu makes of a limit,
-- what SQLite compares a number and a text to, and base64 and gob are parameters.
use downloader.Base.{
  ℕ, ◌^◌, ◌%◌, ◌-◌, String, Bool, true, false, ◌&&◌, ◌||◌, Option, none, some, List, [], ◌∷◌, ◌++◌,
  nat_eq, ltb, if◌then◌else◌, filter, any, length, contains, Outcome, ret, ◌>>=◌, deref,
}
use downloader.State.{ℤ, pos, negsuc}
use downloader.Options.{get_network_by_id}
use downloader.Options as Options
use downloader.Models.{Contract, Row, Codec}
use downloader.Models.Columns.{Found, found, failed, decode}
use downloader.Models.Columns as Columns
use downloader.Models.Table.{Table, first, same_address}
use downloader.Graph.{Node, Edge, PageInfo, Connection, node_of, network_of}

-- The libraries: base64, the gob encoding of a `big.Int` and its `Int64`, the rows that goqu's `Limit`
-- leaves, and the engine's test of a number against a text.
pub record Library : Type 0 where
  pub base64_encode : List ℕ → String
  pub base64_decode : String → Option (List ℕ)
  pub gob_encode : ℕ → List ℕ
  pub gob_decode : List ℕ → Option ℤ
  pub int64 : ℤ → ℤ
  pub limited : ℕ → List Row → List Row
  pub is_text_of : ℕ → String → Bool

-- Where the engine fails on its own account.
pub record Fault : Type 0 where
  pub at_prepare : Option String
  pub at_exec : Option String
  pub at_next : Option String

pub data Error : Type 0 where
  bad_cursor : Error
  prepare_failed exec_failed next_failed : String → Error
  bad_row : Columns.Error → Error
  no_rows : Error

pub data Answer (A : Type 0) : Type 0 where
  answered : A → Answer A
  refused : Error → Answer A

-- The arguments of the query; `first` is not one that it reads.
pub record ContractArgs : Type 0 where
  pub network_ids : List ℕ
  pub block_numbers : List ℕ
  pub block_hashes : List String
  pub transaction_hashes : List String
  pub addresses : List String
  pub limit : Option ℤ
  pub after : Option String

-- `ORDER BY id ASC`.
abbrev pub place : Row → List Row → List Row
place r [] = r ∷ []
place r (x ∷ rows) = if ltb r.id x.id then r ∷ x ∷ rows else x ∷ place r rows

abbrev pub ordered : List Row → List Row
ordered [] = []
ordered (r ∷ rows) = place r (ordered rows)

-- `id > after`.
abbrev pub above : ℤ → Row → Bool
above (pos n) r = ltb n r.id
above (negsuc n) r = true

-- `uint`, and whether a length is an `int`.
abbrev pub uint : ℤ → ℕ
uint (pos n) = n % 2 ^ 64
uint (negsuc n) = 2 ^ 64 - 1 - n % 2 ^ 64

abbrev pub is_int : ℕ → ℤ → Bool
is_int m (pos n) = nat_eq m n
is_int m (negsuc n) = false

abbrev pub empty : {A : Type 0} → List A → Bool
empty [] = true
empty (x ∷ xs) = false

module _ (lib : Library) where
  unfoldable pub encode_cursor : Contract → String
  encode_cursor c = lib.base64_encode (lib.gob_encode c.id)

  unfoldable pub decode_cursor : String → Option ℤ
  decode_cursor cursor = elim (lib.base64_decode cursor) [
    | none ↦ none
    | some decoded ↦ lib.gob_decode decoded
  ]

  -- The conditions of the arguments, a given list of addresses being tested with the network ids.
  unfoldable pub matches : ContractArgs → Row → Bool
  matches args r =
      (empty args.network_ids || any (nat_eq r.network_id) args.network_ids)
      && ((empty args.addresses || any (λ n. lib.is_text_of n r.address) args.network_ids)
          && ((empty args.block_numbers || any (nat_eq r.block_number) args.block_numbers)
              && ((empty args.block_hashes || contains r.block_hash args.block_hashes)
                  && (empty args.transaction_hashes
                      || contains r.transaction_hash args.transaction_hashes))))

  abbrev pub actual_limit : ContractArgs → ℤ
  actual_limit args = elim args.limit [ none ↦ pos 10 | some limit ↦ limit ]

  -- The rows that the statement selects.
  abbrev pub selected : ContractArgs → ℤ → Table → List Row
  selected args after t =
      lib.limited (uint (actual_limit args))
        (filter (λ r. above after r && matches args r) (ordered t.rows))

  -- `Edges[0]` and `Edges[len - 1]` of a list that starts with the given edge.
  abbrev pub end_cursor : Edge → List Edge → String
  end_cursor e [] = e.cursor
  end_cursor e (x ∷ edges) = end_cursor x edges

  abbrev pub page_info_of : ℤ → List Edge → PageInfo
  page_info_of limit [] = record {
    has_next_page = false;
    has_previous_page = false;
    start_cursor = "";
    end_cursor = "";
  }
  page_info_of limit (e ∷ edges) = record {
    has_next_page = is_int (length (e ∷ edges)) limit;
    has_previous_page = false;
    start_cursor = e.cursor;
    end_cursor = end_cursor e edges;
  }

  module _ (k : Codec) (networks : List Options.Network) where
    -- One row of the loop: the network is read when the query asks for it.
    abbrev pub edge_of : Bool → Contract → Outcome Edge
    edge_of preloaded c =
        if preloaded
        then (do
          n ← deref (get_network_by_id (k.uint64 c.network_id) networks)
          ret (record {
            node = record (node_of k c) { network = some (network_of n) };
            cursor = encode_cursor c;
          }))
        else ret (record { node = node_of k c; cursor = encode_cursor c })

    unfoldable pub scan_rows : Bool → List Edge → List Row → Outcome (Answer (List Edge))
    scan_rows preloaded edges [] = ret (answered edges)
    scan_rows preloaded edges (r ∷ rows) = elim (decode k r) [
      | failed e ↦ ret (refused (bad_row e))
      | found c ↦ (do e ← edge_of preloaded c; scan_rows preloaded (edges ++ e ∷ []) rows)
    ]

    abbrev finish : Fault → ℤ → Answer (List Edge) → Answer Connection
    finish fault limit (refused e) = refused e
    finish fault limit (answered edges) = elim fault.at_next [
      | some e ↦ refused (next_failed e)
      | none ↦ answered (record { edges = edges; page_info = page_info_of limit edges })
    ]

    abbrev pub start_after : ContractArgs → Option ℤ
    start_after args = elim args.after [ none ↦ some (pos 0) | some cursor ↦ decode_cursor cursor ]

    unfoldable pub resolve_contracts :
        Fault → List String → ContractArgs → Table → Outcome (Answer Connection)
    unfolding scan_rows decode_cursor
    resolve_contracts fault preloads args t = elim (start_after args) [
      | none ↦ ret (refused bad_cursor)
      | some after ↦ elim fault.at_prepare [
        | some e ↦ ret (refused (prepare_failed e))
        | none ↦ elim fault.at_exec [
          | some e ↦ ret (refused (exec_failed e))
          | none ↦ (do
            scanned ←
                scan_rows (contains "edges.node.network" preloads) []
                  (selected args (lib.int64 after) t)
            ret (finish fault (actual_limit args) scanned))
        ]
      ]
    ]

    -- The contract of a network and an address, always with its network.
    unfoldable pub resolve_contract : Fault → ℕ → ℕ → Table → Outcome (Answer Node)
    unfolding first
    resolve_contract fault network_id address t = elim fault.at_prepare [
      | some e ↦ ret (refused (prepare_failed e))
      | none ↦ elim fault.at_exec [
        | some e ↦ ret (refused (exec_failed e))
        | none ↦ elim (first (same_address network_id (k.address_hex address)) t.rows) [
          | none ↦ ret (refused no_rows)
          | some r ↦ elim (decode k r) [
            | failed e ↦ ret (refused (bad_row e))
            | found c ↦ (do
              n ← deref (get_network_by_id (k.uint64 c.network_id) networks)
              ret (answered (record (node_of k c) { network = some (network_of n) })))
          ]
        ]
      ]
    ]
