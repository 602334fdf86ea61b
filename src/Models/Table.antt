-- ===== src/Models/Table.antt =====
-- `GetContractByUniqueIndex`, `GetContractByAddress`, `SaveContract` and `UpdateContract` of
-- pkg/models/contracts.go over the table `contracts`. The engine is SQLite: a call of it may fail
-- for reasons of its own, which is the argument `fault`; a statement that would give two rows the
-- same network, block and address fails with the engine's text `violation`.
pub mod Lookup
pub mod Index
pub mod Outcomes
use downloader.Base.{
  ℕ, ◌+◌, String, Bool, not, ◌&&◌, Option, none, some, List, [], ◌∷◌, ◌++◌, nat_eq, ◌==◌,
  if◌then◌else◌,
}
use downloader.Models.{Contract, Row, Codec}
use downloader.Models.Columns.{
  Error, no_rows, query_failed, prepare_failed, bad_json, exec_failed, Found, failed, encode,
  decode,
}

-- Where a call of the engine goes wrong: when the statement is prepared, or when it runs.
pub record Fault : Type 0 where
  pub at_prepare : Option String
  pub at_exec : Option String

abbrev pub no_fault : Fault
no_fault = record { at_prepare = none; at_exec = none }

-- The rows in the order of their ids, and the id that the next insert takes.
pub record Table : Type 0 where
  pub rows : List Row
  pub next_id : ℕ

-- `db.QueryRow`: the first row that the condition holds of.
unfoldable pub first : (Row → Bool) → List Row → Option Row
first p [] = none
first p (r ∷ rows) = if p r then some r else first p rows

-- `WHERE network_id = ? AND block_number = ? AND address = ?`, and the UNIQUE index.
abbrev pub same_index : ℕ → ℕ → String → Row → Bool
same_index network block address r =
    nat_eq r.network_id network && (nat_eq r.block_number block && r.address == address)

-- `WHERE network_id = ? AND address = ?`.
abbrev pub same_address : ℕ → String → Row → Bool
same_address network address r = nat_eq r.network_id network && r.address == address

-- `UPDATE … WHERE id = ?`: the row of that id gets the new columns and keeps its creation time.
pub replace : Row → List Row → List Row
replace new [] = []
replace new (r ∷ rows) =
    (if nat_eq r.id new.id then record new { created_at = r.created_at } else r) ∷ replace new rows

-- The row of another id that stands at the index of `r`.
abbrev pub clashes : Row → Row → Bool
clashes new r = not (nat_eq r.id new.id) && same_index new.network_id new.block_number new.address r

abbrev pub has_id : ℕ → Row → Bool
has_id id r = nat_eq r.id id

module _ (k : Codec) (violation : String) where
  query : Option String → Option Row → Found
  query (some e) row = failed (query_failed e)
  query none none = failed no_rows
  query none (some r) = decode k r

  unfoldable pub get_contract_by_unique_index : Fault → ℕ → ℕ → ℕ → Table → Found
  unfolding query first
  get_contract_by_unique_index fault network block address t =
      query fault.at_exec
        (first (same_index (k.uint64 network) (k.uint64 block) (k.address_hex address)) t.rows)

  unfoldable pub get_contract_by_address : Fault → ℕ → ℕ → Table → Found
  unfolding query first
  get_contract_by_address fault network address t =
      query fault.at_exec (first (same_address (k.uint64 network) (k.address_hex address)) t.rows)

  insert_row : Table → Row → Option Error × Table
  unfolding first
  insert_row t r = elim (first (same_index r.network_id r.block_number r.address) t.rows) [
    | some _ ↦ (some (exec_failed violation), t)
    | none ↦ (none, record { rows = t.rows ++ r ∷ []; next_id = t.next_id + 1 })
  ]

  unfoldable pub save_contract : Fault → Contract → Table → Option Error × Table
  unfolding insert_row
  save_contract fault c t = elim fault.at_prepare [
    | some e ↦ (some (prepare_failed e), t)
    | none ↦ elim (encode k t.next_id c.created_at c) [
      | none ↦ (some bad_json, t)
      | some r ↦ elim fault.at_exec [ some e ↦ (some (exec_failed e), t) | none ↦ insert_row t r ]
    ]
  ]

  -- A row that is not there cannot clash.
  update_row : Table → Row → Option Error × Table
  unfolding first replace
  update_row t r = elim (first (has_id r.id) t.rows) [
    | none ↦ (none, t)
    | some _ ↦ elim (first (clashes r) t.rows) [
      | some _ ↦ (some (exec_failed violation), t)
      | none ↦ (none, record t { rows = replace r t.rows })
    ]
  ]

  unfoldable pub update_contract : Fault → Contract → Table → Option Error × Table
  unfolding update_row
  update_contract fault c t = elim fault.at_prepare [
    | some e ↦ (some (prepare_failed e), t)
    | none ↦ elim (encode k c.id c.created_at c) [
      | none ↦ (some bad_json, t)
      | some r ↦ elim fault.at_exec [ some e ↦ (some (exec_failed e), t) | none ↦ update_row t r ]
    ]
  ]
