-- ===== src/Storage.antt =====
-- The storage that the pipeline writes to: the calls of pkg/models that pkg/unpacker makes, on the
-- table of contracts, with the texts of their errors.
pub mod Kept
pub mod Lost
mod Tests
use downloader.Base.{String, joined, ℕ, Option, none, some}
use downloader.Models.{Contract, Codec}
use downloader.Models.Columns.{
  Error, no_rows, query_failed, bad_standards, bad_proxy_implementations, bad_completed_states,
  bad_failed_states, prepare_failed, bad_json, exec_failed, Found, found, failed,
}
use downloader.Models.Table.{
  Table, no_fault, get_contract_by_unique_index, save_contract, update_contract,
}
use downloader.Unpacker.Library.{Store, Lookup}

-- The text of an error, for the statement with the given name. What a JSON helper says is left out.
abbrev pub describe : String → Error → String
describe name no_rows = "sql: no rows in result set"
describe name (query_failed e) = joined "error querying contract by unique index: " e
describe name bad_standards = "failure to decode standards into contract"
describe name bad_proxy_implementations = "failure to decode proxy implementations into contract"
describe name bad_completed_states = "failure to decode completed states into contract"
describe name bad_failed_states = "failure to decode completed states into contract"
describe name (prepare_failed e) = joined "error preparing " (joined name (joined " statement: " e))
describe name bad_json = "error casting failed states to json"
describe name (exec_failed e) = joined "error executing " (joined name (joined " statement: " e))

abbrev answer_of : Found → Lookup
answer_of (found c) = Lookup.stored c
answer_of (failed no_rows) = Lookup.no_rows
answer_of (failed e) = Lookup.lookup_failed (describe "select" e)

abbrev pub text_of : String → Option Error × Table → Option String × Table
text_of name (none, t) = (none, t)
text_of name (some e, t) = (some (describe name e), t)

-- The table as the storage of the pipeline, on an engine that does not fail on its own account.
abbrev pub table_store : Codec → String → Store
table_store k violation = record {
  Db = Table;
  get_contract_by_unique_index = λ network number addr t.
      answer_of (get_contract_by_unique_index k violation no_fault network number addr t);
  save_contract = λ c t. text_of "insert" (save_contract k violation no_fault c t);
  update_contract = λ c t. text_of "update" (update_contract k violation no_fault c t);
}
