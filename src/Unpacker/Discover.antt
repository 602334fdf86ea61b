-- ===== src/Unpacker/Discover.antt =====
-- pkg/unpacker/discover.go and error.go: the first handler of the pipeline, and the error handler.
use downloader.Base.{
  Bool, false, not, ◌&&◌, Option, none, some, ret, ◌>>=◌, ◌>>◌, deref, if◌then◌else◌,
}
use downloader.Machine.{no_state}
use downloader.Models.{Contract, is_completed}
use downloader.Unpacker.States.{discover_state, metadata_state, error_state, done_state}
use downloader.Unpacker.Descriptor.{
  Header, set_next_state, has_next_state, set_contract_model, append_completed_state,
}
use downloader.Unpacker.Library.{Solgo, Store, Config, no_rows, lookup_failed, stored}
use downloader.Unpacker.Entry.{
  Job, no_header, no_transaction, no_receipt, storage_failed, Processed, with_descriptor, log_line,
}

-- `contract != nil && contract.IsCompleted()`.
abbrev pub is_done : Option Contract → Bool
is_done none = false
is_done (some c) = is_completed c

module _ (S : Solgo) (W : Store) (cfg : Config) where
  open S use {SolContract, is_valid}

  -- To the state that was asked for, once, or on to the metadata.
  unfoldable pub onward : Job S W → Processed S W
  onward j =
      if has_next_state j.descriptor
      then ret
          (j.descriptor.next_state, with_descriptor (set_next_state no_state j.descriptor) j, none)
      else ret (metadata_state, j, none)

  -- What the storage holds becomes the model; a completed contract is not processed again.
  unfoldable pub settle : Option Contract → Job S W → Processed S W
  unfolding onward is_completed append_completed_state
  settle found j =
      let d = set_contract_model found j.descriptor in
      if is_done found && not cfg.force_reprocess
      then ret (done_state, with_descriptor d j, none)
      else onward (with_descriptor (append_completed_state discover_state d) j)

  unfoldable pub look_up : Header → Job S W → Processed S W
  unfolding settle
  look_up h j =
      elim (W.get_contract_by_unique_index j.descriptor.network_id h.number j.descriptor.addr
        j.db) [
          | lookup_failed e ↦ (do
            log_line j.descriptor
            c ← deref j.descriptor.contract
            ret (error_state, j, some (storage_failed e)))
          | no_rows ↦ settle none j
          | stored found ↦ settle (some found) j
        ]

  -- A contract without valid code has destroyed itself.
  unfoldable pub probe : Header → Job S W → Processed S W
  unfolding look_up
  probe h j = elim j.descriptor.contract [
    | none ↦ look_up h j
    | some c ↦ (do
      valid ← is_valid c
      look_up h (with_descriptor (record (j.descriptor) { self_destructed = not valid }) j))
  ]

  -- `DiscoverContractHandler.Process`.
  unfoldable pub discover : Job S W → Processed S W
  unfolding probe
  discover j = elim j.descriptor.header [
    | none ↦ ret (error_state, j, some (no_header j.descriptor.addr))
    | some h ↦ elim j.descriptor.tx [
      | none ↦ ret (error_state, j, some (no_transaction j.descriptor.addr))
      | some t ↦ elim j.descriptor.receipt [
        | none ↦ ret (error_state, j, some (no_receipt j.descriptor.addr))
        | some r ↦ probe h j
      ]
    ]
  ]

  -- `ErrorContractHandler.Process`.
  unfoldable pub handle_error : Job S W → Processed S W
  handle_error j = do
    log_line j.descriptor
    c ← deref j.descriptor.contract
    ret (done_state, j, none)
