-- ===== src/Unpacker/Assembly.antt =====
-- pkg/unpacker/machine.go and unpack.go, with the constructors of the handlers: the machine of the
-- pipeline and its run.
pub mod Rounds
use downloader.Base.{
  ℕ, Bool, Option, none, some, List, [], ◌∷◌, Outcome, ret, blocks, panics, ◌>>=◌, ◌≡◌, refl,
}
use downloader.Machine.{
  State, Error, Handler, Machine, new_state_machine, register_state, register_error_state,
  register_final_state,
}
use downloader.Machine.Process.{process}
use downloader.Unpacker.States.{
  discover_state, metadata_state, source_providers_state, sources_state, parser_state,
  constructor_state, final_state, error_state, done_state,
}
use downloader.Unpacker.Library.{Solgo, Store, Config}
use downloader.Unpacker.Entry.{Job, Failure, Processed}
use downloader.Unpacker.Discover.{discover, handle_error}
use downloader.Unpacker.Metadata.{
  process_metadata, process_sources, process_parser, process_constructor,
}
use downloader.Unpacker.Providers.{process_providers}
use downloader.Unpacker.Final.{process_final}

module _ {S : Solgo} {W : Store} where
  -- Every `Enter` and `Exit` returns its data.
  abbrev pub pass : Job S W → Outcome (Job S W × Option Failure)
  pass j = ret (j, none)

  abbrev pub handler : (Job S W → Processed S W) → Handler (Job S W) Failure
  handler f = record { enter = some pass; process = some f; exit = some pass }

module _ (S : Solgo) (W : Store) (cfg : Config) where
  abbrev pub Sm : Type 0
  Sm = Machine (Job S W) Failure

  -- The constructors of the handlers.
  abbrev pub new_discover_contract_handler : Handler (Job S W) Failure
  new_discover_contract_handler = handler (discover S W cfg)

  abbrev pub new_metadata_contract_handler : Handler (Job S W) Failure
  new_metadata_contract_handler = handler (process_metadata S W)

  abbrev pub new_providers_contract_handler : Handler (Job S W) Failure
  new_providers_contract_handler = handler (process_providers S W cfg)

  abbrev pub new_sources_contract_handler : Handler (Job S W) Failure
  new_sources_contract_handler = handler (process_sources S W)

  abbrev pub new_parser_contract_handler : Handler (Job S W) Failure
  new_parser_contract_handler = handler (process_parser S W)

  abbrev pub new_constructor_contract_handler : Handler (Job S W) Failure
  new_constructor_contract_handler = handler (process_constructor S W)

  abbrev pub new_error_contract_handler : Handler (Job S W) Failure
  new_error_contract_handler = handler (handle_error S W cfg)

  abbrev pub new_final_contract_handler : Handler (Job S W) Failure
  new_final_contract_handler = handler (process_final S W cfg)

  unfoldable pub register_machine_states : Sm → Outcome (Option (Error Failure) × Sm)
  unfolding register_state register_error_state register_final_state
  register_machine_states sm = do
    sm ← register_state discover_state new_discover_contract_handler sm
    sm ← register_state metadata_state new_metadata_contract_handler sm
    sm ← register_state source_providers_state new_providers_contract_handler sm
    sm ← register_state sources_state new_sources_contract_handler sm
    sm ← register_state parser_state new_parser_contract_handler sm
    sm ← register_state constructor_state new_constructor_contract_handler sm
    sm ← register_state error_state new_error_contract_handler sm
    (err, sm) ← register_error_state error_state sm
    elim err [
      | some e ↦ ret (some e, sm)
      | none ↦ (do
        sm ← register_state final_state new_final_contract_handler sm
        (err, sm) ← register_final_state done_state sm
        ret (err, sm))
    ]

  -- The registered handlers, in the order of their registration.
  abbrev pub handlers : List (State × Handler (Job S W) Failure)
  handlers =
      (discover_state, new_discover_contract_handler)
      ∷ (metadata_state, new_metadata_contract_handler)
      ∷ (source_providers_state, new_providers_contract_handler)
      ∷ (sources_state, new_sources_contract_handler)
      ∷ (parser_state, new_parser_contract_handler)
      ∷ (constructor_state, new_constructor_contract_handler)
      ∷ (error_state, new_error_contract_handler)
      ∷ (final_state, new_final_contract_handler)
      ∷ []

  -- The machine at a state of its run.
  abbrev pub at : State → Job S W → List State → Sm
  at s j visited = record {
    current_state = s;
    final_state = done_state;
    error_state = error_state;
    states = some handlers;
    transitions = some [];
    carried = j;
    processed_states = visited;
    history = visited;
    is_paused = Bool.false;
    locked = Bool.false;
  }

  pub register_machine_states_lem :
      (s : State) (j : Job S W)
      → register_machine_states (new_state_machine s j) ≡ ret (none, at s j (s ∷ []))
  unfolding register_machine_states new_state_machine
  register_machine_states_lem s j = refl

  -- `Unpack`: the descriptor that it returns is the one that the machine carries, if there is no
  -- error. `none` says that the fuel ran out.
  unfoldable pub unpack :
      ℕ → (ℕ → Bool) → State → Job S W → Option (Outcome (Option (Error Failure) × Sm))
  unfolding register_machine_states new_state_machine
  unpack fuel done s j = elim (register_machine_states (new_state_machine s j)) [
    | blocks ↦ some blocks
    | panics ↦ some panics
    | ret (some e, sm) ↦ some (ret (some e, sm))
    | ret (none, sm) ↦ process fuel done 0 sm
  ]
