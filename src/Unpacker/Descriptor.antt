-- ===== src/Unpacker/Descriptor.antt =====
-- pkg/unpacker/descriptor.go: the data that the pipeline carries for one contract.
pub mod Lists
use downloader.Base.{
  String, ℕ, ◌≡◌, Bool, true, false, not, Option, none, some, List, [], ◌∷◌, ◌++◌, ◌==◌, contains,
  if◌then◌else◌,
}
use downloader.Machine.{State, no_state}
use downloader.Models.{Contract}

-- The parts of go-ethereum's header, transaction and receipt that the program reads.
pub record Header : Type 0 where
  pub number : ℕ
  pub block_hash : ℕ

pub record Transaction : Type 0 where
  pub tx_hash : ℕ

pub record Receipt : Type 0 where
  pub contract_address : ℕ

-- `C` is the library's contract.
pub record Descriptor (C : Type 0) : Type 0 where
  pub contract : Option C
  pub contract_model : Option Contract
  pub network : String
  pub network_id : ℕ
  pub addr : ℕ
  pub header : Option Header
  pub tx : Option Transaction
  pub receipt : Option Receipt
  pub next_state : State
  pub completed_states : List State
  pub failed_states : List State
  pub self_destructed : Bool
  pub is_partial : Bool
  pub processed : Bool

-- The loop of `AppendCompletedState` and `AppendFailedState`.
pub append_new : State → List State → List State
append_new s states = if contains s states then states else states ++ s ∷ []

-- The loop of `RemoveFailedState`.
pub drop_state : State → List State → List State
drop_state s [] = []
drop_state s (x ∷ xs) = if x == s then drop_state s xs else x ∷ drop_state s xs

module _ {C : Type 0} where
  unfoldable pub new_descriptor : String → ℕ → ℕ → Descriptor C
  new_descriptor network network_id addr = record {
    contract = none;
    contract_model = none;
    network = network;
    network_id = network_id;
    addr = addr;
    header = none;
    tx = none;
    receipt = none;
    next_state = no_state;
    completed_states = [];
    failed_states = [];
    self_destructed = false;
    is_partial = false;
    processed = false;
  }

  abbrev pub set_contract : Option C → Descriptor C → Descriptor C
  set_contract c d = record d { contract = c }

  abbrev pub set_contract_model : Option Contract → Descriptor C → Descriptor C
  set_contract_model c d = record d { contract_model = c }

  abbrev pub has_next_state : Descriptor C → Bool
  has_next_state d = not (d.next_state == no_state)

  abbrev pub set_next_state : State → Descriptor C → Descriptor C
  set_next_state s d = record d { next_state = s }

  abbrev pub has_completed_state : State → Descriptor C → Bool
  has_completed_state s d = contains s d.completed_states

  abbrev pub has_failed_state : State → Descriptor C → Bool
  has_failed_state s d = contains s d.failed_states

  unfoldable pub append_completed_state : State → Descriptor C → Descriptor C
  unfolding append_new
  append_completed_state s d = record d { completed_states = append_new s d.completed_states }

  unfoldable pub append_failed_state : State → Descriptor C → Descriptor C
  unfolding append_new
  append_failed_state s d = record d { failed_states = append_new s d.failed_states }

  unfoldable pub remove_failed_state : State → Descriptor C → Descriptor C
  unfolding drop_state
  remove_failed_state s d = record d { failed_states = drop_state s d.failed_states }

  pub append_completed_states : List State → Descriptor C → Descriptor C
  append_completed_states [] d = d
  append_completed_states (s ∷ states) d =
      append_completed_states states (append_completed_state s d)

  pub append_failed_states : List State → Descriptor C → Descriptor C
  append_failed_states [] d = d
  append_failed_states (s ∷ states) d = append_failed_states states (append_failed_state s d)

  pub remove_failed_states : List State → Descriptor C → Descriptor C
  remove_failed_states [] d = d
  remove_failed_states (s ∷ states) d = remove_failed_states states (remove_failed_state s d)
