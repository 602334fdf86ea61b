-- ===== src/Graph/Unpack.antt =====
-- pkg/graph/unpack.go: the mutation that has a contract unpacked and answers with it.
pub mod Answers
mod Tests
use downloader.Base.{
  ℕ, String, ◌≡◌, refl, Bool, true, false, not, ◌&&◌, Option, none, some, List, if◌then◌else◌,
  Outcome, ret, blocks, panics, arith,
}
use downloader.Options as Options
use downloader.Models.{Codec}
use downloader.Models.Table.{Table}
use downloader.Syncer.{Unpack}
use downloader.Graph.{Node}
use downloader.Graph.Contracts.{
  Library, Fault, Error, no_rows, Answer, answered, refused, resolve_contract,
}

-- `fmt.Sprintf` of the correlation id, the JSON of an event, and NATS: `next_msg` is the message that
-- comes back within thirty seconds of the one that was published, with the table as it is by then.
pub record Broker : Type 0 where
  pub correlation : ℕ → String → String
  pub marshal : Unpack → Option (List ℕ)
  pub unmarshal : List ℕ → Option Unpack
  pub subscribe_sync : String → Option String
  pub publish : String → List ℕ → Option String
  pub next_msg : List ℕ → Table → Option (List ℕ) × Table

pub record ContractUnpackRequest : Type 0 where
  pub network_id : ℕ
  pub address : String

pub data Failure : Type 0 where
  subscribe_failed publish_failed : String → Failure
  marshal_failed timed_out decode_failed not_resolved : Failure
  resolve_failed : Error → Failure

pub data Reply : Type 0 where
  got : Node → Reply
  wrong : Failure → Reply

module _ (lib : Library) (k : Codec) (networks : List Options.Network) (broker : Broker) where
  open broker use {correlation, marshal, unmarshal, subscribe_sync, publish, next_msg}

  abbrev pub request_of : ContractUnpackRequest → Unpack
  request_of contract = record {
    network_id = contract.network_id;
    address = k.hex_to_address contract.address;
    correlation_id = correlation contract.network_id contract.address;
    resolved = false;
  }

  abbrev reply_of : Outcome (Answer Node) → Outcome Reply
  reply_of (ret (answered node)) = ret (got node)
  reply_of (ret (refused e)) = ret (wrong (resolve_failed e))
  reply_of blocks = blocks
  reply_of panics = panics

  -- The message that came back, and the lookup that follows.
  unfoldable pub receive : Fault → Option (List ℕ) → Table → Outcome Reply
  receive fault none t = ret (wrong timed_out)
  receive fault (some data_bytes) t = elim (unmarshal data_bytes) [
    | none ↦ ret (wrong decode_failed)
    | some event ↦
        if not event.resolved
        then ret (wrong not_resolved)
        else reply_of (resolve_contract lib k networks fault event.network_id event.address t)
  ]

  -- From the subscription on.
  unfoldable pub ask : Fault → Unpack → Table → Outcome Reply × Table
  unfolding receive
  ask fault request t = elim (subscribe_sync request.correlation_id) [
    | some e ↦ (ret (wrong (subscribe_failed e)), t)
    | none ↦ elim (marshal request) [
      | none ↦ (ret (wrong marshal_failed), t)
      | some data_bytes ↦ elim (publish "contracts:unpack" data_bytes) [
        | some e ↦ (ret (wrong (publish_failed e)), t)
        | none ↦ let (msg, t') = next_msg data_bytes t in (receive fault msg t', t')
      ]
    ]
  ]

  -- What the storage has is the answer if it is complete; an error of the lookup is dropped, a panic
  -- is not.
  unfoldable pub mutation_unpack : Fault → ContractUnpackRequest → Table → Outcome Reply × Table
  unfolding ask
  mutation_unpack fault contract t =
      let request : Unpack = request_of contract in
      elim (resolve_contract lib k networks fault request.network_id request.address t) [
        | blocks ↦ (blocks, t)
        | panics ↦ (panics, t)
        | ret (refused e) ↦ ask fault request t
        | ret (answered node) ↦
            if node.completed && not node.is_partial
            then (ret (got node), t)
            else ask fault request t
      ]
