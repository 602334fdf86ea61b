-- ===== src/Subscribers/Samples.antt =====
-- A chain whose blocks are their numbers, and a range of it.
use downloader.Base.{ℕ, true, none, some, [], nat_eq, if◌then◌else◌}
use downloader.State.Store.Recovery.{fresh}
use downloader.State.Store.Samples.{client}
use downloader.Subscribers.Blocks.{Subscriber, Chain, World}

-- The client does not find block 6.
abbrev pub small_chain : Chain ℕ
small_chain = record {
  get_network_from_string = λ s. some s;
  has_client = λ s. true;
  block_by_number = λ n. if nat_eq n 6 then none else some n;
  head = some 9;
  number = λ n. n;
}

abbrev pub opts : Subscriber
opts = record {
  enabled = true;
  network = "ethereum";
  resumption = true;
  subject_name = "";
  type = "archive";
  start_block_number = 5;
  end_block_number = 7;
}

abbrev pub at_start : {W : Type 0} → W → World client.Server W
at_start w = record { descriptor = fresh; server = []; outside = w }
