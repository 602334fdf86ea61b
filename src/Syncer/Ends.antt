-- ===== src/Syncer/Ends.antt =====
-- The rounds of the runs that services/syncer starts.
use downloader.Base.{
  ℕ, ◌≡◌, refl, Bool, true, Option, none, some, Outcome, is_some, Bool-cases, inl, inr, String,
}
use downloader.Machine.{State}
use downloader.Unpacker.States.{discover_state}
use downloader.Unpacker.Descriptor.{Transaction}
use downloader.Unpacker.Library.{Solgo, Store, Config}
use downloader.Unpacker.Entry.{Job}
use downloader.Unpacker.Assembly.{unpack}
use downloader.Unpacker.Routes.Ends.{Gives, unpack-Gives}
use downloader.Cache.{Client}
use downloader.State.Store.{Big}
use downloader.Syncer.{
  Attempt, got, wrong, Chain, Entry, Unpack, locate, run_unpack, unpack_from_entry, entry_of,
  unpacker_interceptor, get_descriptor, recovering, result, Reply,
}
use downloader.Syncer.Blocks.{Ethereum, Shared, process_entry}
use downloader.Syncer.Command.{Arguments, unpack_command, entry_for, finish}

module _ {A B : Type 0} where
  pub is_some-option :
      (o : Option A) (f : A → Option B) (g : Option B)
      → is_some g ≡ true
      → ((a : A) → is_some (f a) ≡ true)
      → is_some (elim o [ none ↦ g | some a ↦ f a ]) ≡ true
  is_some-option none f g hg hf = hg
  is_some-option (some a) f g hg hf = hf a

  -- What ends after a run that ends.
  pub is_some-after :
      (o : Option A) (f : A → Option B)
      → is_some o ≡ true
      → ((a : A) → is_some (f a) ≡ true)
      → is_some (elim o [ none ↦ none | some a ↦ f a ]) ≡ true
  is_some-after none f h k = absurd cc
  is_some-after (some a) f h k = k a

  is_some-attempt :
      (a : Attempt A) (f : A → Option B) (g : String → Option B)
      → ((x : A) → is_some (f x) ≡ true)
      → ((e : String) → is_some (g e) ≡ true)
      → is_some (elim a [ wrong e ↦ g e | got x ↦ f x ]) ≡ true
  is_some-attempt (got x) f g hf hg = hf x
  is_some-attempt (wrong e) f g hf hg = hg e

module _ (S : Solgo) (W : Store) (cfg : Config) (chain : Chain S.SolContract) where
  Gives-is_some : (s : State) (r : Option _) → Gives S W cfg s r → is_some r ≡ true
  Gives-is_some s none h = absurd h
  Gives-is_some s (some o) h = refl

  run_unpack-ends :
      (done : ℕ → Bool) (s : State) (e : Entry) (j : Job S W)
      → is_some (run_unpack S W cfg chain 8 done s e j) ≡ true
  run_unpack-ends done s e j =
      is_some-after (unpack S W cfg 8 done s j) (λ r. some (recovering e (result S W cfg chain r)))
        (Gives-is_some s (unpack S W cfg 8 done s j) (unpack-Gives S W cfg done s j)) (λ r. refl)

  pub unpack_from_entry-ends :
      (done : ℕ → Bool) (e : Entry) (s : State) (db : W.Db) (files : S.Files)
      → is_some (unpack_from_entry S W cfg chain 8 done e s db files) ≡ true
  unfolding unpack_from_entry
  unpack_from_entry-ends done e s db files =
      is_some-attempt (locate S W cfg chain e) _ _
        (λ (e1, c).
          run_unpack-ends done s e1
            (record { descriptor = get_descriptor e1 c; db = db; files = files }))
        (λ x. refl)

  unpacker_interceptor-ends :
      (done : ℕ → Bool) (event : Unpack) (db : W.Db) (files : S.Files)
      → is_some (unpacker_interceptor S W cfg chain 8 done event db files) ≡ true
  unfolding unpacker_interceptor
  unpacker_interceptor-ends done event db files =
      let e : Entry = entry_of S W cfg chain event in
      is_some-attempt (chain.new_contract e.network e.contract_addr) _ _
        (λ c.
          is_some-attempt (chain.discover_chain_info c) _ _
            (λ c1.
              is_some-after
                (run_unpack S W cfg chain 8 done discover_state e
                  (record { descriptor = get_descriptor e c1; db = db; files = files }))
                _
                (run_unpack-ends done discover_state e
                  (record { descriptor = get_descriptor e c1; db = db; files = files }))
                (λ r. refl))
            (λ x. refl))
        (λ x. refl)

  process_entry-ends :
      (big : Big) (client : Client) {Block : Type 0} (eth : Ethereum Block) (done : ℕ → Bool)
      (direction : String) (e : Entry) (tx : Transaction) (g : Shared client.Server W.Db S.Files)
      → is_some (process_entry S W cfg chain big client eth 8 done direction e tx g) ≡ true
  unfolding process_entry
  process_entry-ends big client eth done direction e tx g =
      is_some-attempt (eth.transaction_receipt tx) _ _
        (λ receipt.
          let e1 : Entry = record e {
            receipt = some receipt;
            contract_addr = receipt.contract_address;
          } in
          is_some-after (unpack_from_entry S W cfg chain 8 done e1 discover_state g.db g.files) _
            (unpack_from_entry-ends done e1 discover_state g.db g.files) (λ o. refl))
        (λ x. refl)

  finish-ends :
      (args : Arguments) (db : W.Db) (files : S.Files) (o : Option (Outcome (Reply (Job S W))))
      → is_some o ≡ true
      → is_some (finish S W cfg chain args db files o) ≡ true
  finish-ends args db files none h = absurd cc
  finish-ends args db files (some o) h = refl

  unpack_command-ends :
      (args : Arguments) (done : ℕ → Bool) (addr network : String) (db : W.Db) (files : S.Files)
      → is_some (unpack_command S W cfg chain args 8 done addr network db files) ≡ true
  unfolding unpack_command
  unpack_command-ends args done addr network db files =
      elim (Bool-cases (args.is_hex_address addr)) [
        | inr invalid ↦ rw invalid refl
        | inl valid ↦ rw valid (
            is_some-option (args.get_network_from_string network) _ _ refl λ n.
              let e : Entry = entry_for S W cfg chain args n (args.hex_to_address addr) in
              is_some-attempt (chain.new_contract n e.contract_addr) _ _
                (λ c.
                  is_some-attempt (chain.discover_chain_info c) _ _
                    (λ c1. finish-ends args db files _ (
                      run_unpack-ends done discover_state e
                        (record { descriptor = get_descriptor e c1; db = db; files = files })))
                    (λ x. refl))
                (λ x. refl))
      ]
