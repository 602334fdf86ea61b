-- ===== src/Unpacker/Flow.antt =====
-- What the handlers of pkg/unpacker promise where the library returns: each goes on to the next
-- state, and no state that was completed or had failed is forgotten.
pub mod Stages
pub mod Providing
pub mod Writing
pub mod Storing
pub mod Opening
use downloader.Base.{
  String, ℕ, ◌≡◌, refl, ◌∙◌, Bool, true, false, not, ◌||◌, ◌&&◌, Option, none, some, ◌==◌, ==_iff,
  ==_refl, Bool-cases, inl, inr, contains, Outcome, ret, ◌>>=◌, ◌>>◌, deref, Returns, returns,
  Returns-bind, Returns-option, Returns-if, Returns-deref, Returns-mono, is_some, text_contains,
  if◌then◌else◌, arith,
}
use downloader.Machine.{State}
use downloader.Models.{Contract}
use downloader.Unpacker.States.{
  discover_state, metadata_state, source_providers_state, sources_state, parser_state,
  constructor_state, final_state, done_state,
}
use downloader.Unpacker.Descriptor.{
  Header, Transaction, Descriptor, set_contract, has_completed_state, has_failed_state,
  append_completed_state, append_failed_state, remove_failed_state,
}
use downloader.Unpacker.Descriptor.Lists.{
  has_completed_state-append, has_failed_state-append, has_failed_state-remove,
}
use downloader.Unpacker.Library.{FilePath, Solgo, Store, Config}
use downloader.Unpacker.Entry.{Job, Failure, Processed, log_line}
use downloader.Unpacker.Metadata.{
  complete, log_unless, find_metadata, parse_sources, find_constructor, process_metadata,
  process_sources, process_parser, process_constructor,
}

-- Every call of the library returns.
pub record IsCalm (S : Solgo) : Type 0 where
  pub is_valid_returns : (c : S.SolContract) → Returns (λ _. Unit {0}) (S.is_valid c)
  pub has_constructor_returns : (c : S.SolContract) → Returns (λ _. Unit {0}) (S.has_constructor c)
  pub discover_metadata_returns :
      (c : S.SolContract) → Returns (λ _. Unit {0}) (S.discover_metadata c)
  pub discover_source_code_returns :
      (c : S.SolContract) → Returns (λ _. Unit {0}) (S.discover_source_code c)
  pub parse_returns : (c : S.SolContract) → Returns (λ _. Unit {0}) (S.parse c)
  pub discover_constructor_returns :
      (c : S.SolContract) → Returns (λ _. Unit {0}) (S.discover_constructor c)
  pub write_sources_returns :
      (c : S.SolContract) (path : FilePath) (files : S.Files)
      → Returns (λ _. Unit {0}) (S.write_sources c path files)

module _ {C : Type 0} where
  -- The descriptor has what the handlers read, and `discover` is completed.
  abbrev pub IsPrepared : Descriptor C → Type 0
  IsPrepared d =
      (is_some d.header ≡ true)
      × (is_some d.tx ≡ true)
      × (is_some d.contract ≡ true)
      × (has_completed_state discover_state d ≡ true)

  -- What says which contract the descriptor is about, and what the storage had of it.
  abbrev pub identity : Descriptor C → Option Contract × ℕ × ℕ × Option Header × Option Transaction
  identity d = (d.contract_model, d.network_id, d.addr, d.header, d.tx)

  -- The state is completed or has failed.
  abbrev pub accounted : State → Descriptor C → Bool
  accounted s d = if has_completed_state s d then true else has_failed_state s d

  -- The descriptor is still prepared, and all that was accounted for still is, but for `except`.
  abbrev pub Follows : State → Descriptor C → Descriptor C → Type 0
  Follows except d d' =
      IsPrepared d'
      × ((t : State) → (except == t) ≡ false → accounted t d ≡ true → accounted t d' ≡ true)

  abbrev pub Continues : Descriptor C → Descriptor C → Type 0
  Continues d d' = IsPrepared d' × ((t : State) → accounted t d ≡ true → accounted t d' ≡ true)

  pub Continues-refl : (d : Descriptor C) → IsPrepared d → Continues d d
  Continues-refl d p = (p, λ t h. h)

  pub log_line-Returns : (d : Descriptor C) → IsPrepared d → Returns (λ _. Unit {0}) (log_line d)
  log_line-Returns d p =
      Returns-bind _ _ _ _ (Returns-deref d.header p.0)
        λ h _. Returns-bind _ _ _ _ (Returns-deref d.tx p.1) λ t _. returns tt

  pub log_unless-Returns :
      (b : Bool) (d : Descriptor C) → IsPrepared d → Returns (λ _. Unit {0}) (log_unless b d)
  log_unless-Returns true d p = returns tt
  log_unless-Returns false d p = log_line-Returns d p

  pub append_completed-Continues :
      (s : State) (d : Descriptor C) → IsPrepared d → Continues d (append_completed_state s d)
  append_completed-Continues s d p = (
    (
      unfold append_completed_state in p.0,
      unfold append_completed_state in p.1,
      unfold append_completed_state in p.2,
      ground (arith, has_completed_state-append s discover_state d),
    ),
    λ t h. ground (arith, has_completed_state-append s t d, failed t),
  )
    where
      failed : (t : State) → has_failed_state t (append_completed_state s d) ≡ has_failed_state t d
      failed t = unfold append_completed_state in refl

  pub append_failed-Continues :
      (s : State) (d : Descriptor C) → IsPrepared d → Continues d (append_failed_state s d)
  append_failed-Continues s d p = (
    (
      unfold append_failed_state in p.0,
      unfold append_failed_state in p.1,
      unfold append_failed_state in p.2,
      unfold append_failed_state in p.3,
    ),
    λ t h. ground (arith, has_failed_state-append s t d, completed t),
  )
    where
      completed :
          (t : State) → has_completed_state t (append_failed_state s d) ≡ has_completed_state t d
      completed t = unfold append_failed_state in refl

  pub append_completed-accounts :
      (s : State) (d : Descriptor C) → accounted s (append_completed_state s d) ≡ true
  append_completed-accounts s d = ground (arith, has_completed_state-append s s d, ==_refl s)

  pub append_failed-accounts :
      (s : State) (d : Descriptor C) → accounted s (append_failed_state s d) ≡ true
  append_failed-accounts s d = ground (arith, has_failed_state-append s s d, ==_refl s)

  pub remove_failed-Follows :
      (s : State) (d : Descriptor C) → IsPrepared d → Follows s d (remove_failed_state s d)
  remove_failed-Follows s d p = (
    (
      unfold remove_failed_state in p.0,
      unfold remove_failed_state in p.1,
      unfold remove_failed_state in p.2,
      unfold remove_failed_state in p.3,
    ),
    λ t n h. ground (arith, has_failed_state-remove s t d, completed t),
  )
    where
      completed :
          (t : State) → has_completed_state t (remove_failed_state s d) ≡ has_completed_state t d
      completed t = unfold remove_failed_state in refl

  pub complete-Continues :
      (s : State) (d : Descriptor C)
      → IsPrepared d
      → Continues d (complete s d) × (accounted s (complete s d) ≡ true)
  complete-Continues s d p = elim (Bool-cases (has_failed_state s d)) [
    | inl e ↦ rw e (Continues-refl d p, ground (arith, e))
    | inr e ↦ rw e (append_completed-Continues s d p, append_completed-accounts s d)
  ]

  pub Follows-complete :
      (s : State) (d d1 : Descriptor C)
      → Follows s d d1
      → Continues d (complete s d1) × (accounted s (complete s d1) ≡ true)
  Follows-complete s d d1 (p, k) =
      let (c, a) = complete-Continues s d1 p in
      (
        (
          c.0,
          λ t h. elim (Bool-cases (s == t)) [
            | inl e ↦ rw (← (==_iff s t).0 e) a
            | inr e ↦ c.1 t (k t e h)
          ],
        ),
        a,
      )

  pub Continues-trans : (d d1 d2 : Descriptor C) → Continues d d1 → Continues d1 d2 → Continues d d2
  Continues-trans d d1 d2 a b = (b.0, λ t h. b.1 t (a.1 t h))

  pub complete-identity : (s : State) (d : Descriptor C) → identity (complete s d) ≡ identity d
  unfolding append_completed_state
  complete-identity s d = ground arith
