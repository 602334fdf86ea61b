-- ===== src/Unpacker/Flow/Providing.antt =====
-- The handler between the metadata and the sources: where the library returns, it goes on with the
-- sources that the cache or a provider has.
use downloader.Base.{
  ◌≡◌, refl, ◌∙◌, not, ◌&&◌, some, ◌∷◌, ◌==◌, ret, Returns, returns, Returns-bind, Returns-option,
  Returns-if, Returns-then, Returns-guard, Returns-deref, text_contains,
}
use downloader.Unpacker.States.{source_providers_state, sources_state}
use downloader.Unpacker.Descriptor.{Descriptor, set_contract}
use downloader.Unpacker.Library.{Solgo, Store, Config}
use downloader.Unpacker.Entry.{Job, get_storage_cache_path}
use downloader.Models.{Contract}
use downloader.Unpacker.Providers.{
  cached_of, load_cached, try_cache, try_provider, process_providers,
}
use downloader.Unpacker.Flow.{
  IsCalm, IsPrepared, log_line-Returns, log_unless-Returns, remove_failed-Follows,
}
use downloader.Unpacker.Flow.Stages.{Handles, Replays, finish_after}

module _ (S : Solgo) (W : Store) (cfg : Config) (calm : IsCalm S) where
  open S use {SolContract}

  path-Returns :
      (d : Descriptor SolContract)
      → IsPrepared d
      → Returns (λ _. Unit {0}) (get_storage_cache_path cfg d)
  unfolding get_storage_cache_path
  path-Returns d p = Returns-bind _ _ _ _ (Returns-deref d.header p.0) λ h _. returns tt

  load_cached-Returns :
      (m : Contract) (files : S.Files) (c : SolContract) (d : Descriptor SolContract)
      → IsPrepared d
      → Returns (Replays S W cfg calm source_providers_state d) (load_cached S W cfg m files c d)
  unfolding load_cached
  load_cached-Returns m files c d p =
      let Q = Replays S W cfg calm source_providers_state d in
      let same : Returns Q (ret d) = returns ((p, λ t _ h. h), refl) in
      Returns-if Q (m.source_available && not (m.name == "")) _ _
        (λ _.
          Returns-bind (λ _. Unit {0}) Q _ _ (path-Returns d p)
            λ path _.
              Returns-option Q (S.sources_from_path m.name (cfg.contracts_path ∷ path) files) _ _
                (λ sources _.
                  let d1 : Descriptor SolContract =
                    set_contract (some (S.use_cached sources (cached_of m) c)) d in
                  returns
                    (remove_failed-Follows source_providers_state d1 (p.0, p.1, refl, p.3), refl))
                (λ _. Returns-then Q _ (ret d) (log_line-Returns d p) same))
        (λ _. same)

  try_cache-Returns :
      (c : SolContract) (files : S.Files) (d : Descriptor SolContract)
      → IsPrepared d
      → Returns (Replays S W cfg calm source_providers_state d) (try_cache S W cfg c files d)
  unfolding try_cache
  try_cache-Returns c files d p =
      let Q = Replays S W cfg calm source_providers_state d in
      let same : Returns Q (ret d) = returns ((p, λ t _ h. h), refl) in
      Returns-if Q (S.has_sources c) _ _ (λ _. same)
        (λ _.
          Returns-option Q d.contract_model _ _ (λ m _. load_cached-Returns m files c d p)
            (λ _. same))

  try_provider-Returns :
      (c : SolContract) (d : Descriptor SolContract)
      → IsPrepared d
      → Returns (Replays S W cfg calm source_providers_state d) (try_provider S W cfg c d)
  unfolding try_provider
  try_provider-Returns c d p =
      let Q = Replays S W cfg calm source_providers_state d in
      Returns-if Q (S.has_sources c) _ _ (λ _. returns ((p, λ t _ h. h), refl))
        (λ _.
          Returns-bind (λ _. Unit {0}) Q _ _ (calm.discover_source_code_returns c)
            λ (c1, err) _.
              let d1 : Descriptor SolContract = set_contract (some c1) d in
              let p1 : IsPrepared d1 = (p.0, p.1, refl, p.3) in
              let same : Returns Q (ret d1) = returns ((p1, λ t _ h. h), refl) in
              Returns-option Q err _ _
                (λ e _.
                  Returns-then Q _ (ret d1)
                    (log_unless-Returns (text_contains e "contract source code not verified") d1 p1)
                    same)
                (λ _. returns (remove_failed-Follows source_providers_state d1 p1, refl)))

  -- Where the library returns, the providers' handler takes a prepared job on to the sources without an
  -- error, found or not: its own state is completed or has failed, what was accounted for still is, and
  -- storage, files and the contract's key are as before.
  pub process_providers-Returns :
      (j : Job S W)
      → IsPrepared j.descriptor
      → Returns (Handles sources_state source_providers_state j) (process_providers S W cfg j)
  unfolding process_providers
  process_providers-Returns j p =
      let Q = Handles sources_state source_providers_state j in
      Returns-guard Q _ _ _ p.3 (
        Returns-bind (λ c. j.descriptor.contract ≡ some c) Q _ _
          (Returns-deref j.descriptor.contract p.2)
          λ c _.
            Returns-bind (Replays S W cfg calm source_providers_state j.descriptor) Q _ _
              (try_cache-Returns c j.files j.descriptor p)
              λ d1 (f1, m1).
                Returns-bind (λ c. d1.contract ≡ some c) Q _ _ (Returns-deref d1.contract f1.0.2)
                  λ c1 _.
                    Returns-bind (Replays S W cfg calm source_providers_state d1) Q _ _
                      (try_provider-Returns c1 d1 f1.0)
                      λ d2 (f2, m2). returns (
                        finish_after S W cfg calm source_providers_state sources_state j d2
                          (f2.0, λ t n h. f2.1 t n (f1.1 t n h)) (m2 ∙ m1)))
