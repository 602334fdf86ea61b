-- ===== src/Unpacker/Routes/Stages.antt =====
-- The rounds that a run has left in each state of the pipeline, with a job that was discovered.
use mathlib.Core.Path.{sym}
use downloader.Base.{
  ℕ, ◌+◌, zero, suc, ◌≡◌, refl, subst, true, false, Option, none, List, [], ◌∷◌, ◌==◌, ==_iff,
  Bool-cases, inl, inr, Yields, yields, Yields-then, Yields-any, deref, Yields-ret, arith, lookup,
}
use downloader.Machine.{State, no_state}
use downloader.Unpacker.States.{
  discover_state, metadata_state, source_providers_state, sources_state, parser_state,
  constructor_state, final_state, error_state, done_state,
}
use downloader.Unpacker.Library.{Solgo, Store, Config}
use downloader.Unpacker.Entry.{Job, Failure, Processed, log_line}
use downloader.Unpacker.Discover.{handle_error}
use downloader.Unpacker.Metadata.{
  process_metadata, process_sources, process_parser, process_constructor,
}
use downloader.Unpacker.Providers.{process_providers}
use downloader.Unpacker.Final.{process_final}
use downloader.Unpacker.Assembly.{handlers}
use downloader.Unpacker.Assembly.Rounds.{IsStage}
use downloader.Unpacker.Study.{
  metadata-IsStage, source_providers-IsStage, sources-IsStage, parser-IsStage, constructor-IsStage,
  final-IsStage,
}
use downloader.Unpacker.Routes.{is_discovered, Routed}
use downloader.Unpacker.Routes.Handlers.{
  process_metadata-Routed, process_providers-Routed, process_sources-Routed, process_parser-Routed,
  process_constructor-Routed, process_final-Routed,
}
use downloader.Unpacker.Routes.Rounds.{EndsWithin, EndsWithin-suc, stage-EndsWithin}

-- A property of the names of a list, and of those that are not in it.
abbrev Keys : {V : Type 0} → (State → Type 0) → List (State × V) → Type 0
Keys P [] = Unit
Keys P ((x, v) ∷ xs) = P x × Keys P xs

pub by_key :
    {V : Type 0} (P : State → Type 0) (xs : List (State × V)) (s : State)
    → Keys P xs
    → (lookup s xs ≡ none → P s)
    → P s
by_key P [] s k other = other refl
by_key P ((x, v) ∷ xs) s (p, k) other = elim (Bool-cases (x == s)) [
  | inl e ↦ subst P ((==_iff x s).0 e) p
  | inr e ↦ by_key P xs s k (λ h. other (rw e h))
]

module _ (S : Solgo) (W : Store) (cfg : Config) where
  abbrev pub Ends : ℕ → State → Job S W → Type 0
  Ends f s j = EndsWithin S W cfg f s j

  -- A handler that goes to the one state adds a round to what is left there.
  along :
      (p : Job S W → Processed S W) (s s' : State) (f : ℕ)
      → IsStage S W cfg s p
      → ((j : Job S W) → Yields (Routed S W cfg s' j) (p j))
      → ((j : Job S W) → is_discovered j.descriptor ≡ true → Ends f s' j)
      → (j : Job S W) → is_discovered j.descriptor ≡ true
      → Ends (suc f) s j
  along p s s' f st routed rest j known = stage-EndsWithin S W cfg p s j f st λ t j' e _.
      let g = (Yields-ret (Routed S W cfg s' j) (p j) (t, j', none) (routed j) e).0 known in
      subst (λ x. Ends f x j') (sym g.0) (rest j' g.1)

  -- And it goes back to the discovery with a job that was not discovered.
  pub back :
      (p : Job S W → Processed S W) (s s' : State) (f : ℕ)
      → IsStage S W cfg s p
      → ((j : Job S W) → Yields (Routed S W cfg s' j) (p j))
      → ((j : Job S W) → j.descriptor.next_state ≡ metadata_state → Ends f discover_state j)
      → (j : Job S W) → is_discovered j.descriptor ≡ false
      → Ends (suc f) s j
  back p s s' f st routed rest j unknown = stage-EndsWithin S W cfg p s j f st λ t j' e _.
      let g = (Yields-ret (Routed S W cfg s' j) (p j) (t, j', none) (routed j) e).1 unknown in
      subst (λ x. Ends f x j') (sym g.0) (rest j' g.1)

  error-IsStage : IsStage S W cfg error_state (handle_error S W cfg)
  error-IsStage = record { registered = refl; unfinished = refl }

  pub final_ends : (j : Job S W) → is_discovered j.descriptor ≡ true → Ends 1 final_state j
  final_ends j known =
      stage-EndsWithin S W cfg (process_final S W cfg) final_state j 0 (final-IsStage S W cfg)
        λ t j' e (open_, _).
          let g =
            (Yields-ret _ (process_final S W cfg j) (t, j', none) (process_final-Routed S W cfg j)
                e).0
              known in
          absurd (ground (arith, g, open_, (==_iff t done_state).1))

  handle_error-Yields :
      (j : Job S W)
      → Yields (λ (r : State × Job S W × Option Failure). r.0 ≡ done_state) (handle_error S W cfg j)
  unfolding handle_error
  handle_error-Yields j =
      Yields-then _ (log_line j.descriptor) _
        (Yields-any _ (deref j.descriptor.contract) _ λ c. yields refl)

  pub error_ends : (j : Job S W) → Ends 1 error_state j
  error_ends j =
      stage-EndsWithin S W cfg (handle_error S W cfg) error_state j 0 error-IsStage
        λ t j' e (open_, _).
          let g = Yields-ret _ (handle_error S W cfg j) (t, j', none) (handle_error-Yields j) e in
          absurd (ground (arith, g, open_, (==_iff t done_state).1))

  pub constructor_ends :
      (j : Job S W) → is_discovered j.descriptor ≡ true → Ends 2 constructor_state j
  constructor_ends =
      along (process_constructor S W) constructor_state final_state 1 (constructor-IsStage S W cfg)
        (process_constructor-Routed S W cfg) final_ends

  pub parser_ends : (j : Job S W) → is_discovered j.descriptor ≡ true → Ends 3 parser_state j
  parser_ends =
      along (process_parser S W) parser_state constructor_state 2 (parser-IsStage S W cfg)
        (process_parser-Routed S W cfg) constructor_ends

  pub sources_ends : (j : Job S W) → is_discovered j.descriptor ≡ true → Ends 4 sources_state j
  sources_ends =
      along (process_sources S W) sources_state parser_state 3 (sources-IsStage S W cfg)
        (process_sources-Routed S W cfg) parser_ends

  pub providers_ends :
      (j : Job S W) → is_discovered j.descriptor ≡ true → Ends 5 source_providers_state j
  providers_ends =
      along (process_providers S W cfg) source_providers_state sources_state 4
        (source_providers-IsStage S W cfg) (process_providers-Routed S W cfg) sources_ends

  pub metadata_ends : (j : Job S W) → is_discovered j.descriptor ≡ true → Ends 6 metadata_state j
  metadata_ends =
      along (process_metadata S W) metadata_state source_providers_state 5
        (metadata-IsStage S W cfg) (process_metadata-Routed S W cfg) providers_ends

  pub longer : (k f : ℕ) (s : State) (j : Job S W) → Ends f s j → Ends (k + f) s j
  longer zero f s j h = subst (λ x. Ends x s j) (omega arith) h
  longer (suc k) f s j h =
      subst (λ x. Ends x s j) (omega arith) (EndsWithin-suc S W cfg (k + f) s j (longer k f s j h))

  -- From any state but the first with a discovered job.
  pub reached :
      (j : Job S W) (t : State)
      → is_discovered j.descriptor ≡ true
      → (lookup t (handlers S W cfg) ≡ none → (t == no_state) ≡ true)
      → (t == no_state) ≡ false
      → (t == discover_state) ≡ false
      → Ends 6 t j
  reached j t known handled nonzero =
      by_key (λ x. (x == discover_state) ≡ false → Ends 6 x j) (handlers S W cfg) t
        (
          λ h. absurd cc,
          (
            λ _. metadata_ends j known,
            (
              λ _. longer 1 5 source_providers_state j (providers_ends j known),
              (
                λ _. longer 2 4 sources_state j (sources_ends j known),
                (
                  λ _. longer 3 3 parser_state j (parser_ends j known),
                  (
                    λ _. longer 4 2 constructor_state j (constructor_ends j known),
                    (
                      λ _. longer 5 1 error_state j (error_ends j),
                      (λ _. longer 5 1 final_state j (final_ends j known), tt),
                    ),
                  ),
                ),
              ),
            ),
          ),
        )
        λ none_ _. absurd (ground (arith, handled none_, nonzero))
