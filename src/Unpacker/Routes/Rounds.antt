-- ===== src/Unpacker/Routes/Rounds.antt =====
-- The rounds that a run of the pipeline has left, whatever the library and the storage do.
use mathlib.Core.Path.{sym}
use downloader.Base.{
  subst, if◌then◌else◌, ℕ, zero, suc, ◌+◌, ◌≡◌, refl, ap, ◌∙◌, Bool, true, false, not, ◌&&◌, Option,
  none, some, List, [], ◌∷◌, ◌==◌, Bool-cases, inl, inr, ◌⊎◌, ret, blocks, panics, Outcome, arith,
  ◌++◌, lookup,
}
use downloader.Machine.{
  Handler, State, Error, cancelled, invalid_state, no_state, recover, transition, Machine,
}
use downloader.Machine.Process.{
  process, round, work, leave, move, give_up, is_unknown, Step, stop, next,
}
use downloader.Machine.Process.Loop.{after_round, process-round, process-stop}
use downloader.Unpacker.States.{done_state}
use downloader.Unpacker.Library.{Solgo, Store, Config}
use downloader.Unpacker.Entry.{Job, Failure, Processed}
use downloader.Unpacker.Assembly.{at, handler, handlers}
use downloader.Unpacker.Assembly.Rounds.{IsStage, round-work}

module _ {D E : Type 0} where
  -- The run does not wait for more fuel, and if it returns then without an error or because it was
  -- cancelled.
  abbrev pub Ended : Option (Outcome (Option (Error E) × Machine D E)) → Type 0
  Ended none = ⊥
  Ended (some blocks) = Unit
  Ended (some panics) = Unit
  Ended (some (ret (e, m))) = (e ≡ none) ⊎ (e ≡ some cancelled)

  after_round-Ended :
      (rest rest' : Machine D E → Option (Outcome (Option (Error E) × Machine D E)))
      → ((m : Machine D E) → Ended (rest m) → Ended (rest' m))
      → (r : Outcome (Step D E)) → Ended (after_round rest r)
      → Ended (after_round rest' r)
  after_round-Ended rest rest' more blocks h = tt
  after_round-Ended rest rest' more panics h = tt
  after_round-Ended rest rest' more (ret (stop e m)) h = h
  after_round-Ended rest rest' more (ret (next m)) h = more m h

  -- A run that ended on some fuel ends so on more.
  process-more :
      (f n : ℕ) (done : ℕ → Bool) (m : Machine D E)
      → Ended (process f done n m)
      → Ended (process (suc f) done n m)
  unfolding process
  process-more zero n done m h = absurd h
  process-more (suc f) n done m h = subst Ended (sym (process-round (suc f) n done m)) (
      after_round-Ended (process f done (n + 1)) (process (suc f) done (n + 1))
        (λ m1. process-more f (n + 1) done m1) (round (done n) m)
        (subst Ended (process-round f n done m) h))

module _ (S : Solgo) (W : Store) (cfg : Config) where
  -- The run of the machine at a state ends within so many rounds, whenever the context is done.
  abbrev pub EndsWithin : ℕ → State → Job S W → Type 0
  EndsWithin f s j =
      (done : ℕ → Bool) (n : ℕ) (v : List State) → Ended (process f done n (at S W cfg s j v))

  pub EndsWithin-suc : (f : ℕ) (s : State) (j : Job S W) → EndsWithin f s j → EndsWithin (suc f) s j
  EndsWithin-suc f s j e done n v = process-more f n done (at S W cfg s j v) (e done n v)

  -- The machine goes on to a state that has a handler, or is the zero value.
  abbrev pub GoesOn : State → Type 0
  GoesOn t =
      ((t == done_state) ≡ false) × (lookup t (handlers S W cfg) ≡ none → (t == no_state) ≡ true)

  goes_on :
      (t s : State) (j : Job S W) (v : List State)
      → is_unknown t (at S W cfg s j v) ≡ false
      → (t == done_state) ≡ false
      → GoesOn t
  goes_on t s j v known open_ = (
    open_,
    λ none_.
        let tests : is_unknown t (at S W cfg s j v)
            ≡ (not (t == done_state) && not (t == no_state)) =
          ap
            (λ (o : Option (Handler (Job S W) Failure)).
              not (elim o [ none ↦ false | some _ ↦ true ])
              && not (t == done_state)
              && not (t == no_state))
            none_ in
        let refused : (not (t == done_state) && not (t == no_state)) ≡ false = sym tests ∙ known in
        ground (arith, refused, open_),
  )

  -- What the work of a handler leaves of the run.
  work-EndsWithin :
      (p : Job S W → Processed S W) (s : State) (j : Job S W) (f : ℕ)
      → (r : Outcome (State × Job S W × Option Failure)) → p j ≡ r
      → ((t : State) (j' : Job S W) → r ≡ ret (t, j', none) → GoesOn t → EndsWithin f t j')
      → (done : ℕ → Bool) (n : ℕ) (v : List State)
      → Ended (after_round (process f done (n + 1)) (work (handler p) (at S W cfg s j v)))
  unfolding work leave move transition give_up recover
  work-EndsWithin p s j f blocks e k done n v = rw e tt
  work-EndsWithin p s j f panics e k done n v = rw e tt
  work-EndsWithin p s j f (ret (t, j', some x)) e k done n v = rw e (inl refl)
  work-EndsWithin p s j f (ret (t, j', none)) e k done n v =
      elim (Bool-cases (is_unknown t (at S W cfg s j' v))) [
        | inl u ↦ rw (e, u) (inl refl)
        | inr u ↦ elim (Bool-cases (t == done_state)) [
          | inl d ↦ rw (e, u, d) (inl refl)
          | inr d ↦ rw (e, u, d) (k t j' refl (goes_on t s j' v u d) done (n + 1) (v ++ t ∷ []))
        ]
      ]

  round-cancels :
      (p : Job S W → Processed S W) (s : State) (j : Job S W) (v : List State)
      → IsStage S W cfg s p
      → round true (at S W cfg s j v) ≡ ret (stop (some cancelled) (at S W cfg s j v))
  unfolding round
  round-cancels p s j v st = rw (st.unfinished, st.registered) refl

  -- A handler makes a round.
  pub stage-EndsWithin :
      (p : Job S W → Processed S W) (s : State) (j : Job S W) (f : ℕ)
      → IsStage S W cfg s p
      → ((t : State) (j' : Job S W) → p j ≡ ret (t, j', none) → GoesOn t → EndsWithin f t j')
      → EndsWithin (suc f) s j
  stage-EndsWithin p s j f st k done n v = elim (Bool-cases (done n)) [
    | inl e ↦
        subst Ended
          (sym (
            process-stop f n done (at S W cfg s j v) (at S W cfg s j v) (some cancelled)
              (rw e (round-cancels p s j v st))))
          (inr refl)
    | inr e ↦
        rw (process-round f n done (at S W cfg s j v), e, round-work S W cfg s p j v st)
          (work-EndsWithin p s j f (p j) refl k done n v)
  ]

  -- The error of a run at a state without a handler.
  abbrev pub refusal : State → Option (Error Failure)
  refusal s = if s == done_state then none else some (invalid_state s)

  round-stops :
      (s : State) (j : Job S W) (v : List State) (b : Bool)
      → lookup s (handlers S W cfg) ≡ none
      → round b (at S W cfg s j v) ≡ ret (stop (refusal s) (at S W cfg s j v))
  unfolding round
  round-stops s j v b none_ = elim (Bool-cases (s == done_state)) [
    | inl d ↦ rw d refl
    | inr d ↦ rw (d, none_) refl
  ]

  -- A state without a handler ends the run.
  pub process-unhandled :
      (s : State) (j : Job S W) (v : List State) (f n : ℕ) (done : ℕ → Bool)
      → lookup s (handlers S W cfg) ≡ none
      → process (suc f) done n (at S W cfg s j v) ≡ some (ret (refusal s, at S W cfg s j v))
  process-unhandled s j v f n done none_ =
      process-stop f n done (at S W cfg s j v) (at S W cfg s j v) (refusal s)
        (round-stops s j v (done n) none_)
