-- ===== src/Machine/Process/Loop.antt =====
-- The loop of `StateMachine.Process`: what a run that returns has kept, and how it ends.
use mathlib.Core.List.{append_assoc}
use downloader.Base.{
  ℕ, zero, suc, ◌+◌, ◌≡◌, refl, ap, subst, ◌∙◌, Bool, Option, none, some, List, [], ◌∷◌, ◌++◌,
  Outcome, ret, blocks, panics, arith,
}
use downloader.Machine.{State, Error, Machine}
use downloader.Machine.Process.{Step, stop, next, round, process}
use downloader.Machine.Process.Rounds.{IsSound, SameSetup, IsEnd, Grows, Finish, Steps, round-Steps}

returned :
    {A : Type 0} {a b : A} → ◌≡◌ {A = Option (Outcome A)} (some (ret a)) (some (ret b)) → a ≡ b
returned h = cc

module _ {D E : Type 0} where
  SameSetup-trans : (m m1 m' : Machine D E) → SameSetup m m1 → SameSetup m1 m' → SameSetup m m'
  SameSetup-trans m m1 m' a b = (b.0 ∙ a.0, b.1 ∙ a.1, b.2 ∙ a.2, b.3 ∙ a.3, b.4 ∙ a.4)

  Grows-trans :
      (m m1 m' : Machine D E)
      → m1.history ≡ m.history ++ m1.current_state ∷ []
      → Grows m1 m'
      → Grows m m'
  Grows-trans m m1 m' h (visited, e) = (
    m1.current_state ∷ visited,
    e
        ∙ (ap (λ (l : List State). l ++ visited) h
            ∙ append_assoc m.history (m1.current_state ∷ []) visited),
  )

  Finish-trans :
      (m m1 m' : Machine D E) (err : Option (Error E))
      → SameSetup m m1
      → m1.history ≡ m.history ++ m1.current_state ∷ []
      → Finish m1 err m'
      → Finish m err m'
  Finish-trans m m1 m' none same h f =
      (f.0, SameSetup-trans m m1 m' same f.1, Grows-trans m m1 m' h f.2, end)
    where
      end : IsEnd m m'.current_state
      end = ground (arith, f.3)
  Finish-trans m m1 m' (some e) same h f =
      (f.0, SameSetup-trans m m1 m' same f.1, Grows-trans m m1 m' h f.2)

  -- The loop after a round, the rest of it given.
  abbrev pub after_round :
      (Machine D E → Option (Outcome (Option (Error E) × Machine D E)))
      → Outcome (Step D E)
      → Option (Outcome (Option (Error E) × Machine D E))
  after_round rest blocks = some blocks
  after_round rest panics = some panics
  after_round rest (ret (stop err m)) = some (ret (err, m))
  after_round rest (ret (next m)) = rest m

  Finish-after :
      (m m' : Machine D E) (err : Option (Error E))
      (rest : Machine D E → Option (Outcome (Option (Error E) × Machine D E)))
      → ((m1 : Machine D E) → IsSound m1 → rest m1 ≡ some (ret (err, m')) → Finish m1 err m')
      → (r : Outcome (Step D E)) → Steps m r
      → after_round rest r ≡ some (ret (err, m'))
      → Finish m err m'
  Finish-after m m' err rest ih blocks k h = cc
  Finish-after m m' err rest ih panics k h = cc
  Finish-after m m' err rest ih (ret (stop err1 m1)) k h =
      subst (λ (p : Option (Error E) × Machine D E). Finish m p.0 p.1) (returned h) k
  Finish-after m m' err rest ih (ret (next m1)) k h = Finish-trans m m1 m' err k.1 k.2 (ih m1 k.0 h)

  -- On a sound machine, a run of `Process` that returns leaves a sound machine with the same handlers,
  -- transitions, final and error states, whose history only grew; and where the error is nil, the
  -- current state is the final state or the error state that was set.
  pub process-Finish :
      (fuel : ℕ) (done : ℕ → Bool) (n : ℕ) (m m' : Machine D E) (err : Option (Error E))
      → IsSound m
      → process fuel done n m ≡ some (ret (err, m'))
      → Finish m err m'
  unfolding process
  process-Finish zero done n m m' err k h = cc
  process-Finish (suc fuel) done n m m' err k h =
      Finish-after m m' err (process fuel done (n + 1))
        (λ m1 k1 h1. process-Finish fuel done (n + 1) m1 m' err k1 h1) (round (done n) m)
        (round-Steps (done n) m k) h

  pub process-round :
      (f n : ℕ) (done : ℕ → Bool) (m : Machine D E)
      → process (suc f) done n m ≡ after_round (process f done (n + 1)) (round (done n) m)
  unfolding process
  process-round f n done m = refl

  pub process-next :
      (f n : ℕ) (done : ℕ → Bool) (m m' : Machine D E)
      → round (done n) m ≡ ret (next m')
      → process (suc f) done n m ≡ process f done (n + 1) m'
  process-next f n done m m' e =
      process-round f n done m ∙ ap (after_round (process f done (n + 1))) e

  pub process-stop :
      (f n : ℕ) (done : ℕ → Bool) (m m' : Machine D E) (err : Option (Error E))
      → round (done n) m ≡ ret (stop err m')
      → process (suc f) done n m ≡ some (ret (err, m'))
  process-stop f n done m m' err e =
      process-round f n done m ∙ ap (after_round (process f done (n + 1))) e
