-- ===== src/Unpacker/Assembly/Rounds.antt =====
-- One round of the pipeline's machine.
use downloader.Base.{
  ℕ, suc, ◌+◌, ◌≡◌, ◌∙◌, Bool, false, none, some, List, [], ◌∷◌, ◌++◌, ◌==◌, ret, lookup,
}
use downloader.Machine.{State, transition, recover}
use downloader.Machine.Process.{
  stop, next, give_up, move, leave, work, arrive, round, process, is_unknown,
}
use downloader.Machine.Process.Loop.{process-next, process-stop}
use downloader.Unpacker.States.{error_state, done_state}
use downloader.Unpacker.Library.{Solgo, Store, Config}
use downloader.Unpacker.Entry.{Job, Failure, Processed}
use downloader.Unpacker.Assembly.{handler, handlers, at}

module _ (S : Solgo) (W : Store) (cfg : Config) where
  work-moves :
      (p : Job S W → Processed S W) (s s' : State) (j j' : Job S W) (v : List State)
      → p j ≡ ret (s', j', none)
      → is_unknown s' (at S W cfg s j' v) ≡ false
      → (s' == done_state) ≡ false
      → work (handler p) (at S W cfg s j v) ≡ ret (next (at S W cfg s' j' (v ++ s' ∷ [])))
  unfolding work leave move transition
  work-moves p s s' j j' v e known open_ = rw (e, known, open_)

  work-ends :
      (p : Job S W → Processed S W) (s : State) (j j' : Job S W) (v : List State)
      → p j ≡ ret (done_state, j', none)
      → work (handler p) (at S W cfg s j v)
        ≡ ret (stop none (at S W cfg done_state j' (v ++ done_state ∷ [])))
  unfolding work leave move transition
  work-ends p s j j' v e = rw e

  work-fails :
      (p : Job S W → Processed S W) (s s' : State) (j j' : Job S W) (e : Failure) (v : List State)
      → p j ≡ ret (s', j', some e)
      → work (handler p) (at S W cfg s j v)
        ≡ ret (stop none (at S W cfg error_state j' (v ++ error_state ∷ [])))
  unfolding work give_up recover transition
  work-fails p s s' j j' e v h = rw h

  -- A state of the pipeline that is not the last one, with its handler.
  pub record IsStage (s : State) (p : Job S W → Processed S W) : Type 0 where
    pub registered : lookup s (handlers S W cfg) ≡ some (handler p)
    pub unfinished : (s == done_state) ≡ false

  pub round-work :
      (s : State) (p : Job S W → Processed S W) (j : Job S W) (v : List State)
      → IsStage s p
      → round false (at S W cfg s j v) ≡ work (handler p) (at S W cfg s j v)
  unfolding round arrive
  round-work s p j v st = rw (st.unfinished, st.registered)

  pub round-moves :
      (p : Job S W → Processed S W) (s s' : State) (j j' : Job S W) (v : List State)
      → IsStage s p
      → p j ≡ ret (s', j', none)
      → is_unknown s' (at S W cfg s j' v) ≡ false
      → (s' == done_state) ≡ false
      → round false (at S W cfg s j v) ≡ ret (next (at S W cfg s' j' (v ++ s' ∷ [])))
  round-moves p s s' j j' v st e known open_ =
      round-work s p j v st ∙ work-moves p s s' j j' v e known open_

  pub round-ends :
      (p : Job S W → Processed S W) (s : State) (j j' : Job S W) (v : List State)
      → IsStage s p
      → p j ≡ ret (done_state, j', none)
      → round false (at S W cfg s j v)
        ≡ ret (stop none (at S W cfg done_state j' (v ++ done_state ∷ [])))
  round-ends p s j j' v st e = round-work s p j v st ∙ work-ends p s j j' v e

  -- What a run of the loop does in a stage whose handler returned.
  module _ (p : Job S W → Processed S W) (s : State) (st : IsStage s p) (j j' : Job S W)
      (v : List State) (f n : ℕ) (done : ℕ → Bool) (going : done n ≡ false) where
    pub process-moves :
        (s' : State)
        → p j ≡ ret (s', j', none)
        → is_unknown s' (at S W cfg s j' v) ≡ false
        → (s' == done_state) ≡ false
        → process (suc f) done n (at S W cfg s j v)
          ≡ process f done (n + 1) (at S W cfg s' j' (v ++ s' ∷ []))
    process-moves s' e known open_ =
        process-next f n done _ _ (rw going (round-moves p s s' j j' v st e known open_))

    pub process-ends :
        p j ≡ ret (done_state, j', none)
        → process (suc f) done n (at S W cfg s j v)
          ≡ some (ret (none, at S W cfg done_state j' (v ++ done_state ∷ [])))
    process-ends e = process-stop f n done _ _ none (rw going (round-ends p s j j' v st e))

    pub process-fails :
        (s' : State) (e : Failure)
        → p j ≡ ret (s', j', some e)
        → process (suc f) done n (at S W cfg s j v)
          ≡ some (ret (none, at S W cfg error_state j' (v ++ error_state ∷ [])))
    process-fails s' e h =
        process-stop f n done _ _ none
          (rw going (round-work s p j v st ∙ work-fails p s s' j j' e v h))
