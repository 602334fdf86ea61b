-- ===== src/Machine/Process/Rounds.antt =====
-- One round of the loop of `Process`: what it keeps, and where it may end.
use mathlib.Core.List.{append-nil}
use downloader.Base.{
  ◌≡◌, refl, sym, ap, ◌≢◌, ◌⊎◌, inl, inr, Bool, true, false, Option, none, some, List, [], ◌∷◌,
  ◌++◌, ◌==◌, ==_iff, if◌then◌else◌, Bool-cases, last_or, last_or-append, Outcome, ret, blocks,
  panics, ◌>>=◌, arith,
}
use downloader.Machine.{
  State, no_state, Error, handler_failed, invalid_next_state, Handler, Machine, find, lock,
  transition, recover,
}
use downloader.Machine.Process.{
  is_unknown, Step, stop, next, call_hook, call_process, give_up, move, leave, work, arrive, round,
}

module _ {D E : Type 0} where
  -- The two records of visited states agree, they end in the current state, and no one holds the mutex.
  abbrev pub IsSound : Machine D E → Type 0
  IsSound m =
      (m.processed_states ≡ m.history)
      × (last_or no_state m.history ≡ m.current_state)
      × (m.locked ≡ false)

  -- What a run leaves alone.
  abbrev pub SameSetup : Machine D E → Machine D E → Type 0
  SameSetup m m' =
      (m'.states ≡ m.states)
      × (m'.transitions ≡ m.transitions)
      × (m'.final_state ≡ m.final_state)
      × (m'.error_state ≡ m.error_state)
      × (m'.is_paused ≡ m.is_paused)

  abbrev pub IsEnd : Machine D E → State → Type 0
  IsEnd m s = (s ≡ m.final_state) ⊎ ((s ≡ m.error_state) × (m.error_state ≢ no_state))

  -- The history grows at its end.
  abbrev pub Grows : Machine D E → Machine D E → Type 0
  Grows m m' = (visited : List State) × (m'.history ≡ m.history ++ visited)

  -- What holds when the loop returns: without an error it has come to an end state.
  abbrev pub Finish : Machine D E → Option (Error E) → Machine D E → Type 0
  Finish m none m' = IsSound m' × SameSetup m m' × Grows m m' × IsEnd m m'.current_state
  Finish m (some e) m' = IsSound m' × SameSetup m m' × Grows m m'

  abbrev pub Steps : Machine D E → Outcome (Step D E) → Type 0
  Steps m blocks = Unit {0}
  Steps m panics = Unit {0}
  Steps m (ret (stop err m')) = Finish m err m'
  Steps m (ret (next m')) =
      IsSound m' × SameSetup m m' × (m'.history ≡ m.history ++ m'.current_state ∷ [])

  SameSetup-refl : (m : Machine D E) → SameSetup m m
  SameSetup-refl m = (refl, refl, refl, refl, refl)

  Grows-refl : (m : Machine D E) → Grows m m
  Grows-refl m = ([], sym (append-nil m.history))

  pub entered : State → Machine D E → Machine D E
  entered s m = record m {
    processed_states = m.processed_states ++ s ∷ [];
    history = m.history ++ s ∷ [];
    current_state = s;
    locked = false;
  }

  pub transition_lem :
      (s : State) (m : Machine D E) → m.locked ≡ false → transition s m ≡ ret (none, entered s m)
  unfolding transition entered
  transition_lem s m free = ground arith

  pub entered-IsSound : (s : State) (m : Machine D E) → IsSound m → IsSound (entered s m)
  unfolding entered
  entered-IsSound s m k = (ap (λ h. h ++ s ∷ []) k.0, last_or-append no_state s m.history, refl)

  give_up-Steps : (e : Error E) (m : Machine D E) → IsSound m → Steps m (give_up e m)
  unfolding give_up recover entered
  give_up-Steps e m k = elim (Bool-cases (m.error_state == no_state)) [
    | inl none_set ↦ rw none_set (k, SameSetup-refl m, Grows-refl m)
    | inr is_set ↦
        rw (is_set, transition_lem m.error_state m k.2)
          (
            entered-IsSound m.error_state m k,
            SameSetup-refl m,
            (m.error_state ∷ [], refl),
            inr (refl, λ e. cc (is_set, (==_iff m.error_state no_state).1 e)),
          )
  ]

  move-Steps : (s : State) (m : Machine D E) → IsSound m → Steps m (move s m)
  unfolding move entered
  move-Steps s m k = rw (transition_lem s m k.2) (elim (Bool-cases (s == m.final_state)) [
    | inl e ↦ rw e (
      entered-IsSound s m k,
      SameSetup-refl m,
      (s ∷ [], refl),
      inl ((==_iff s m.final_state).0 e),
    )
    | inr e ↦ rw e (entered-IsSound s m k, SameSetup-refl m, refl)
  ])

  bind-Steps :
      {A : Type 0} (m : Machine D E) (r : Outcome A) (f : A → Outcome (Step D E))
      → ((a : A) → Steps m (f a))
      → Steps m (r >>= f)
  bind-Steps m (ret a) f h = h a
  bind-Steps m blocks f h = tt
  bind-Steps m panics f h = tt

  option-Steps :
      {A : Type 0} (m : Machine D E) (o : Option A) (f : A → Outcome (Step D E))
      (g : Outcome (Step D E))
      → ((a : A) → Steps m (f a))
      → Steps m g
      → Steps m (elim o [ none ↦ g | some a ↦ f a ])
  option-Steps m (some a) f g hf hg = hf a
  option-Steps m none f g hf hg = hg

  if-Steps :
      (m : Machine D E) (b : Bool) (f g : Outcome (Step D E))
      → Steps m f
      → Steps m g
      → Steps m (if b then f else g)
  if-Steps m true f g hf hg = hf
  if-Steps m false f g hf hg = hg

  leave-Steps : (h : Handler D E) (s : State) (m : Machine D E) → IsSound m → Steps m (leave h s m)
  unfolding leave
  leave-Steps h s m k = bind-Steps m (call_hook h.exit m.carried) _ λ p.
      option-Steps m p.1 _ _ (λ e. give_up-Steps (handler_failed e) (record m { carried = p.0 }) k)
        (move-Steps s (record m { carried = p.0 }) k)

  work-Steps : (h : Handler D E) (m : Machine D E) → IsSound m → Steps m (work h m)
  unfolding work
  work-Steps h m k = bind-Steps m (call_process h.process m.carried) _ λ p.
      let m1 : Machine D E = record m { carried = p.1 } in
      option-Steps m p.2 _ _ (λ e. give_up-Steps (handler_failed e) m1 k)
        (if-Steps m (is_unknown p.0 m1) _ _ (give_up-Steps (invalid_next_state p.0) m1 k)
          (leave-Steps h p.0 m1 k))

  arrive-Steps : (h : Handler D E) (m : Machine D E) → IsSound m → Steps m (arrive h m)
  unfolding arrive
  arrive-Steps h m k = bind-Steps m (call_hook h.enter m.carried) _ λ p.
      let m1 : Machine D E = record m { carried = p.0 } in
      option-Steps m p.1 _ _ (λ e. give_up-Steps (handler_failed e) m1 k) (work-Steps h m1 k)

  lock-Steps :
      (m : Machine D E) (f : Machine D E → Outcome (Step D E))
      → Steps m (f (record m { locked = true }))
      → Steps m (lock m >>= f)
  lock-Steps m f h =
      elim m.locked
        as (λ b. Steps m ((if b then blocks else ret (record m { locked = true })) >>= f)) [
          | true ↦ tt
          | false ↦ h
        ]

  pub round-Steps : (done : Bool) (m : Machine D E) → IsSound m → Steps m (round done m)
  unfolding round
  round-Steps done m k = lock-Steps m _ (
      if-Steps m m.is_paused _ _ here (
        end-Steps _ (
          option-Steps m (find m.current_state m.states) _ _
            (λ h. if-Steps m done _ _ here (arrive-Steps h (record m { locked = false }) open_k))
            here)))
    where
      open_k : IsSound (record m { locked = false })
      open_k = (k.0, k.1, refl)

      here : IsSound (record m { locked = false }) × SameSetup m m × Grows m m
      here = (open_k, SameSetup-refl m, Grows-refl m)

      end-Steps :
          (r : Outcome (Step D E))
          → Steps m r
          → Steps m (
              if m.current_state == m.final_state
              then ret (stop none (record m { locked = false }))
              else r)
      end-Steps r hr = elim (Bool-cases (m.current_state == m.final_state)) [
        | inl e ↦ rw e (open_k, SameSetup-refl m, Grows-refl m, inl ((==_iff _ _).0 e))
        | inr e ↦ rw e hr
      ]
