-- ===== src/Subscribers/Races.antt =====
-- Two goroutines that register a subscriber under the same name.
use downloader.Base.{◌≡◌, refl, ap, ◌∙◌, false, none, ==_refl, insert, lookup-insert, arith}
use downloader.Subscribers.{
  SubscriberType, got, Manager, Thread, called, cleared, returned, registers, Call, exists, refusal,
  write, perform, step, get,
}

module _ {Sub : Type 0} where
  -- Two steps of a goroutine with no other goroutine in between do what the call does.
  pub step-perform :
      (c : Call Sub) (m : Manager Sub)
      → (let (t, m1) = step (called c) m in step t m1)
        ≡ (let (e, m1) = perform c m in (returned e, m1))
  unfolding step perform
  step-perform c m = ground arith

  -- The second goroutine looks, then the first writes, then the second.
  after_look : Call Sub → Thread Sub × Manager Sub → Thread Sub × Thread Sub × Manager Sub
  unfolding step
  after_look c' (t, m1) =
      let (t', m2) = step (called c') m1 in
      let (end, m3) = step t m2 in let (end', m4) = step t' m3 in (end, end', m4)

  -- Both goroutines look before one of them writes.
  pub interleave : Call Sub → Call Sub → Manager Sub → Thread Sub × Thread Sub × Manager Sub
  unfolding after_look
  interleave c c' m = after_look c' (step (called c) m)

  looks : (c : Call Sub) (m : Manager Sub) → refusal c m ≡ none → step (called c) m ≡ (cleared c, m)
  unfolding step
  looks c m e = rw (e, step) refl

  abbrev after_looks : Call Sub → Thread Sub × Manager Sub → Thread Sub × Thread Sub × Manager Sub
  after_looks c (t', m2) =
      let (end, m3) = step (cleared c) m2 in let (end', m4) = step t' m3 in (end, end', m4)

  interleave_lem :
      (c c' : Call Sub) (m : Manager Sub)
      → refusal c m ≡ none
      → refusal c' m ≡ none
      → interleave c c' m ≡ (returned none, returned none, write c' (write c m))
  unfolding interleave after_look step
  interleave_lem c c' m e e' = ap (after_look c') (looks c m e) ∙ ap (after_looks c) (looks c' m e')

  -- Where the name is free and both goroutines look before one of them writes, both registrations
  -- return nil, and the first subscriber is lost.
  pub register-races :
      (name : SubscriberType) (sub sub' : Sub) (m : Manager Sub)
      → exists name m ≡ false
      → let (end, end', m') = interleave (registers name sub) (registers name sub') m in
        (end ≡ returned none) × (end' ≡ returned none) × (get name m' ≡ got sub')
  unfolding refusal write get
  register-races name sub sub' m free =
      rw (interleave_lem (registers name sub) (registers name sub') m (rw free refl) (rw free refl))
        (refl, refl, found)
    where
      found : get name (write (registers name sub') (write (registers name sub) m)) ≡ got sub'
      found = ground (arith, lookup-insert name name sub' (insert name sub m.subs), ==_refl name)
