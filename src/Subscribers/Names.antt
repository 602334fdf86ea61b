-- ===== src/Subscribers/Names.antt =====
-- What the manager finds under a name after a registration and a removal.
use downloader.Base.{
  ◌≡◌, none, some, ◌==◌, ==_refl, if◌then◌else◌, lookup, insert, delete, lookup-insert,
  lookup-delete, Bool-cases, inl, inr, arith,
}
use downloader.Subscribers.{
  SubscriberType, already_exists, got, missing, not_found, Manager, exists, refusal, write, perform,
  register, unregister, get,
}

module _ {Sub : Type 0} where
  get-delete-insert :
      (name other : SubscriberType) (sub : Sub) (m : Manager Sub)
      → lookup other (delete name (insert name sub m.subs))
        ≡ (if name == other then none else lookup other m.subs)
  get-delete-insert name other sub m = ground (
    arith,
    lookup-delete name other (insert name sub m.subs),
    lookup-insert name other sub m.subs,
  )

  accepted :
      (name : SubscriberType) (sub : Sub) (m m' : Manager Sub)
      → register name sub m ≡ (none, m')
      → m'.subs ≡ insert name sub m.subs
  unfolding register perform refusal write
  accepted name sub m m' e = elim (Bool-cases (exists name m)) [
    | inl there ↦ ground (arith, e, there)
    | inr free ↦ ground (arith, e, free)
  ]

  -- A registration that is accepted is found under its name, and the other names keep what they had; a
  -- second registration of the name is refused and changes nothing; and a removal after it is accepted
  -- and leaves nothing under the name, and the other names as before the registration.
  pub register_lem :
      (name other : SubscriberType) (sub sub' : Sub) (m m' : Manager Sub)
      → register name sub m ≡ (none, m')
      → (get other m' ≡ (if name == other then got sub else get other m))
        × (register name sub' m' ≡ (some (already_exists name), m'))
        × ((unregister name m').0 ≡ none)
        × (get other (unregister name m').1
            ≡ (if name == other then missing (not_found other) else get other m))
  unfolding register unregister perform refusal write get
  register_lem name other sub sub' m m' e =
      let a : m'.subs ≡ insert name sub m.subs = accepted name sub m m' e in
      let here : lookup name m'.subs ≡ some sub =
        ground (arith, a, lookup-insert name name sub m.subs, ==_refl name) in
      let there : lookup other m'.subs ≡ (if name == other then some sub else lookup other m.subs) =
        ground (arith, a, lookup-insert name other sub m.subs) in
      (
        ground (arith, there),
        ground (arith, here),
        ground (arith, here),
        ground (arith, here, there, lookup-delete name other m'.subs),
      )
