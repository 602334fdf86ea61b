-- ===== src/Syncer/Injection.antt =====
-- services/syncer/subscribers.go: the subscribers that the service registers, with `GetByType` of
-- pkg/options/syncer.go. Go goes over the map of subscribers in any order: the order is an argument.
use downloader.Base.{
  ℕ, String, ◌≡◌, refl, ap, ◌∙◌, true, false, Option, none, some, List, [], ◌∷◌, if◌then◌else◌,
  ◌==◌, contains, subst, insert, lookup-insert, Bool-cases, Option-cases, inl, inr, ==_iff, ==_refl,
  is_some, arith,
}
use downloader.Subscribers.{SubscriberType, Manager, Got, got, missing, exists, register, get}
use downloader.Subscribers as Subscribers
use downloader.Subscribers.Blocks.{Subscriber}

unfoldable pub get_by_type : String → List Subscriber → Option Subscriber
get_by_type t [] = none
get_by_type t (sub ∷ subs) = if sub.type == t then some sub else get_by_type t subs

-- What the constructors of the map make, of the service's network and the options.
pub data Built : Type 0 where
  head_block archive_block unpacker : String → ℕ → Subscriber → Built

pub data Error : Type 0 where
  unknown_type : String → Error
  not_registered : Subscribers.Error → Error

module _ (network : String) (network_id : ℕ) (configured : List Subscriber) where
  -- The constructor of a type; validation of options always succeeds.
  abbrev pub built : SubscriberType → Subscriber → Built
  built name opts =
      if name == "head"
      then head_block network network_id opts
      else if name == "archive"
      then archive_block network network_id opts
      else unpacker network network_id opts

  -- The loop, over the types in the order in which the map is gone over.
  unfoldable pub inject_subscribers :
      List SubscriberType → Manager Built → Option Error × Manager Built
  unfolding register get_by_type
  inject_subscribers [] m = (none, m)
  inject_subscribers (name ∷ names) m = elim (get_by_type name configured) [
    | none ↦ (some (unknown_type name), m)
    | some opts ↦
        let (e, m') = register name (built name opts) m in
        elim e [ some x ↦ (some (not_registered x), m') | none ↦ inject_subscribers names m' ]
  ]

  -- Distinct names, each with options, of which the manager has none.
  abbrev pub AreFree : List SubscriberType → Manager Built → Type 0
  AreFree [] m = Unit {0}
  AreFree (name ∷ names) m =
      (exists name m ≡ false)
      × (is_some (get_by_type name configured) ≡ true)
      × (contains name names ≡ false)
      × AreFree names m

  -- The manager after a registration that is accepted.
  abbrev with_sub : SubscriberType → Built → Manager Built → Manager Built
  with_sub name sub m = record { subs = insert name sub m.subs }

  accepts :
      (name : SubscriberType) (sub : Built) (m : Manager Built)
      → exists name m ≡ false
      → register name sub m ≡ (none, with_sub name sub m)
  unfolding register Subscribers.perform Subscribers.refusal Subscribers.write
  accepts name sub m free = rw (register, Subscribers.perform, Subscribers.refusal, free) refl

  apart : (s t : String) → (t == s) ≡ false → (s == t) ≡ false
  apart s t h = ground (arith, h, ==_iff s t, ==_iff t s)

  AreFree-with_sub :
      (names : List SubscriberType) (name : SubscriberType) (sub : Built) (m : Manager Built)
      → contains name names ≡ false
      → AreFree names m
      → AreFree names (with_sub name sub m)
  AreFree-with_sub [] name sub m c f = tt
  AreFree-with_sub (x ∷ names) name sub m c (f, o, d, fs) =
      let differs : (x == name) ≡ false = ground (arith, c) in
      let others : contains name names ≡ false = ground (arith, c) in
      (
        ground (arith, lookup-insert name x sub m.subs, apart name x differs, f),
        o,
        d,
        AreFree-with_sub names name sub m others fs,
      )

  -- What the manager has after the types were gone over.
  abbrev IsInjected : List SubscriberType → Manager Built → Manager Built → Type 0
  IsInjected names m m' =
      ((other : SubscriberType) → contains other names ≡ false → get other m' ≡ get other m)
      × ((name : SubscriberType)
          → contains name names ≡ true
          → (opts : Subscriber) × (get_by_type name configured ≡ some opts)
            × (get name m' ≡ got (built name opts)))

  inject_subscribers-IsInjected :
      (names : List SubscriberType) (m : Manager Built)
      → AreFree names m
      → (m' : Manager Built) × (inject_subscribers names m ≡ (none, m')) × IsInjected names m m'
  unfolding inject_subscribers get
  inject_subscribers-IsInjected [] m f =
      (m, refl, ((λ other h. refl), λ name h. absurd (ground (arith, h))))
  inject_subscribers-IsInjected (name ∷ names) m (f, o, d, fs) =
      elim (Option-cases (get_by_type name configured)) [
        | inl e ↦ absurd (ground (arith, e, o))
        | inr (opts, e) ↦
            let sub = built name opts in
            let (m', run, (kept, found)) =
              inject_subscribers-IsInjected names (with_sub name sub m)
                (AreFree-with_sub names name sub m d fs) in
            (
              m',
              rw (inject_subscribers, e)
                  (ap
                      (λ r. elim r.0 [
                        | some x ↦ (some (not_registered x), r.1)
                        | none ↦ inject_subscribers names r.1
                      ])
                      (accepts name sub m f)
                    ∙ run),
              (
                λ other h. ground (arith, h, kept other, lookup-insert name other sub m.subs),
                λ t h. elim (Bool-cases (name == t)) [
                  | inl same ↦
                      subst
                        (λ t.
                          (opts : Subscriber) × (get_by_type t configured ≡ some opts)
                          × (get t m' ≡ got (built t opts)))
                        ((==_iff name t).0 same) (opts, e, here m' (kept name d))
                  | inr differs ↦ found t (ground (arith, h, differs))
                ],
              ),
            )
      ]
    where
      here :
          {sub : Built} (m' : Manager Built)
          → get name m' ≡ get name (with_sub name sub m)
          → get name m' ≡ got sub
      here {sub} m' h = h ∙ ground (arith, lookup-insert name name sub m.subs, ==_refl name)

  -- The subscriber of a type, if it has options.
  abbrev pub configured_sub : SubscriberType → Got Built
  configured_sub name = elim (get_by_type name configured) [
    | none ↦ missing (Subscribers.not_found name)
    | some opts ↦ got (built name opts)
  ]

  -- In whatever order the distinct types are gone over, where each has options and none is registered:
  -- the injection succeeds, each type is found with the subscriber that was built of its options, and
  -- what the manager had besides is as before.
  pub inject_subscribers_lem :
      (names : List SubscriberType) (name : SubscriberType) (m : Manager Built)
      → AreFree names m
      → (m' : Manager Built) × (inject_subscribers names m ≡ (none, m'))
        × (get name m' ≡ (if contains name names then configured_sub name else get name m))
  inject_subscribers_lem names name m f =
      let (m', run, (kept, found)) = inject_subscribers-IsInjected names m f in
      elim (Bool-cases (contains name names)) [
        | inl e ↦ let (opts, o, g) = found name e in (m', run, rw (e, configured_sub, o) g)
        | inr e ↦ (m', run, rw e (kept name e))
      ]
