-- ===== src/Graph/Networks.antt =====
-- pkg/graph/network.go: the networks that a query asks for.
use downloader.Base.{
  ℕ, String, ◌≡◌, refl, sym, Bool, true, false, not, ◌&&◌, Option, none, some, List, [], ◌∷◌, ◌++◌,
  map, nat_eq, if◌then◌else◌, filter, to_lower, text_contains, Bool-cases, inl, inr, arith,
}
use mathlib.Core.List.{append-nil, append_assoc}
use downloader.Options as Options
use downloader.Graph.{Network, network_of}

-- The arguments of the query; an absent one asks for nothing.
pub record NetworkArgs : Type 0 where
  pub network_id : Option ℕ
  pub name : Option String
  pub symbol : Option String
  pub suspended : Option Bool
  pub maintenance : Option Bool

abbrev same_flag : Bool → Bool → Bool
same_flag true b = b
same_flag false b = not b

-- `strings.Contains(strings.ToLower(_), strings.ToLower(_))`.
abbrev mentions : String → String → Bool
mentions text part = text_contains (to_lower text) (to_lower part)

-- An argument that is given, and that does not hold.
abbrev fails : {A : Type 0} → (A → Bool) → Option A → Bool
fails p none = false
fails p (some a) = not (p a)

-- An argument that is absent, or that holds.
abbrev pub admits : {A : Type 0} → (A → Bool) → Option A → Bool
admits p none = true
admits p (some a) = p a

module _ (args : NetworkArgs) where
  -- The guards of the loop's body, each of which continues with the next network.
  abbrev continues : Options.Network → Bool
  continues n =
      if fails (λ id. nat_eq id n.network_id) args.network_id
      then true
      else if fails (mentions n.name) args.name
      then true
      else if fails (mentions n.symbol) args.symbol
      then true
      else if fails (same_flag n.suspended) args.suspended
      then true
      else fails (same_flag n.maintenance) args.maintenance

  abbrev loop : List Network → List Options.Network → List Network
  loop kept [] = kept
  loop kept (n ∷ networks) =
      if continues n then loop kept networks else loop (kept ++ network_of n ∷ []) networks

  unfoldable pub resolve_networks : List Options.Network → List Network
  resolve_networks networks = loop [] networks

  -- What the query means: every argument admits the network.
  abbrev pub selects : Options.Network → Bool
  selects n =
      admits (λ id. nat_eq id n.network_id) args.network_id
      && (admits (mentions n.name) args.name
          && (admits (mentions n.symbol) args.symbol
              && (admits (same_flag n.suspended) args.suspended
                  && admits (same_flag n.maintenance) args.maintenance)))

  fails-admits : {A : Type 0} (p : A → Bool) (o : Option A) → fails p o ≡ not (admits p o)
  fails-admits p none = refl
  fails-admits p (some a) = refl

  continues-selects : (n : Options.Network) → continues n ≡ not (selects n)
  continues-selects n = ground (
    arith,
    fails-admits (λ id. nat_eq id n.network_id) args.network_id,
    fails-admits (mentions n.name) args.name,
    fails-admits (mentions n.symbol) args.symbol,
    fails-admits (same_flag n.suspended) args.suspended,
    fails-admits (same_flag n.maintenance) args.maintenance,
  )

  loop-filter :
      (kept : List Network) (networks : List Options.Network)
      → loop kept networks ≡ kept ++ map network_of (filter selects networks)
  loop-filter kept [] = sym (append-nil kept)
  loop-filter kept (n ∷ networks) = elim (Bool-cases (selects n)) [
    | inl on ↦
        rw (continues-selects n, on, loop-filter (kept ++ network_of n ∷ []) networks)
          (append_assoc kept (network_of n ∷ []) _)
    | inr off ↦ rw (continues-selects n, off, loop-filter kept networks) refl
  ]

  -- The loop keeps, in the order of the configuration, the networks that every given argument admits.
  pub resolve_networks_lem :
      (networks : List Options.Network)
      → resolve_networks networks ≡ map network_of (filter selects networks)
  unfolding resolve_networks
  resolve_networks_lem networks = loop-filter [] networks
