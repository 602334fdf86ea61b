-- ===== src/Base/Lists.antt =====
-- Lists measured by native numbers, and association lists that stand for Go maps.
use Prim.Native.Nat.{ℕ, zero, suc, ◌+◌, ◌≤◌}
use Prim.Native.String.{String}
use mathlib.Core.Path.{◌≡◌, refl, subst, ap}
use mathlib.Core.Logic.{inl, inr, ◌≢◌}
use mathlib.Core.Bool.{Bool, true, false}
use mathlib.Core.Option.{Option, none, some}
use mathlib.Core.List.{List, [], ◌∷◌, ◌++◌, map}
use native.Mathlib.Omega.{arith}
use downloader.Base.Tests.{◌==◌, ==_iff, Bool-cases, if◌then◌else◌}

module _ {ℓ} {A : Type ℓ} where
  abbrev pub length : List A → ℕ
  length [] = 0
  length (x ∷ xs) = suc (length xs)

  pub length-append : (xs ys : List A) → length (xs ++ ys) ≡ length xs + length ys
  length-append [] ys = omega arith
  length-append (x ∷ xs) ys = omega (arith, length-append xs ys)

  abbrev pub filter : (A → Bool) → List A → List A
  filter p [] = []
  filter p (x ∷ xs) = if p x then x ∷ filter p xs else filter p xs

  abbrev pub any : (A → Bool) → List A → Bool
  any p [] = false
  any p (x ∷ xs) = if p x then true else any p xs

  abbrev pub take : ℕ → List A → List A
  take n [] = []
  take zero (x ∷ xs) = []
  take (suc n) (x ∷ xs) = x ∷ take n xs

  abbrev pub drop : ℕ → List A → List A
  drop n [] = []
  drop zero (x ∷ xs) = x ∷ xs
  drop (suc n) (x ∷ xs) = drop n xs

  pub take-append-drop : (n : ℕ) (xs : List A) → take n xs ++ drop n xs ≡ xs
  take-append-drop n [] = refl
  take-append-drop zero (x ∷ xs) = refl
  take-append-drop (suc n) (x ∷ xs) = ap (x ∷◌) (take-append-drop n xs)

  pub length-take-le : (n : ℕ) (xs : List A) → length (take n xs) ≤ n
  length-take-le n [] = omega arith
  length-take-le zero (x ∷ xs) = omega arith
  length-take-le (suc n) (x ∷ xs) = omega (arith, length-take-le n xs)

  pub length-drop-le : (n : ℕ) (xs : List A) → length (drop n xs) ≤ length xs
  length-drop-le n [] = omega arith
  length-drop-le zero (x ∷ xs) = omega arith
  length-drop-le (suc n) (x ∷ xs) = omega (arith, length-drop-le n xs)

  -- A page that is not full is the last one.
  pub drop-eq-nil : (n : ℕ) (xs : List A) → length (take n xs) ≢ n → drop n xs ≡ []
  drop-eq-nil n [] h = refl
  drop-eq-nil zero (x ∷ xs) h = absurd (h refl)
  drop-eq-nil (suc n) (x ∷ xs) h = drop-eq-nil n xs (λ e. h (ap suc e))

  -- The last element, or the given one of an empty list.
  abbrev pub last_or : A → List A → A
  last_or d [] = d
  last_or d (x ∷ xs) = last_or x xs

  pub last_or-append : (d x : A) (xs : List A) → last_or d (xs ++ x ∷ []) ≡ x
  last_or-append d x [] = refl
  last_or-append d x (y ∷ ys) = last_or-append y x ys

pub length-map {ℓ κ} :
    {A : Type ℓ} {B : Type κ} (f : A → B) (xs : List A) → length (map f xs) ≡ length xs
length-map f [] = refl
length-map f (x ∷ xs) = ap suc (length-map f xs)

-- A Go map with texts as its keys: the entries in the order of their first assignment.
module _ {ℓ} {Val : Type ℓ} where
  abbrev pub delete : String → List (String × Val) → List (String × Val)
  delete key [] = []
  delete key ((name, val) ∷ rest) =
      if name == key then delete key rest else (name, val) ∷ delete key rest

  abbrev pub insert : String → Val → List (String × Val) → List (String × Val)
  insert key new [] = (key, new) ∷ []
  insert key new ((name, val) ∷ rest) =
      if name == key then (key, new) ∷ rest else (name, val) ∷ insert key new rest

  abbrev pub lookup : String → List (String × Val) → Option Val
  lookup key [] = none
  lookup key ((name, val) ∷ rest) = if name == key then some val else lookup key rest

  pub lookup-delete :
      (key other : String) (entries : List (String × Val))
      → lookup other (delete key entries) ≡ (if key == other then none else lookup other entries)
  lookup-delete key other [] = ground (arith, ==_iff key other)
  lookup-delete key other ((name, val) ∷ rest) =
      ground
        (arith, lookup-delete key other rest, ==_iff key other, ==_iff name key, ==_iff name other)

  pub lookup-insert :
      (key other : String) (new : Val) (entries : List (String × Val))
      → lookup other (insert key new entries)
        ≡ (if key == other then some new else lookup other entries)
  lookup-insert key other new [] = refl
  lookup-insert key other new ((name, val) ∷ rest) = ground (
    arith,
    lookup-insert key other new rest,
    ==_iff name key,
    ==_iff name other,
    ==_iff key other,
  )

abbrev pub contains : String → List String → Bool
contains s [] = false
contains s (x ∷ xs) = if x == s then true else contains s xs

pub contains-append :
    (s : String) (xs ys : List String)
    → contains s (xs ++ ys) ≡ (if contains s xs then true else contains s ys)
contains-append s [] ys = refl
contains-append s (x ∷ xs) ys = ground (arith, contains-append s xs ys)

abbrev pub Every : (String → Type 0) → List String → Type 0
Every P [] = Unit
Every P (x ∷ xs) = P x × Every P xs

pub Every-contains :
    (P : String → Type 0) (xs : List String) (s : String) → Every P xs → contains s xs ≡ true → P s
Every-contains P [] s k h = cc
Every-contains P (x ∷ xs) s (p, k) h = elim (Bool-cases (x == s)) [
  | inl e ↦ subst P ((==_iff x s).0 e) p
  | inr e ↦ Every-contains P xs s k (ground (arith, h))
]
