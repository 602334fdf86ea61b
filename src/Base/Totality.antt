-- ===== src/Base/Totality.antt =====
-- Total correctness of a call: it returns, and what it returns satisfies `P`.
use mathlib.Core.Path.{◌≡◌, refl}
use mathlib.Core.Bool.{Bool, true, false}
use mathlib.Core.Option.{Option, none, some}
use downloader.Base.Tests.{if◌then◌else◌}
use downloader.Base.Outcomes.{Outcome, ret, ◌>>=◌, ◌>>◌, deref}

pub data Returns {A : Type 0} (P : A → Type 0) : Outcome A → Type 0 where
  returns : {a : A} → P a → Returns P (ret a)

module _ {A B : Type 0} where
  pub Returns-bind :
      (P : A → Type 0) (Q : B → Type 0) (m : Outcome A) (f : A → Outcome B)
      → Returns P m
      → ((a : A) → P a → Returns Q (f a))
      → Returns Q (m >>= f)
  Returns-bind P Q m f (returns {a} h) k = k a h

  pub Returns-option :
      (Q : B → Type 0) (o : Option A) (f : A → Outcome B) (g : Outcome B)
      → ((a : A) → o ≡ some a → Returns Q (f a))
      → (o ≡ none → Returns Q g)
      → Returns Q (elim o [ none ↦ g | some a ↦ f a ])
  Returns-option Q (some a) f g hf hg = hf a refl
  Returns-option Q none f g hf hg = hg refl

pub Returns-then :
    {B : Type 0} (Q : B → Type 0) (m : Outcome (Unit {0})) (k : Outcome B)
    → Returns (λ _. Unit {0}) m
    → Returns Q k
    → Returns Q (m >> k)
Returns-then Q m k (returns h) hk = hk

module _ {A : Type 0} where
  pub Returns-if :
      (Q : A → Type 0) (b : Bool) (f g : Outcome A)
      → (b ≡ true → Returns Q f)
      → (b ≡ false → Returns Q g)
      → Returns Q (if b then f else g)
  Returns-if Q true f g hf hg = hf refl
  Returns-if Q false f g hf hg = hg refl

  pub Returns-guard :
      (Q : A → Type 0) (b : Bool) (f g : Outcome A)
      → b ≡ true
      → Returns Q f
      → Returns Q (if b then f else g)
  Returns-guard Q true f g e h = h
  Returns-guard Q false f g e h = cc

  abbrev pub is_some : Option A → Bool
  is_some none = false
  is_some (some _) = true

  pub Returns-deref : (o : Option A) → is_some o ≡ true → Returns (λ a. o ≡ some a) (deref o)
  Returns-deref none h = cc
  Returns-deref (some a) h = returns refl

  -- The value that a call returns.
  pub Returns-ret : (P : A → Type 0) (m : Outcome A) → Returns P m → (a : A) × (m ≡ ret a) × P a
  Returns-ret P m (returns {a} h) = (a, refl, h)

  pub Returns-mono :
      (P Q : A → Type 0) (m : Outcome A) → ((a : A) → P a → Q a) → Returns P m → Returns Q m
  Returns-mono P Q m f (returns {a} h) = returns (f a h)

  pub Returns-self : (m : Outcome A) → Returns (λ _. Unit {0}) m → Returns (λ a. m ≡ ret a) m
  Returns-self m (returns u) = returns refl
