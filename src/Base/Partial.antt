-- ===== src/Base/Partial.antt =====
-- Partial correctness of a call: what it returns satisfies `P`, if it returns.
use mathlib.Core.Path.{◌≡◌, refl, subst}
use mathlib.Core.Bool.{Bool, true, false}
use mathlib.Core.Option.{Option, none, some}
use downloader.Base.Tests.{if◌then◌else◌}
use downloader.Base.Outcomes.{Outcome, ret, blocks, panics, ◌>>=◌, ◌>>◌}

pub data Yields {A : Type 0} (P : A → Type 0) : Outcome A → Type 0 where
  yields : {a : A} → P a → Yields P (ret a)
  yields_blocks : Yields P blocks
  yields_panics : Yields P panics

module _ {A B : Type 0} where
  pub Yields-bind :
      (P : A → Type 0) (Q : B → Type 0) (m : Outcome A) (f : A → Outcome B)
      → Yields P m
      → ((a : A) → P a → Yields Q (f a))
      → Yields Q (m >>= f)
  Yields-bind P Q m f (yields {a} h) k = k a h
  Yields-bind P Q m f yields_blocks k = yields_blocks
  Yields-bind P Q m f yields_panics k = yields_panics

  -- Of a call of which nothing is known.
  pub Yields-any :
      (Q : B → Type 0) (m : Outcome A) (f : A → Outcome B)
      → ((a : A) → Yields Q (f a))
      → Yields Q (m >>= f)
  Yields-any Q (ret a) f k = k a
  Yields-any Q blocks f k = yields_blocks
  Yields-any Q panics f k = yields_panics

  pub Yields-option :
      (Q : B → Type 0) (o : Option A) (f : A → Outcome B) (g : Outcome B)
      → ((a : A) → Yields Q (f a))
      → Yields Q g
      → Yields Q (elim o [ none ↦ g | some a ↦ f a ])
  Yields-option Q (some a) f g hf hg = hf a
  Yields-option Q none f g hf hg = hg

pub Yields-then :
    {B : Type 0} (Q : B → Type 0) (m : Outcome (Unit {0})) (k : Outcome B)
    → Yields Q k
    → Yields Q (m >> k)
Yields-then Q (ret u) k h = h
Yields-then Q blocks k h = yields_blocks
Yields-then Q panics k h = yields_panics

pub Yields-if :
    {A : Type 0} (Q : A → Type 0) (b : Bool) (f g : Outcome A)
    → (b ≡ true → Yields Q f)
    → (b ≡ false → Yields Q g)
    → Yields Q (if b then f else g)
Yields-if Q true f g hf hg = hf refl
Yields-if Q false f g hf hg = hg refl

pub Yields-ret :
    {A : Type 0} (P : A → Type 0) (m : Outcome A) (a : A) → Yields P m → m ≡ ret a → P a
Yields-ret P m a (yields h) e = subst P (ret-Injective e) h
  where
    ret-Injective : {A : Type 0} {a b : A} → ◌≡◌ {A = Outcome A} (ret a) (ret b) → a ≡ b
    ret-Injective h = cc
Yields-ret P m a yields_blocks e = absurd cc
Yields-ret P m a yields_panics e = absurd cc
