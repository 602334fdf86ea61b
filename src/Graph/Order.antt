-- ===== src/Graph/Order.antt =====
-- Rows in the order of their ids: what `ORDER BY id` and `id > after` make of them.
use downloader.Base.{
  ℕ, ◌≤◌, ◌<◌, ◌≡◌, ◌≢◌, refl, Bool, ◌&&◌, List, [], ◌∷◌, ◌++◌, ltb, filter, last_or, inl, inr,
  Bool-cases, arith,
}
use downloader.State.{pos}
use downloader.Models.{Row}
use downloader.Models.Table.Index.{All, AreDistinct}
use downloader.Graph.Contracts.{place, ordered, above}

-- Ids that grow.
abbrev pub IsAscending : List Row → Type 0
IsAscending [] = Unit {0}
IsAscending (r ∷ rows) = All (λ x. r.id < x.id) rows × IsAscending rows

All-place : (P : Row → Type 0) (r : Row) (rows : List Row) → P r → All P rows → All P (place r rows)
All-place P r [] p h = (p, tt)
All-place P r (x ∷ rows) p h = elim (Bool-cases (ltb r.id x.id)) [
  | inl e ↦ rw (e, place) (p, h)
  | inr e ↦ rw (e, place) (h.0, All-place P r rows p h.1)
]

pub All-ordered : (P : Row → Type 0) (rows : List Row) → All P rows → All P (ordered rows)
All-ordered P [] h = tt
All-ordered P (r ∷ rows) h = All-place P r (ordered rows) h.0 (All-ordered P rows h.1)

pub All-imp :
    (P Q : Row → Type 0) (rows : List Row) → ((r : Row) → P r → Q r) → All P rows → All Q rows
All-imp P Q [] f h = tt
All-imp P Q (r ∷ rows) f h = (f r h.0, All-imp P Q rows f h.1)

place-IsAscending :
    (r : Row) (rows : List Row)
    → All (λ x. r.id ≢ x.id) rows
    → IsAscending rows
    → IsAscending (place r rows)
place-IsAscending r [] d a = (tt, tt)
place-IsAscending r (x ∷ rows) d a = elim (Bool-cases (ltb r.id x.id)) [
  | inl e ↦ rw (e, place) ((ground (arith, e), All-imp _ _ rows (λ y h. ground (arith, e)) a.0), a)
  | inr e ↦
      rw (e, place) (All-place _ r rows (ground (arith, e)) a.0, place-IsAscending r rows d.1 a.1)
]

-- Rows with distinct ids have growing ids once they are ordered.
pub ordered-IsAscending : (rows : List Row) → AreDistinct rows → IsAscending (ordered rows)
ordered-IsAscending [] d = tt
ordered-IsAscending (r ∷ rows) d =
    place-IsAscending r (ordered rows)
      (All-ordered _ rows (All-imp _ _ rows (λ x h. ground (arith, h.0)) d.0))
      (ordered-IsAscending rows d.1)

pub All-filter :
    (P : Row → Type 0) (p : Row → Bool) (rows : List Row) → All P rows → All P (filter p rows)
All-filter P p [] h = tt
All-filter P p (r ∷ rows) h = ground (arith, All-filter P p rows h.1)

pub filter-IsAscending :
    (p : Row → Bool) (rows : List Row) → IsAscending rows → IsAscending (filter p rows)
filter-IsAscending p [] a = tt
filter-IsAscending p (r ∷ rows) a = elim (Bool-cases (p r)) [
  | inl e ↦ rw (e, filter) (All-filter _ p rows a.0, filter-IsAscending p rows a.1)
  | inr e ↦ rw (e, filter) (filter-IsAscending p rows a.1)
]

pub filter-and :
    (p q : Row → Bool) (rows : List Row) → filter (λ r. p r && q r) rows ≡ filter p (filter q rows)
filter-and p q [] = refl
filter-and p q (r ∷ rows) = ground (arith, filter-and p q rows)

-- The rows after an id, of a list that is cut at that id.
pub filter-above :
    (n : ℕ) (front back : List Row)
    → All (λ r. r.id ≤ n) front
    → All (λ r. n < r.id) back
    → filter (above (pos n)) (front ++ back) ≡ back
filter-above n [] [] f b = refl
filter-above n [] (r ∷ back) f b = ground (arith, filter-above n [] back tt b.1)
filter-above n (r ∷ front) back f b = ground (arith, filter-above n front back f.1 b)

pub All-append :
    (P : Row → Type 0) (front back : List Row) → All P front → All P back → All P (front ++ back)
All-append P [] back f b = b
All-append P (r ∷ front) back f b = (f.0, All-append P front back f.1 b)

pub All-back : (P : Row → Type 0) (front back : List Row) → All P (front ++ back) → All P back
All-back P [] back h = h
All-back P (r ∷ front) back h = All-back P front back h.1

pub All-front : (P : Row → Type 0) (front back : List Row) → All P (front ++ back) → All P front
All-front P [] back h = tt
All-front P (r ∷ front) back h = (h.0, All-front P front back h.1)

pub All-last :
    (P : Row → Type 0) (r : Row) (rows : List Row) → P r → All P rows → P (last_or r rows)
All-last P r [] p h = p
All-last P r (x ∷ rows) p h = All-last P x rows h.0 h.1

pub IsAscending-back : (front back : List Row) → IsAscending (front ++ back) → IsAscending back
IsAscending-back [] back a = a
IsAscending-back (r ∷ front) back a = IsAscending-back front back a.1

pub IsAscending-front : (front back : List Row) → IsAscending (front ++ back) → IsAscending front
IsAscending-front [] back a = tt
IsAscending-front (r ∷ front) back a =
    (All-front _ front back a.0, IsAscending-front front back a.1)

-- Ids grow towards the last row of a page, and go on above it.
pub below-last :
    (r : Row) (rows : List Row)
    → IsAscending (r ∷ rows)
    → All (λ x. x.id ≤ (last_or r rows).id) (r ∷ rows)
below-last r [] a = (omega arith, tt)
below-last r (x ∷ rows) a = let rest = below-last x rows a.1 in (omega (arith, rest.0, a.0.0), rest)

pub above-last :
    (r : Row) (rows back : List Row)
    → IsAscending ((r ∷ rows) ++ back)
    → All (λ x. (last_or r rows).id < x.id) back
above-last r [] back a = a.0
above-last r (x ∷ rows) back a = above-last x rows back a.1
