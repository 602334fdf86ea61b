-- ===== src/State/Store/Samples.antt =====
-- A server that is an association list, and numbers of one big digit.
use downloader.Base.{
  ℕ, ◌≡◌, refl, ap, subst, String, Option, none, some, List, [], ◌∷◌, if◌then◌else◌, ◌==◌, insert,
  lookup, lookup-insert, Bool-cases, inl, inr,
}
use downloader.Cache.{Client, Reply, IsStoring, value, nil}
use downloader.State.Store.{Big, IsBig}

abbrev answered : Option (List ℕ) → Reply (List ℕ)
answered none = nil
answered (some b) = value b

abbrev pub client : Client
client = record {
  Server = List (String × List ℕ);
  get_key = λ key s. answered (lookup key s);
  set_key = λ key b s. (none, insert key b s);
  exists_key = λ key s. elim (lookup key s) [ none ↦ value 0 | some _ ↦ value 1 ];
  ping = λ s. none;
}

abbrev head_or_zero : List ℕ → ℕ
head_or_zero [] = 0
head_or_zero (n ∷ ns) = n

-- One big digit.
abbrev pub big : Big
big = record { bytes = λ n. n ∷ []; set_bytes = head_or_zero }

pub big-IsBig : IsBig big
big-IsBig = record { bytes_back = λ n. refl }

pub client-IsStoring : IsStoring client
client-IsStoring = record {
  stores = λ key other b s s' e.
      subst
        (λ t.
          answered (lookup other t) ≡ (if key == other then value b else answered (lookup other s)))
        (ap (λ x. x.1) e) (reads key other b s);
}
  where
    reads :
        (key other : String) (b : List ℕ) (s : List (String × List ℕ))
        → answered (lookup other (insert key b s))
          ≡ (if key == other then value b else answered (lookup other s))
    reads key other b s = elim (Bool-cases (key == other)) [
      | inl e ↦ rw (lookup-insert key other b s, e) refl
      | inr e ↦ rw (lookup-insert key other b s, e) refl
    ]
