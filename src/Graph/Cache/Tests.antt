-- ===== src/Graph/Cache/Tests.antt =====
-- A query that is added beside the numbers of the state.
use downloader.Base.{
  ℕ, String, ◌≡◌, refl, ap, sym, ◌∙◌, false, Option, none, some, List, [], ◌∷◌, ◌==◌, ==_refl,
  insert, lookup-insert,
}
use downloader.Cache.{Reply, value, nil}
use downloader.State.Store.{load}
use downloader.State.Store.Recovery.{IsSynced, fresh, Reaches-IsSynced, starts}
use downloader.State.Store.Samples.{client, big, big-IsBig, client-IsStoring}
use downloader.Graph.Cache.{IsExpiring, Expiring, add, add-IsSynced}

abbrev set_expiring : Expiring client
set_expiring key b ttl s = (none, insert key b s)

abbrev answered : Option (List ℕ) → Reply (List ℕ)
answered none = nil
answered (some b) = value b

set_expiring-IsExpiring : IsExpiring client set_expiring
set_expiring-IsExpiring = record {
  stores = λ key b ttl s s' e. ap (λ r. client.get_key key r.1) (sym e) ∙ found key b s;
  spares = λ key other b ttl s h. spared key other b s h;
}
  where
    found :
        (key : String) (b : List ℕ) (s : List (String × List ℕ))
        → client.get_key key (insert key b s) ≡ value b
    found key b s = rw (lookup-insert key key b s, ==_refl key) refl

    spared :
        (key other : String) (b : List ℕ) (s : List (String × List ℕ))
        → (key == other) ≡ false
        → client.get_key other (insert key b s) ≡ client.get_key other s
    spared key other b s h = rw (lookup-insert key other b s, h) refl

loaded : load big client fresh [] ≡ (none, fresh)
unfolding load
loaded = refl

add-IsSynced_example : IsSynced big client fresh (add client set_expiring 60 "1f" (7 ∷ []) [])
add-IsSynced_example =
    add-IsSynced client set_expiring 60 big "1f" (7 ∷ []) fresh [] set_expiring-IsExpiring
      (Reaches-IsSynced big client fresh [] big-IsBig client-IsStoring (starts loaded))
