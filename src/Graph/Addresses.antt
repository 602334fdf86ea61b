-- ===== src/Graph/Addresses.antt =====
-- What a list of addresses does to the query for contracts.
use downloader.Base.{
  ℕ, any, String, ◌≡◌, refl, ap, ◌∙◌, Bool, false, ◌&&◌, some, List, [], ◌∷◌, filter, any, ret,
  arith,
}
use downloader.State.{ℤ}
use downloader.Options as Options
use downloader.Models.{Row, Codec}
use downloader.Models.Table.{Table}
use downloader.Models.Table.Index.{All}
use downloader.Graph.Order.{All-ordered, All-imp}
use downloader.Graph.Contracts.{
  Library, answered, ContractArgs, empty, matches, above, uint, actual_limit, ordered, selected,
  start_after, scan_rows, page_info_of, resolve_contracts,
}
use downloader.Graph.Pages.{no_fault, preloaded, resolve_contracts-started}

any-none : (p : ℕ → Bool) (ns : List ℕ) → ((n : ℕ) → p n ≡ false) → any p ns ≡ false
any-none p [] h = refl
any-none p (n ∷ ns) h = rw (h n) (any-none p ns h)

filter-none : (p : Row → Bool) (rows : List Row) → All (λ r. p r ≡ false) rows → filter p rows ≡ []
filter-none p [] h = refl
filter-none p (r ∷ rows) h = rw (h.0, filter) (filter-none p rows h.1)

module _ (lib : Library) (k : Codec) (networks : List Options.Network)
    (preloads : List String) where
  refused_row :
      (args : ContractArgs) (x : ℤ) (r : Row)
      → empty args.addresses ≡ false
      → ((n : ℕ) → lib.is_text_of n r.address ≡ false)
      → (above x r && matches lib args r) ≡ false
  unfolding matches
  refused_row args x r given h =
      ground (arith, given, any-none (λ n. lib.is_text_of n r.address) args.network_ids h)

  -- Over a table in which no address is the text of a number, on an engine that does not fail: a query
  -- that names any addresses, whatever they are, answers an empty page that is the last one.
  pub resolve_contracts-addresses :
      (args : ContractArgs) (x : ℤ) (t : Table)
      → ((n : ℕ) → lib.limited n [] ≡ [])
      → empty args.addresses ≡ false
      → start_after lib k networks args ≡ some x
      → All (λ r. (n : ℕ) → lib.is_text_of n r.address ≡ false) t.rows
      → resolve_contracts lib k networks no_fault preloads args t
        ≡ ret (
            answered
              (record { edges = []; page_info = page_info_of lib (actual_limit lib args) [] }))
  resolve_contracts-addresses args x t limiting given start no_number =
      let none_left : filter (λ r. above (lib.int64 x) r && matches lib args r) (ordered t.rows)
          ≡ [] =
        filter-none _ (ordered t.rows) (
          All-imp _ _ (ordered t.rows) (λ r h. refused_row args (lib.int64 x) r given h)
            (All-ordered _ t.rows no_number)) in
      let page : selected lib args (lib.int64 x) t ≡ [] =
        ap (lib.limited (uint (actual_limit lib args))) none_left ∙ limiting _ in
      resolve_contracts-started lib k networks preloads t args x [] start (
        ap (scan_rows lib k networks (preloaded lib k networks preloads) []) page
        ∙ unfold scan_rows in refl)
