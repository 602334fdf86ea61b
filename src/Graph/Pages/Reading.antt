-- ===== src/Graph/Pages/Reading.antt =====
-- Reading all the pages of the query for contracts.
use mathlib.Core.List.{map-append, append-nil, append_assoc}
use downloader.Base.{
  length-map, length-drop-le, last_or, nat_eq, take-append-drop, drop-eq-nil, zero, ℕ, suc, ◌^◌,
  ◌≤◌, ◌<◌, String, ◌≡◌, refl, sym, ap, subst, ◌∙◌, Bool, true, false, none, some, List, [], ◌∷◌,
  ◌++◌, map, filter, take, drop, length, inl, inr, Bool-cases, ret, arith,
}
use downloader.State.{ℤ, pos}
use downloader.Options as Options
use downloader.Models.{Row, Codec}
use downloader.Models.Table.{Table}
use downloader.Models.Table.Index.{All, AreDistinct}
use downloader.Graph.{Edge}
use downloader.Graph.Order.{
  IsAscending, ordered-IsAscending, All-ordered, All-filter, filter-IsAscending, All-append,
  All-imp, All-back, All-front, All-last, IsAscending-back, IsAscending-front, below-last,
  above-last,
}
use downloader.Graph.Contracts.{
  is_int, end_cursor, decode_cursor, actual_limit, start_after, selected, Library, answered,
  ContractArgs, ordered, matches, resolve_contracts, scan_rows,
}
use downloader.Graph.Pages.{
  no_fault, IsLimiting, IsWire, Reads, last_page, next_page, IsShown, preloaded, connection,
  resolve_contracts-started, selected-split, end_cursor-map, cursor-IsShown, scan_rows-shown,
}

module _ (lib : Library) (k : Codec) (networks : List Options.Network)
    (preloads : List String) where
  module _ (edge : Row → Edge) (t : Table) (n : ℕ) (limiting : IsLimiting lib) (wire : IsWire lib)
      (small : suc n < 2 ^ 64) where
    -- The arguments start after an id, and the matching rows are cut there.
    record IsCut (args : ContractArgs) (a : ℕ) (front back : List Row) : Type 0 where
      limit : actual_limit lib args ≡ pos (suc n)
      from : ℤ
      start : start_after lib k networks args ≡ some from
      from_id : lib.int64 from ≡ pos a
      split : filter (matches lib args) (ordered t.rows) ≡ front ++ back
      below : All (λ r. r.id ≤ a) front
      over : All (λ r. a < r.id) back
      ascending : IsAscending back
      shown : All (IsShown lib k networks preloads edge) back
      ids : All (λ r. r.id < 2 ^ 63) back

    page :
        (args : ContractArgs) (a : ℕ) (front back : List Row)
        → IsCut args a front back
        → resolve_contracts lib k networks no_fault preloads args t
          ≡ ret (answered (connection lib k networks preloads args (map edge (take (suc n) back))))
    page args a front back c =
        let rows : selected lib args (lib.int64 c.from) t ≡ take (suc n) back =
          ap (λ x. selected lib args x t) c.from_id
          ∙ selected-split lib k networks preloads t args (suc n) a front back limiting c.limit
              (omega arith) small c.split c.below c.over in
        resolve_contracts-started lib k networks preloads t args c.from
          (map edge (take (suc n) back)) c.start
          (ap (scan_rows lib k networks (preloaded lib k networks preloads) []) rows
            ∙ scan_rows-shown lib k networks preloads edge (take (suc n) back) [] (
                All-front _ (take (suc n) back) (drop (suc n) back) (
                  subst (All (IsShown lib k networks preloads edge))
                    (sym (take-append-drop (suc n) back)) c.shown)))

    -- The end cursor of a page cuts the matching rows after that page.
    after_page :
        (args : ContractArgs) (a : ℕ) (front : List Row) (r : Row) (rows rest : List Row)
        (cursor : String)
        → cursor ≡ (edge (last_or r rows)).cursor
        → IsCut args a front ((r ∷ rows) ++ rest)
        → IsCut (record args { after = some cursor }) (last_or r rows).id (front ++ r ∷ rows) rest
    unfolding matches
    after_page args a front r rows rest cursor at c =
        let ids = All-front _ (r ∷ rows) rest c.ids in
        let shown = All-front _ (r ∷ rows) rest c.shown in
        let last =
          cursor-IsShown lib k networks preloads edge (last_or r rows) wire
            (All-last _ r rows ids.0 ids.1) (All-last _ r rows shown.0 shown.1) in
        let lower : All (λ x. x.id ≤ (last_or r rows).id) (r ∷ rows) =
          below-last r rows (IsAscending-front (r ∷ rows) rest c.ascending) in
        let start : a < r.id = c.over.0 in
        record {
          limit = c.limit;
          from = pos (last_or r rows).id;
          start = ap (decode_cursor lib) at ∙ last.0;
          from_id = last.1;
          split = c.split ∙ sym (append_assoc front (r ∷ rows) rest);
          below =
              All-append _ front (r ∷ rows)
                (All-imp _ _ front (λ x h. omega (arith, lower.0)) c.below) lower;
          over = above-last r rows rest c.ascending;
          ascending = IsAscending-back (r ∷ rows) rest c.ascending;
          shown = All-back _ (r ∷ rows) rest c.shown;
          ids = All-back _ (r ∷ rows) rest c.ids;
        }

    has_next :
        (args : ContractArgs) (rows : List Row) (r : Row) (b : Bool)
        → actual_limit lib args ≡ pos (suc n)
        → nat_eq (length rows) n ≡ b
        → (connection lib k networks preloads args (map edge (r ∷ rows))).page_info.has_next_page
          ≡ b
    has_next args rows r b limit e =
        ap (is_int (suc (length (map edge rows)))) limit ∙ ground (arith, length-map edge rows, e)

    Reads-back :
        (m a : ℕ) (args : ContractArgs) (front back : List Row)
        → length back < m
        → IsCut args a front back
        → Reads lib k networks preloads t args (map edge back)
    Reads-back zero a args front back fuel c = absurd (omega arith)
    Reads-back (suc m) a args front [] fuel c =
        last_page (connection lib k networks preloads args []) (page args a front [] c) refl
    Reads-back (suc m) a args front (r ∷ back) fuel c =
        let whole = ap (r ∷◌) (take-append-drop n back) in
        elim (Bool-cases (nat_eq (length (take n back)) n)) [
          | inr e ↦
              let none_left = drop-eq-nil n back (λ h. ground (arith, e, h)) in
              let all =
                sym (append-nil (r ∷ take n back))
                ∙ (ap (λ d. (r ∷ take n back) ++ d) (sym none_left) ∙ whole) in
              subst (λ b. Reads lib k networks preloads t args (map edge b)) all
                (last_page (connection lib k networks preloads args (map edge (r ∷ take n back)))
                  (page args a front (r ∷ back) c) (has_next args (take n back) r false c.limit e))
          | inl e ↦
              let after = some (end_cursor lib (edge r) (map edge (take n back))) in
              let next =
                Reads-back m (last_or r (take n back)).id (record args { after = after })
                  (front ++ r ∷ take n back) (drop n back) (omega (arith, length-drop-le n back))
                  (after_page args a front r (take n back) (drop n back) _
                    (end_cursor-map lib k networks preloads edge r (take n back))
                    (subst (IsCut args a front) (sym whole) c)) in
              subst (Reads lib k networks preloads t args)
                (sym (map-append edge (r ∷ take n back) (drop n back)) ∙ ap (map edge) whole)
                (next_page (connection lib k networks preloads args (map edge (r ∷ take n back)))
                  (map edge (drop n back)) (page args a front (r ∷ back) c)
                  (has_next args (take n back) r true c.limit e) next)
        ]

  -- A query with a limit that is not zero and without a cursor, over a table with distinct ids from 1
  -- to less than 2 ^ 63, where every row can be read, the engine and the encodings work: a client that
  -- asks for the next page as long as there is one reads the edges of all matching rows, each once, in
  -- the order of their ids, in finitely many pages.
  pub resolve_contracts-Reads :
      (edge : Row → Edge) (t : Table) (n : ℕ) (args : ContractArgs)
      → IsLimiting lib
      → IsWire lib
      → 0 < n
      → n < 2 ^ 64
      → actual_limit lib args ≡ pos n
      → args.after ≡ none
      → AreDistinct t.rows
      → All (λ r. 0 < r.id) t.rows
      → All (λ r. r.id < 2 ^ 63) t.rows
      → All (IsShown lib k networks preloads edge) t.rows
      → Reads lib k networks preloads t args (map edge (filter (matches lib args) (ordered t.rows)))
  resolve_contracts-Reads edge t zero args limiting wire positive small limit first d low high
        shown =
      absurd (omega arith)
  resolve_contracts-Reads edge t (suc n) args limiting wire positive small limit first d low high
        shown =
      let of_matching : (P : Row → Type 0)
          → All P t.rows
          → All P (filter (matches lib args) (ordered t.rows)) =
        λ P h. All-filter P (matches lib args) (ordered t.rows) (All-ordered P t.rows h) in
      Reads-back edge t n limiting wire small
        (suc (length (filter (matches lib args) (ordered t.rows)))) 0 args []
        (filter (matches lib args) (ordered t.rows)) (omega arith)
        (record {
          limit = limit;
          from = pos 0;
          start = rw first refl;
          from_id = wire.int64_back 0 (omega arith);
          split = refl;
          below = tt;
          over = of_matching _ low;
          ascending =
              filter-IsAscending (matches lib args) (ordered t.rows) (ordered-IsAscending t.rows d);
          shown = of_matching _ shown;
          ids = of_matching _ high;
        })
