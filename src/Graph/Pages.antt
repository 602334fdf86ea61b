-- ===== src/Graph/Pages.antt =====
-- The pages of the query for contracts: what one page holds, and what a client sees that asks for the
-- next page, after the end cursor, as long as there is one.
pub mod Reading
use mathlib.Core.List.{map-append, append-nil, append_assoc}
use native.Mathlib.Nat.{mod-eq_of_lt}
use downloader.Base.{
  length-map, length-drop-le, last_or, nat_eq, length-take-le, take-append-drop, drop-eq-nil, zero,
  length-append, ℕ, suc, ◌+◌, ◌^◌, ◌%◌, ◌≤◌, ◌<◌, String, ◌≡◌, ◌≢◌, refl, sym, ap, subst, ◌∙◌, Bool,
  true, false, ◌&&◌, Option, none, some, List, [], ◌∷◌, ◌++◌, map, ltb, if◌then◌else◌, filter, take,
  drop, length, contains, inl, inr, Bool-cases, Outcome, ret, ◌>>=◌, arith,
}
use downloader.State.{ℤ, pos}
use downloader.Options as Options
use downloader.Models.{Contract, Row, Codec}
use downloader.Models.Columns.{found, decode}
use downloader.Models.Columns.RoundTrip.{id-decode}
use downloader.Models.Table.{Table}
use downloader.Models.Table.Index.{All, AreDistinct}
use downloader.Graph.{Edge, Connection}
use downloader.Graph.Order.{
  IsAscending, ordered-IsAscending, All-ordered, All-filter, filter-IsAscending, filter-and,
  filter-above, All-append, All-imp, All-back, All-front, All-last, IsAscending-back,
  IsAscending-front, below-last, above-last,
}
use downloader.Graph.Contracts.{
  is_int, uint, end_cursor, decode_cursor, actual_limit, start_after, selected, Library, Fault,
  Answer, answered, ContractArgs, place, ordered, above, matches, resolve_contracts, encode_cursor,
  scan_rows, edge_of, page_info_of,
}

abbrev pub no_fault : Fault
no_fault = record { at_prepare = none; at_exec = none; at_next = none }

-- A limit that is not zero is SQL's.
abbrev pub IsLimiting : Library → Type 0
IsLimiting lib = (n : ℕ) (rows : List Row) → 0 < n → lib.limited n rows ≡ take n rows

-- Decoding gives back what was encoded, and `Int64` the number that it holds.
pub record IsWire (lib : Library) : Type 0 where
  pub base64_back :
      (n : ℕ) → lib.base64_decode (lib.base64_encode (lib.gob_encode n)) ≡ some (lib.gob_encode n)
  pub gob_back : (n : ℕ) → lib.gob_decode (lib.gob_encode n) ≡ some (pos n)
  pub int64_back : (n : ℕ) → n < 2 ^ 63 → lib.int64 (pos n) ≡ pos n

-- Where the base64 and gob encodings decode to what was encoded, the cursor of a contract decodes to
-- its id.
pub decode_cursor-encode_cursor :
    (lib : Library)
    → IsWire lib
    → (c : Contract) → decode_cursor lib (encode_cursor lib c) ≡ some (pos c.id)
unfolding decode_cursor encode_cursor
decode_cursor-encode_cursor lib w c =
    rw (decode_cursor, encode_cursor, w.base64_back c.id) (w.gob_back c.id)

cursor-edge_of :
    (lib : Library) (k : Codec) (networks : List Options.Network) (b : Bool) (c : Contract)
    (e : Edge)
    → edge_of lib k networks b c ≡ ret e
    → e.cursor ≡ encode_cursor lib c
cursor-edge_of lib k networks b c e h = ground arith

module _ (lib : Library) (k : Codec) (networks : List Options.Network)
    (preloads : List String) where
  abbrev pub preloaded : Bool
  preloaded = contains "edges.node.network" preloads

  -- A row that can be read, whose edge is the given one.
  abbrev pub IsShown : (Row → Edge) → Row → Type 0
  IsShown edge r =
      (c : Contract) × (decode k r ≡ found c)
      × (edge_of lib k networks (contains "edges.node.network" preloads) c ≡ ret (edge r))

  pub scan_rows-shown :
      (edge : Row → Edge) (rows : List Row) (edges : List Edge)
      → All (IsShown edge) rows
      → scan_rows lib k networks preloaded edges rows ≡ ret (answered (edges ++ map edge rows))
  unfolding scan_rows
  scan_rows-shown edge [] edges h = ap (λ e. ret (answered e)) (sym (append-nil edges))
  scan_rows-shown edge (r ∷ rows) edges ((c, d, e), h) =
      rw (d, scan_rows, e, scan_rows-shown edge rows (edges ++ edge r ∷ []) h)
        (ap (λ e. ret (answered e)) (append_assoc edges (edge r ∷ []) (map edge rows)))

  -- What a client reads that starts with the given arguments: the edges of a page, and those of the
  -- pages after its end cursor if it says that there are more.
  pub data Reads (t : Table) : ContractArgs → List Edge → Type 0 where
    last_page :
        {args : ContractArgs} (c : Connection)
        → resolve_contracts lib k networks no_fault preloads args t ≡ ret (answered c)
        → c.page_info.has_next_page ≡ false
        → Reads t args c.edges
    next_page :
        {args : ContractArgs} (c : Connection) (rest : List Edge)
        → resolve_contracts lib k networks no_fault preloads args t ≡ ret (answered c)
        → c.page_info.has_next_page ≡ true
        → Reads t (record args { after = some c.page_info.end_cursor }) rest
        → Reads t args (c.edges ++ rest)

  abbrev pub connection : ContractArgs → List Edge → Connection
  connection args edges = record {
    edges = edges;
    page_info = page_info_of lib (actual_limit lib args) edges;
  }

  pub resolve_contracts-started :
      (t : Table) (args : ContractArgs) (x : ℤ) (edges : List Edge)
      → start_after lib k networks args ≡ some x
      → scan_rows lib k networks preloaded [] (selected lib args (lib.int64 x) t)
        ≡ ret (answered edges)
      → resolve_contracts lib k networks no_fault preloads args t
        ≡ ret (answered (connection args edges))
  unfolding resolve_contracts
  resolve_contracts-started t args x edges start scan = rw (resolve_contracts, start, scan) refl

  -- The rows of a page that starts after an id, where the matching rows are cut at that id.
  pub selected-split :
      (t : Table) (args : ContractArgs) (n a : ℕ) (front back : List Row)
      → IsLimiting lib
      → actual_limit lib args ≡ pos n
      → 0 < n
      → n < 2 ^ 64
      → filter (matches lib args) (ordered t.rows) ≡ front ++ back
      → All (λ r. r.id ≤ a) front
      → All (λ r. a < r.id) back
      → selected lib args (pos a) t ≡ take n back
  selected-split t args n a front back limiting limit positive small split below over =
      let whole : n % 2 ^ 64 ≡ n = mod-eq_of_lt small in
      let rows : filter (λ r. above (pos a) r && matches lib args r) (ordered t.rows) ≡ back =
        filter-and (above (pos a)) (matches lib args) (ordered t.rows)
        ∙ (ap (filter (above (pos a))) split ∙ filter-above a front back below over) in
      ap
        (λ l.
          lib.limited (uint l)
            (filter (λ r. above (pos a) r && matches lib args r) (ordered t.rows)))
        limit
      ∙ (ap
            (λ u.
              lib.limited u (filter (λ r. above (pos a) r && matches lib args r) (ordered t.rows)))
            whole
          ∙ (ap (lib.limited n) rows ∙ limiting n back positive))

  pub end_cursor-map :
      (edge : Row → Edge) (r : Row) (rows : List Row)
      → end_cursor lib (edge r) (map edge rows) ≡ (edge (last_or r rows)).cursor
  end_cursor-map edge r [] = refl
  end_cursor-map edge r (x ∷ rows) = end_cursor-map edge x rows

  -- The cursor of a shown row leads back to its id.
  pub cursor-IsShown :
      (edge : Row → Edge) (r : Row)
      → IsWire lib
      → r.id < 2 ^ 63
      → IsShown edge r
      → (decode_cursor lib (edge r).cursor ≡ some (pos r.id)) × (lib.int64 (pos r.id) ≡ pos r.id)
  cursor-IsShown edge r w small (c, d, e) = (
    subst (λ s. decode_cursor lib s ≡ some (pos r.id))
        (sym (cursor-edge_of lib k networks preloaded c (edge r) e))
        (decode_cursor-encode_cursor lib w c ∙ ap (λ n. some (pos n)) (id-decode k r c d)),
    w.int64_back r.id small,
  )
