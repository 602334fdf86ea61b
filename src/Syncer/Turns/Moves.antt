-- ===== src/Syncer/Turns/Moves.antt =====
-- The turn of a goroutine: one round of its machine, on the table as it is.
use downloader.Base.{
  ℕ, suc, ◌-◌, ◌≡◌, refl, sym, ap, subst, ◌∙◌, Bool, true, false, none, some, String, List, ◌++◌,
  [], ◌∷◌, Outcome, ret, Returns, returns, Returns-ret, if◌then◌else◌, arith,
}
use downloader.Machine.{State}
use downloader.Machine.Process.{stop, next, round}
use downloader.Models.{Contract, Row, Codec}
use downloader.Models.Table.Lookup.{first-append}
use downloader.Models.Table.{Table, first, same_index, get_contract_by_unique_index}
use downloader.Unpacker.States.{discover_state, metadata_state, final_state, done_state}
use downloader.Unpacker.Descriptor.{Descriptor}
use downloader.Unpacker.Library.{Solgo, Store, Config}
use downloader.Unpacker.Entry.{Job, Processed, get_contract_entry}
use downloader.Unpacker.Discover.{discover}
use downloader.Unpacker.Final.{store_entry, process_final}
use downloader.Unpacker.Assembly.{Sm, at}
use downloader.Unpacker.Assembly.Rounds.{round-moves, round-ends}
use downloader.Unpacker.Flow.{IsCalm, IsPrepared}
use downloader.Unpacker.Flow.Opening.{IsFetched, IsOpened, discover-opens}
use downloader.Unpacker.Flow.Stages.{GoesTo}
use downloader.Unpacker.Flow.Storing.{IsStored, entry_fields, process_final-Returns}
use downloader.Unpacker.Study.{known, discover-IsStage, metadata-IsStage, final-IsStage}
use downloader.Storage.{table_store, text_of}
use downloader.Storage.Kept.{IsWriting, store_entry-saved, save_fresh}
use downloader.Syncer.Turns.{Thread, running, ended, seat, turn}
use downloader.Syncer.Turns.Links.{IsLink, Left, last, link, metadata-Left}
use downloader.Syncer.Turns.Phases.{
  Key, index, IsFresh, IsKept, Spares, IsAbout, IsWaiting, Phase, waits, studies, is_over,
}

module _ (k : Codec) (violation : String) (S : Solgo) (cfg : Config) (calm : IsCalm S)
    (writes : IsWriting k) where
  abbrev W : Store
  W = table_store k violation

  -- A turn has made one round, without an error, and spares the rows of other contracts.
  abbrev pub Turned : Key → Table → ℕ → Thread S W cfg × Table × S.Files → Type 0
  Turned key t n (th, t', files) =
      Phase k violation S cfg key t' (n - 1) th × Spares k violation key t t'

  -- The first round finds nothing in the table.
  opens :
      (key : Key) (j : Job S W)
      → IsWaiting k violation S cfg key j
      → IsFresh k violation key j.db
      → IsFetched S W cfg j key.header none
  unfolding get_contract_by_unique_index
  opens key j w f = record {
    header_is = w.header_is;
    has_tx = w.has_tx;
    has_receipt = w.has_receipt;
    has_contract = w.has_contract;
    not_directed = w.not_directed;
    answered = rw (w.network_is, w.addr_is, f) refl;
  }

  turn-next :
      (m m' : Sm S W cfg) (t : Table) (files : S.Files)
      → round false (seat S W cfg t files m) ≡ ret (next m')
      → turn S W cfg (running m) t files ≡ ret (running m', m'.carried.db, m'.carried.files)
  unfolding turn
  turn-next m m' t files e = rw e refl

  turn-stop :
      (m m' : Sm S W cfg) (t : Table) (files : S.Files)
      → round false (seat S W cfg t files m) ≡ ret (stop none m')
      → turn S W cfg (running m) t files ≡ ret (ended none m', m'.carried.db, m'.carried.files)
  unfolding turn
  turn-stop m m' t files e = rw e refl

  Returns-is : {A : Type 0} (P : A → Type 0) (o : Outcome A) (a : A) → o ≡ ret a → P a → Returns P o
  Returns-is P o a e h = rw e (returns h)

  -- The round that looks the contract up.
  turn-waits :
      (key : Key) (t : Table) (files : S.Files) (j : Job S W) (v : List State)
      → IsWaiting k violation S cfg key j
      → IsFresh k violation key t
      → Returns (Turned key t 7) (turn S W cfg (running (at S W cfg discover_state j v)) t files)
  turn-waits key t files j v w f =
      let j0 : Job S W = record j { db = t; files = files } in
      let w0 : IsWaiting k violation S cfg key j0 = record {
        network_is = w.network_is;
        addr_is = w.addr_is;
        header_is = w.header_is;
        has_tx = w.has_tx;
        has_receipt = w.has_receipt;
        has_contract = w.has_contract;
        not_directed = w.not_directed;
      } in
      let ((s1, j1, err1), e1, g1) =
        Returns-ret (IsOpened S W cfg none j0) (discover S W cfg j0)
          (discover-opens S W cfg calm j0 key.header none (opens key j0 w0 f) refl) in
      Returns-is (Turned key t 7) (turn S W cfg (running (at S W cfg discover_state j v)) t files)
        (running (at S W cfg metadata_state j1 (v ++ metadata_state ∷ [])), j1.db, j1.files)
        (turn-next (at S W cfg discover_state j v) _ t files (
          round-moves S W cfg (discover S W cfg) discover_state metadata_state j0 j1 v
            (discover-IsStage S W cfg) (e1 ∙ rw (← g1.0, ← g1.1) refl)
            (known S W cfg metadata_state metadata_state _ j1 v (metadata-IsStage S W cfg)) refl))
        (
          studies j1 (v ++ metadata_state ∷ []) (metadata-Left S W cfg calm) g1.2
              (record {
                no_model = ap (λ i. i.0) g1.3;
                network_is = ap (λ i. i.1) g1.3 ∙ w.network_is;
                addr_is = ap (λ i. i.2) g1.3 ∙ w.addr_is;
                header_is = ap (λ i. i.3) g1.3 ∙ w.header_is;
              })
              (ap (λ (db : Table). first (index k violation key) db.rows) g1.4 ∙ f),
          λ q m. ap (λ (db : Table). first q db.rows) g1.4,
        )

  -- A round in the middle.
  turn-links :
      (key : Key) (t : Table) (files : S.Files) (j : Job S W) (v : List State) (n : ℕ)
      (s s' : State) (p : Job S W → Processed S W)
      → IsLink S W cfg s s' p
      → Left S W cfg n s'
      → IsPrepared j.descriptor
      → IsAbout k violation S cfg key j.descriptor
      → IsFresh k violation key t
      → Returns (Turned key t (suc n)) (turn S W cfg (running (at S W cfg s j v)) t files)
  turn-links key t files j v n s s' p l left prepared about f =
      let j0 : Job S W = record j { db = t; files = files } in
      let ((s1, j1, err1), e1, g1) = Returns-ret (GoesTo s' j0) (p j0) (l.goes j0 prepared) in
      Returns-is (Turned key t (suc n)) (turn S W cfg (running (at S W cfg s j v)) t files)
        (running (at S W cfg s' j1 (v ++ s' ∷ [])), j1.db, j1.files)
        (turn-next (at S W cfg s j v) _ t files (
          round-moves S W cfg p s s' j0 j1 v l.stage (e1 ∙ rw (← g1.0, ← g1.1) refl)
            (l.is_known j1 v) l.unfinished))
        (
          subst
              (λ (n : ℕ).
                Phase k violation S cfg key j1.db n (running (at S W cfg s' j1 (v ++ s' ∷ []))))
              (omega arith)
              (studies j1 (v ++ s' ∷ []) left g1.2.0
                (record {
                  no_model = ap (λ i. i.0) g1.5 ∙ about.no_model;
                  network_is = ap (λ i. i.1) g1.5 ∙ about.network_is;
                  addr_is = ap (λ i. i.2) g1.5 ∙ about.addr_is;
                  header_is = ap (λ i. i.3) g1.5 ∙ about.header_is;
                })
                (ap (λ (db : Table). first (index k violation key) db.rows) g1.3 ∙ f)),
          λ q m. ap (λ (db : Table). first q db.rows) g1.3,
        )

  -- The entry of the contract is appended to the table.
  stores :
      (key : Key) (t : Table) (d : Descriptor S.SolContract) (entry : Contract)
      → IsAbout k violation S cfg key d
      → get_contract_entry S cfg (record d { processed = true }) ≡ ret entry
      → IsFresh k violation key t
      → (t' : Table) × ((store_entry S W cfg entry none t).1 ≡ t')
        × IsKept k violation key t'
        × Spares k violation key t t'
  stores key t d entry about made f =
      let (network, number, addr, processed) =
        entry_fields S W cfg calm (record d { processed = true }) entry key.header about.header_is
          made in
      let same : same_index (k.uint64 entry.network_id) (k.uint64 entry.block_number)
            (k.address_hex entry.address)
          ≡ index k violation key =
        rw (network, number, addr, about.network_is, about.addr_is) refl in
      let (t', r, save, found, kept, rows, own) =
        save_fresh k violation entry t writes (ap (λ p. first p t.rows) same ∙ f) in
      (
        t',
        store_entry-saved S W cfg entry t t' (ap (text_of "insert") save),
        (r, ap (λ p. first p t'.rows) (sym same) ∙ found, kept ∙ processed),
        λ q m.
            ap (first q) rows
            ∙ (first-append q r t.rows ∙ misses q r (m r (ap (λ p. p r) (sym same) ∙ own)) t.rows),
      )
    where
      misses :
          (q : Row → Bool) (r : Row)
          → q r ≡ false
          → (rows : List Row)
          → elim (first q rows) [ some x ↦ some x | none ↦ if q r then some r else none ]
            ≡ first q rows
      misses q r e rows = ground (arith, e)

  -- The last round.
  turn-stores :
      (key : Key) (t : Table) (files : S.Files) (j : Job S W) (v : List State)
      → IsPrepared j.descriptor
      → IsAbout k violation S cfg key j.descriptor
      → IsFresh k violation key t
      → Returns (Turned key t 1) (turn S W cfg (running (at S W cfg final_state j v)) t files)
  turn-stores key t files j v prepared about f =
      let j0 : Job S W = record j { db = t; files = files } in
      let ((s1, j1, err1), e1, g1) =
        Returns-ret (IsStored S W cfg calm j0) (process_final S W cfg j0)
          (process_final-Returns S W cfg calm j0 prepared) in
      let (entry, made, saved, failed) = g1.5 in
      let (t', stored, kept, spares) = stores key t j.descriptor entry about made f in
      let db : j1.db ≡ t' =
        saved ∙ (ap (λ m. (store_entry S W cfg entry m t).1) about.no_model ∙ stored) in
      Returns-is (Turned key t 1) (turn S W cfg (running (at S W cfg final_state j v)) t files)
        (ended none (at S W cfg done_state j1 (v ++ done_state ∷ [])), j1.db, j1.files)
        (turn-stop (at S W cfg final_state j v) _ t files (
          round-ends S W cfg (process_final S W cfg) final_state j0 j1 v (final-IsStage S W cfg)
            (e1 ∙ rw (← g1.0, ← g1.1) refl)))
        (
          is_over j1 (v ++ done_state ∷ []) refl (subst (IsKept k violation key) (sym db) kept),
          λ q m. ap (λ (db : Table). first q db.rows) db ∙ spares q m,
        )

  -- In whatever phase a goroutine is, its turn is a round towards its end.
  pub turn-Turned :
      (key : Key) (t : Table) (files : S.Files) (n : ℕ) (th : Thread S W cfg)
      → Phase k violation S cfg key t n th
      → Returns (Turned key t n) (turn S W cfg th t files)
  unfolding turn
  turn-Turned key t files n th (waits j v e w f) = rw e (turn-waits key t files j v w f)
  turn-Turned key t files n th (studies j v (last e s) p a f) =
      rw (e, s) (turn-stores key t files j v p a f)
  turn-Turned key t files n th (studies j v (link {n = m} {s' = s'} {p = h} l left e) p a f) =
      rw e (turn-links key t files j v m _ s' h l left p a f)
  turn-Turned key t files n th (is_over j v e kept) =
      returns (is_over j v (omega arith) kept, λ q m. refl)
