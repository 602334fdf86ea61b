-- ===== src/Db.antt =====
-- pkg/db/badgerdb.go: the wrapper of a Badger database. The database is a parameter.
use downloader.Base.{
  ℕ, zero, suc, String, ◌≡◌, refl, Bool, true, false, Option, none, some, List, ◌==◌, if◌then◌else◌,
  Bool-cases, inl, inr,
}

-- What a transaction's `Get` answers: the value, `ErrKeyNotFound`, or another error.
pub data Item : Type 0 where
  item : List ℕ → Item
  key_not_found : Item
  get_failed : String → Item

-- What a garbage collection of the value log answers: it rewrote, `ErrNoRewrite`, or another error.
pub data Collected : Type 0 where
  rewrote no_rewrite : Collected
  gc_failed : String → Collected

pub record Badger (S : Type 0) : Type 0 where
  pub get_item : String → S → Item
  pub set_item : String → List ℕ → S → Option String × S
  pub run_value_log_gc : S → Collected × S

-- `Set` stores what `Get` reads back, under that key and no other.
abbrev pub IsKeeping : {S : Type 0} → Badger S → Type 0
IsKeeping {S} b =
    (key other : String) (value : List ℕ) (s s' : S)
    → b.set_item key value s ≡ (none, s')
    → b.get_item other s' ≡ (if key == other then item value else b.get_item other s)

-- What `sql.Open` and the statement `PRAGMA journal_mode=WAL` answer.
pub data Opened : Type 0 where
  opened : ℕ → Opened
  not_opened not_wal : String → Opened

-- `NewDB` of pkg/db/db.go: the database with one connection, in WAL mode.
unfoldable pub new_db : Option String → ℕ → Option String → Opened
new_db (some e) db wal = not_opened e
new_db none db (some e) = not_wal e
new_db none db none = opened db

-- A value, or an error, of which `none` is `ErrKeyNotFound`.
pub data Read : Type 0 where
  value : List ℕ → Read
  failure : Option String → Read

module _ {S : Type 0} (b : Badger S) where
  unfoldable pub get : String → S → Read
  get key s = elim (b.get_item key s) [
    | item v ↦ value v
    | key_not_found ↦ failure none
    | get_failed e ↦ failure (some e)
  ]

  unfoldable pub write : String → List ℕ → S → Option String × S
  write key v s = b.set_item key v s

  -- Whether the key is there, and the error.
  unfoldable pub exists : String → S → Bool × Option String
  exists key s = elim (b.get_item key s) [
    | item v ↦ (true, none)
    | key_not_found ↦ (false, none)
    | get_failed e ↦ (false, some e)
  ]

  -- The loop of the collection; the outer `none` says that the fuel ran out.
  unfoldable pub garbage_collect : ℕ → S → Option (Option String × S)
  garbage_collect zero s = none
  garbage_collect (suc fuel) s =
      let (c, s') = b.run_value_log_gc s in
      elim c [
        | no_rewrite ↦ some (none, s')
        | gc_failed e ↦ some (some e, s')
        | rewrote ↦ garbage_collect fuel s'
      ]

  -- After a write without an error the key exists and its value is what was written, and for any other
  -- key both answers are as before.
  pub get-write :
      (key other : String) (v : List ℕ) (s s' : S)
      → IsKeeping b
      → write key v s ≡ (none, s')
      → (get other s' ≡ (if key == other then value v else get other s))
        × (exists other s' ≡ (if key == other then (true, none) else exists other s))
  unfolding get write exists
  get-write key other v s s' k e =
      let h = k key other v s s' e in
      elim (Bool-cases (key == other)) [
        | inl same ↦ (rw (get, h, same) refl, rw (exists, h, same) refl)
        | inr differs ↦ (rw (get, h, differs) refl, rw (exists, h, differs) refl)
      ]
