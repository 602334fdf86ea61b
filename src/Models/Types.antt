-- ===== src/Models/Types.antt =====
-- pkg/models/types: the column types, which read themselves from a driver's value (`Scan`) and write
-- themselves as one (`Value`). A list of standards or states is the list of their names.
use downloader.Base.{
  ℕ, String, ◌≡◌, ap, Option, none, some, List, [], ◌∷◌, Outcome, ret, panics, Option-cases, inl,
  inr, arith,
}
use downloader.Models.{Codec}

-- What a driver gives for a column.
pub data DriverValue : Type 0 where
  null : DriverValue
  int64 uint64 : ℕ → DriverValue
  text : String → DriverValue
  bytes : String → DriverValue

-- A scanned value, or an error.
pub data Scanned (A : Type 0) : Type 0 where
  scanned : A → Scanned A
  bad_json invalid_string invalid_bytes unsupported : Scanned A

-- A value that is not a text panics in the type assertion `value.(string)`.
abbrev from_text : {A : Type 0} → (String → Scanned A) → DriverValue → Outcome (Scanned A)
from_text f (text s) = ret (f s)
from_text f _ = panics

abbrev from_json : {A : Type 0} → Option A → Scanned A
from_json none = bad_json
from_json (some a) = scanned a

module _ (k : Codec) where
  unfoldable pub scan_address : DriverValue → Outcome (Scanned ℕ)
  scan_address v = from_text (λ s. scanned (k.hex_to_address s)) v

  unfoldable pub value_address : ℕ → DriverValue
  value_address a = text (k.address_hex a)

  unfoldable pub scan_hash : DriverValue → Outcome (Scanned ℕ)
  scan_hash v = from_text (λ s. scanned (k.hex_to_hash s)) v

  unfoldable pub value_hash : ℕ → DriverValue
  value_hash h = text (k.hash_hex h)

  unfoldable pub scan_bytecode : DriverValue → Outcome (Scanned (List ℕ))
  scan_bytecode v = from_text (λ s. scanned (k.hex_to_bytes s)) v

  unfoldable pub value_bytecode : List ℕ → DriverValue
  value_bytecode b = text (k.bytes_to_hex b)

  -- `Standards` and `States`.
  unfoldable pub scan_texts : DriverValue → Outcome (Scanned (List String))
  scan_texts v = from_text (λ s. from_json (k.json_to_texts s)) v

  unfoldable pub value_texts : List String → Option DriverValue
  value_texts t = elim (k.texts_to_json t) [ none ↦ none | some s ↦ some (text s) ]

  unfoldable pub scan_addresses : DriverValue → Outcome (Scanned (List ℕ))
  scan_addresses v = from_text (λ s. from_json (k.json_to_addresses s)) v

  unfoldable pub value_addresses : List ℕ → Option DriverValue
  value_addresses a = elim (k.addresses_to_json a) [ none ↦ none | some s ↦ some (text s) ]

  unfoldable pub string_array_of_addresses : List ℕ → List String
  string_array_of_addresses [] = []
  string_array_of_addresses (a ∷ addresses) = k.address_hex a ∷ string_array_of_addresses addresses

  -- `BigInt.Scan`, with `SetString` in base 10.
  unfoldable pub scan_big_int : (String → Option ℕ) → DriverValue → Scanned ℕ
  scan_big_int set_string null = unsupported
  scan_big_int set_string (int64 n) = scanned n
  scan_big_int set_string (uint64 n) = scanned n
  scan_big_int set_string (text s) = elim (set_string s) [
    | none ↦ invalid_string
    | some n ↦ scanned n
  ]
  scan_big_int set_string (bytes s) = elim (set_string s) [
    | none ↦ invalid_bytes
    | some n ↦ scanned n
  ]

  -- What a column type wrote it reads back, as far as the codec reads back what it wrote.
  pub scan-value :
      (a h : ℕ) (b : List ℕ) (t : List String) (l : List ℕ) (vt vl : DriverValue)
      → k.hex_to_address (k.address_hex a) ≡ a
      → k.hex_to_hash (k.hash_hex h) ≡ h
      → k.hex_to_bytes (k.bytes_to_hex b) ≡ b
      → ((s : String) → k.texts_to_json t ≡ some s → k.json_to_texts s ≡ some t)
      → ((s : String) → k.addresses_to_json l ≡ some s → k.json_to_addresses s ≡ some l)
      → value_texts t ≡ some vt
      → value_addresses l ≡ some vl
      → (scan_address (value_address a) ≡ ret (scanned a))
        × (scan_hash (value_hash h) ≡ ret (scanned h))
        × (scan_bytecode (value_bytecode b) ≡ ret (scanned b))
        × (scan_texts vt ≡ ret (scanned t))
        × (scan_addresses vl ≡ ret (scanned l))
  unfolding scan_address value_address scan_hash value_hash scan_bytecode value_bytecode scan_texts
      value_texts scan_addresses value_addresses
  scan-value a h b t l vt vl ea eh eb et el wt wl = (
    ap (λ x. ret (scanned x)) ea,
    ap (λ x. ret (scanned x)) eh,
    ap (λ x. ret (scanned x)) eb,
    elim (Option-cases (k.texts_to_json t)) [
      | inl e ↦ absurd (ground (arith, e, wt))
      | inr (s, e) ↦ ground (arith, e, wt, et s e)
    ],
    elim (Option-cases (k.addresses_to_json l)) [
      | inl e ↦ absurd (ground (arith, e, wl))
      | inr (s, e) ↦ ground (arith, e, wl, el s e)
    ],
  )
