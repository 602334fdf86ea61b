-- ===== src/Graph/Preloads.antt =====
-- pkg/graph/helpers.go: the names of the fields that a query collects, with dots between those of a
-- path. What gqlgen collects is a forest of fields.
use downloader.Base.{
  String, ◌≡◌, sym, true, List, [], ◌∷◌, ◌++◌, contains, contains-append, if◌then◌else◌, ◌==◌,
  ==_iff, ==_refl, Bool-cases, inl, inr, arith,
}

-- A field's name and selections, and the fields after it.
pub data Fields : Type 0 where
  no_fields : Fields
  field : String → Fields → Fields → Fields

abbrev followed_by : String → String → String
followed_by String.[] t = t
followed_by (String.◌∷◌ c s) t = String.◌∷◌ c (followed_by s t)

unfoldable pub get_preload_string : String → String → String
get_preload_string prefix name =
    if prefix == "" then name else followed_by prefix (followed_by "." name)

unfoldable pub get_nested_preloads : Fields → String → List String
get_nested_preloads no_fields prefix = []
get_nested_preloads (field name selections rest) prefix =
    get_preload_string prefix name
    ∷ (get_nested_preloads selections (get_preload_string prefix name)
        ++ get_nested_preloads rest prefix)

-- The paths of a forest.
pub data IsPath : Fields → List String → Type 0 where
  here :
      {name : String} {selections rest : Fields} → IsPath (field name selections rest) (name ∷ [])
  inside :
      {name : String} {selections rest : Fields} {path : List String}
      → IsPath selections path
      → IsPath (field name selections rest) (name ∷ path)
  later :
      {name : String} {selections rest : Fields} {path : List String}
      → IsPath rest path
      → IsPath (field name selections rest) path

-- A path as one name.
abbrev pub dotted : String → List String → String
dotted prefix [] = prefix
dotted prefix (name ∷ path) = dotted (get_preload_string prefix name) path

-- Every path of the collected fields is among the preloads, as one name.
pub get_nested_preloads-IsPath :
    (fields : Fields) (path : List String) (prefix : String)
    → IsPath fields path
    → contains (dotted prefix path) (get_nested_preloads fields prefix) ≡ true
unfolding get_nested_preloads
get_nested_preloads-IsPath no_fields path prefix p = elim p [ ]
get_nested_preloads-IsPath (field name selections rest) _ prefix here =
    ground (arith, ==_refl (get_preload_string prefix name))
get_nested_preloads-IsPath (field name selections rest) (_ ∷ path) prefix (inside p) =
    let inner = get_nested_preloads-IsPath selections path (get_preload_string prefix name) p in
    ground (
      arith,
      contains-append (dotted (get_preload_string prefix name) path)
          (get_nested_preloads selections (get_preload_string prefix name))
          (get_nested_preloads rest prefix),
      inner,
    )
get_nested_preloads-IsPath (field name selections rest) path prefix (later p) =
    let after = get_nested_preloads-IsPath rest path prefix p in
    ground (
      arith,
      contains-append (dotted prefix path)
          (get_nested_preloads selections (get_preload_string prefix name))
          (get_nested_preloads rest prefix),
      after,
    )

-- Every preload is the one name of a path of the collected fields.
pub IsPath-get_nested_preloads :
    (fields : Fields) (s prefix : String)
    → contains s (get_nested_preloads fields prefix) ≡ true
    → (path : List String) × IsPath fields path × (s ≡ dotted prefix path)
unfolding get_nested_preloads
IsPath-get_nested_preloads no_fields s prefix h = absurd (ground (arith, h))
IsPath-get_nested_preloads (field name selections rest) s prefix h =
    let column = get_preload_string prefix name in
    elim (Bool-cases (column == s)) [
      | inl e ↦ (name ∷ [], here, sym ((==_iff column s).0 e))
      | inr e ↦ elim (Bool-cases (contains s (get_nested_preloads selections column))) [
        | inl k ↦
            let (path, p, d) = IsPath-get_nested_preloads selections s column k in
            (name ∷ path, inside p, d)
        | inr k ↦
            let both =
              contains-append s (get_nested_preloads selections column)
                (get_nested_preloads rest prefix) in
            let (path, p, d) =
              IsPath-get_nested_preloads rest s prefix (ground (arith, h, e, both, k)) in
            (path, later p, d)
      ]
    ]
