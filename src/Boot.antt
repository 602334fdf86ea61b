-- ===== src/Boot.antt =====
-- src/main.go: how the program starts, with the paths of pkg/options/options.go, the logger of pkg/logger
-- and the command groups of pkg/app.
mod Tests
use Prim.Native.Char.{Char}
use mathlib.Core.List.{append-nil, append_assoc}
use downloader.Base.{
  ℕ, String, ◌≡◌, refl, ap, sym, ◌∙◌, Bool, true, false, Option, none, some, List, [], ◌∷◌, ◌++◌,
  map, nat_eq, ◌==◌, ==_iff, joined, if◌then◌else◌, Bool-cases, inl, inr, arith,
}
use downloader.Syncer.{Attempt, got, wrong}

-- A piece that begins with the character, before the others.
abbrev before_first : Char → List String → List String
before_first c [] = String.◌∷◌ c String.[] ∷ []
before_first c (piece ∷ pieces) = String.◌∷◌ c piece ∷ pieces

-- `strings.Split(path, ",")`.
abbrev split : String → List String
split String.[] = String.[] ∷ []
split (String.◌∷◌ c s) =
    let rest = split s in
    if String.◌∷◌ c String.[] == "," then String.[] ∷ rest else before_first c rest

-- `strings.Trim(p, "")` takes nothing away, as it has no characters to take.
abbrev trim_none : String → String
trim_none p = p

-- `PathToSlice`.
unfoldable pub path_to_slice : String → List String
path_to_slice path = map trim_none (split path)

-- The paths with commas between them.
abbrev pub with_commas : List String → String
with_commas [] = String.[]
with_commas (p ∷ []) = p
with_commas (p ∷ q ∷ paths) = joined p (joined "," (with_commas (q ∷ paths)))

abbrev is_nil : List String → Bool
is_nil [] = true
is_nil (p ∷ paths) = false

split-ne-nil : (s : String) → is_nil (split s) ≡ false
split-ne-nil String.[] = refl
split-ne-nil (String.◌∷◌ c s) = elim (Bool-cases (String.◌∷◌ c String.[] == ",")) [
  | inl e ↦ rw e refl
  | inr e ↦ rw e (go (split s))
]
  where
    go : (pieces : List String) → is_nil (before_first c pieces) ≡ false
    go [] = refl
    go (p ∷ pieces) = refl

with_commas-nil :
    (pieces : List String)
    → is_nil pieces ≡ false
    → with_commas (String.[] ∷ pieces) ≡ joined "," (with_commas pieces)
with_commas-nil [] h = absurd (ground (arith, h))
with_commas-nil (p ∷ pieces) h = refl

with_commas-before_first :
    (c : Char) (pieces : List String)
    → with_commas (before_first c pieces) ≡ String.◌∷◌ c (with_commas pieces)
with_commas-before_first c [] = refl
with_commas-before_first c (p ∷ []) = refl
with_commas-before_first c (p ∷ q ∷ pieces) = refl

with_commas-split : (s : String) → with_commas (split s) ≡ s
with_commas-split String.[] = refl
with_commas-split (String.◌∷◌ c s) = elim (Bool-cases (String.◌∷◌ c String.[] == ",")) [
  | inl e ↦ rw e (
      with_commas-nil (split s) (split-ne-nil s)
      ∙ (ap (joined ",") (with_commas-split s)
          ∙ ap (λ (t : String). joined t s) (sym ((==_iff (String.◌∷◌ c String.[]) ",").0 e))))
  | inr e ↦ rw e (with_commas-before_first c (split s) ∙ ap (String.◌∷◌ c) (with_commas-split s))
]

-- The paths, with commas between them, are the text that was given, spaces and all.
pub path_to_slice-with_commas : (path : String) → with_commas (path_to_slice path) ≡ path
unfolding path_to_slice
path_to_slice-with_commas path = ap with_commas (map_same (split path)) ∙ with_commas-split path
  where
    map_same : (pieces : List String) → map trim_none pieces ≡ pieces
    map_same [] = refl
    map_same (p ∷ pieces) = ap (p ∷◌) (map_same pieces)

-- `GetLogger`: what is built for the environment, at a level that can be read.
pub data Logger : Type 0 where
  development production : ℕ → Logger

unfoldable pub get_logger : String → Attempt ℕ → Option Logger
get_logger env (wrong e) = none
get_logger env (got level) =
    if env == "development"
    then some (development level)
    else if env == "production"
    then some (production level)
    else none

-- `App`: whether it is initialized, and its commands by their names.
pub record App : Type 0 where
  pub initialized : Bool
  pub commands : List String

-- `RegisterCommands`.
unfoldable pub register_commands : List String → App → Option String × App
register_commands names app =
    if app.initialized
    then (none, record app { commands = app.commands ++ names })
    else (some "application not initialized", app)

-- How `main` ends: by a panic, by `os.Exit(1)`, or after the application has run, with its error.
pub data Ended : Type 0 where
  panicked : String → Ended
  exited : Ended
  ran : List String → Ended

-- The loop over the groups of commands, in the order in which the map is gone over.
unfoldable pub register_all : List (List String) → App → Option App
unfolding register_commands
register_all [] app = some app
register_all (names ∷ groups) app =
    let (e, app') = register_commands names app in
    elim e [ some x ↦ none | none ↦ register_all groups app' ]

-- What the configuration gives to the start: the environment and the level of the logger.
pub record Settings : Type 0 where
  pub env : String
  pub level : Attempt ℕ

-- `main`, up to `Run`, with the environment's paths and the loader of the options.
unfoldable pub main : String → (List String → Attempt Settings) → List (List String) → Ended
unfolding path_to_slice get_logger register_all
main paths load groups =
    if paths == "" then panicked "Options path is not set." else elim (load (path_to_slice paths)) [
      | wrong e ↦ panicked e
      | got settings ↦ elim (get_logger settings.env settings.level) [
        | none ↦ panicked "logger"
        | some l ↦ elim (register_all groups (record { initialized = true; commands = [] })) [
          | none ↦ exited
          | some app ↦ ran app.commands
        ]
      ]
    ]

abbrev all_of : List (List String) → List String
all_of [] = []
all_of (names ∷ groups) = names ++ all_of groups

register_all-commands :
    (groups : List (List String)) (names : List String)
    → register_all groups (record { initialized = true; commands = names })
      ≡ some (record { initialized = true; commands = names ++ all_of groups })
unfolding register_all
register_all-commands [] names =
    ap (λ c. some (record { initialized = true; commands = c })) (sym (append-nil names))
register_all-commands (more ∷ groups) names =
    register_all-commands groups (names ++ more)
    ∙ ap (λ c. some (record { initialized = true; commands = c }))
        (append_assoc names more (all_of groups))

-- Where the paths are given, the options can be loaded from them and the logger can be made, the
-- application runs with the commands of all groups.
pub main-runs :
    (paths : String) (load : List String → Attempt Settings) (groups : List (List String))
    (settings : Settings) (l : Logger)
    → (paths == "") ≡ false
    → load (path_to_slice paths) ≡ got settings
    → get_logger settings.env settings.level ≡ some l
    → main paths load groups ≡ ran (all_of groups)
unfolding main
main-runs paths load groups settings l given loads logs =
    rw (given, loads, logs, register_all-commands groups []) refl
