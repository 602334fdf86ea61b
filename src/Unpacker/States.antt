-- ===== src/Unpacker/States.antt =====
-- pkg/unpacker/states.go.
use downloader.Base.{
  String, ◌≡◌, refl, Option, none, some, List, [], ◌∷◌, ◌==◌, ==_iff, contains, if◌then◌else◌,
  arith,
}
use downloader.Machine.{State}

abbrev pub discover_state : State
discover_state = "discover"

abbrev pub metadata_state : State
metadata_state = "metadata"

abbrev pub source_providers_state : State
source_providers_state = "source_providers"

abbrev pub sources_state : State
sources_state = "sources"

abbrev pub parser_state : State
parser_state = "parser"

abbrev pub opcodes_state : State
opcodes_state = "opcodes"

abbrev pub ast_state : State
ast_state = "ast"

abbrev pub social_state : State
social_state = "social"

abbrev pub standards_state : State
standards_state = "standards"

abbrev pub constructor_state : State
constructor_state = "constructor"

abbrev pub function_signatures_state : State
function_signatures_state = "function_signatures"

abbrev pub event_signatures_state : State
event_signatures_state = "event_signatures"

abbrev pub token_state : State
token_state = "token"

abbrev pub final_state : State
final_state = "final"

abbrev pub error_state : State
error_state = "error"

abbrev pub done_state : State
done_state = "done"

pub data UnknownState : Type 0 where
  unknown_state : String → UnknownState

pub get_state_from_string : String → State × Option UnknownState
get_state_from_string s =
    if s == "discover"
    then (discover_state, none)
    else if s == "metadata"
    then (metadata_state, none)
    else if s == "source_providers"
    then (source_providers_state, none)
    else if s == "parser"
    then (parser_state, none)
    else if s == "sources"
    then (sources_state, none)
    else if s == "opcodes"
    then (opcodes_state, none)
    else if s == "ast"
    then (ast_state, none)
    else if s == "social"
    then (social_state, none)
    else if s == "standards"
    then (standards_state, none)
    else if s == "constructor"
    then (constructor_state, none)
    else if s == "function_signatures"
    then (function_signatures_state, none)
    else if s == "event_signatures"
    then (event_signatures_state, none)
    else if s == "token"
    then (token_state, none)
    else if s == "final"
    then (final_state, none)
    else if s == "error"
    then (error_state, none)
    else if s == "done"
    then (done_state, none)
    else ("", some (unknown_state s))

-- The declared states, in the order of the switch.
abbrev pub known_states : List State
known_states =
    discover_state ∷ metadata_state ∷ source_providers_state ∷ parser_state ∷ sources_state
    ∷ opcodes_state ∷ ast_state ∷ social_state ∷ standards_state ∷ constructor_state
    ∷ function_signatures_state ∷ event_signatures_state ∷ token_state ∷ final_state ∷ error_state
    ∷ done_state ∷ []

-- A switch over a list of names.
pick : List State → String → State × Option UnknownState
pick [] s = ("", some (unknown_state s))
pick (x ∷ xs) s = if s == x then (x, none) else pick xs s

pick-contains :
    (xs : List State) (s : String)
    → pick xs s ≡ (if contains s xs then (s, none) else ("", some (unknown_state s)))
unfolding pick
pick-contains [] s = refl
pick-contains (x ∷ xs) s = ground (arith, pick-contains xs s, ==_iff s x, ==_iff x s)

-- A known name gives the state of that name, and any other name the error.
pub get_state_from_string_lem :
    (s : String)
    → get_state_from_string s
      ≡ (if contains s known_states then (s, none) else ("", some (unknown_state s)))
unfolding get_state_from_string pick
get_state_from_string_lem s = pick-contains known_states s
