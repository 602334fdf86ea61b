-- ===== src/JsonRpc.antt =====
-- pkg/rpc/server.go: the JSON-RPC server. What the libraries answer to its calls are arguments.
mod Tests
use downloader.Base.{
  ℕ, String, ◌≡◌, refl, Bool, true, false, not, Option, none, some, List, [], ◌∷◌, ◌++◌, ◌==◌,
  if◌then◌else◌, Outcome, ret, blocks,
}

-- The names of the registered handlers, and whether it listens.
pub record Server : Type 0 where
  pub addr : String
  pub handlers : List String
  pub listening : Bool

-- `NewServer`.
abbrev pub new_server : String → Server
new_server addr = record { addr = addr; handlers = []; listening = false }

-- `RegisterHandler`, with the library's answer.
unfoldable pub register_handler : String → Option String → Server → Option String × Server
register_handler name (some e) s = (some e, s)
register_handler name none s = (none, record s { handlers = name ∷ s.handlers })

-- What a request to `/rpc` gets: an error's status, or the reply of the library, whose error is logged.
pub data Answer : Type 0 where
  method_not_allowed : Answer
  served : Option String → Answer

unfoldable pub handle_request : String → Option String → Answer
handle_request method failure =
    if not (method == "POST") then method_not_allowed else served failure

-- How `Serve` ends: the server was closed, or another error.
pub data ServeError : Type 0 where
  server_closed : ServeError
  other_error : String → ServeError

-- The goroutine that serves: what it logs as a failure.
unfoldable pub serve_log : ServeError → List String
serve_log server_closed = "failure to serve RPC server" ∷ []
serve_log (other_error e) = []

-- `Start`, with the answer of `Listen`, the end of `Serve`, if it ends, and the error of `Shutdown`. The
-- outer result is how the call ends, with what was logged: a fatal line of the logger exits.
pub data Ended : Type 0 where
  returned : Option String → Ended
  exited : Ended

unfoldable pub start :
    Option String
    → Option ServeError
    → Bool
    → Option String
    → Server
    → Outcome (Ended × List String) × Server
unfolding serve_log
start (some e) serve done shutdown s = (ret (returned (some e), []), s)
start none serve false shutdown s = (blocks, record s { listening = true })
start none serve true shutdown s =
    let log : List String = elim serve [ none ↦ [] | some e ↦ serve_log e ] in
    elim shutdown [
      | some e ↦
          (ret (exited, log ++ "Server shutdown failed" ∷ []), record s { listening = false })
      | none ↦ (ret (returned none, log), record s { listening = false })
    ]

-- A server that failed to serve for another reason than that it was closed: the call waits for the
-- context as if it served, and when the context is done returns without an error and without a line
-- about the failure.
pub start-hides :
    (e : String) (s : Server)
    → ((start none (some (other_error e)) false none s).0 ≡ blocks)
      × ((start none (some (other_error e)) true none s).0 ≡ ret (returned none, []))
unfolding start
start-hides e s = (refl, refl)
