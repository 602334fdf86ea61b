-- ===== src/Machine/Tests.antt =====
-- A machine of two states, whose handler counts and moves on, or fails.
use downloader.Base.{
  ℕ, suc, ◌≡◌, refl, ◌≢◌, true, false, Option, none, some, [], ◌∷◌, Outcome, ret, blocks, ◌==◌,
  ==_iff,
}
use downloader.Machine.{
  State, Error, invalid_transition, no_destination_handler, Handler, Machine, trigger, transition,
}
use downloader.Machine.Process.{process}
use downloader.Machine.Process.Rounds.{Finish, entered}
use downloader.Machine.Process.Loop.{process-Finish}
use downloader.Machine.Process.Recovery.{IsReady, process_swallows}
use downloader.Machine.Locks.{trigger-blocks}

abbrev count : ℕ → Outcome (State × ℕ × Option ℕ)
count n = ret ("b", suc n, none)

abbrev refuse : ℕ → Outcome (State × ℕ × Option ℕ)
refuse n = ret ("b", n, some 7)

abbrev counter : Handler ℕ ℕ
counter = record { enter = none; process = some count; exit = none }

abbrev refuser : Handler ℕ ℕ
refuser = record { enter = none; process = some refuse; exit = none }

abbrev machine : Handler ℕ ℕ → Machine ℕ ℕ
machine h = record {
  current_state = "a";
  final_state = "b";
  error_state = "e";
  states = some (("a", h) ∷ ("e", h) ∷ []);
  transitions = some (("a", ("go", "e") ∷ []) ∷ []);
  carried = 4;
  processed_states = "a" ∷ [];
  history = "a" ∷ [];
  is_paused = false;
  locked = false;
}

abbrev counted : Machine ℕ ℕ
counted = record (machine counter) {
  current_state = "b";
  carried = 5;
  processed_states = "a" ∷ "b" ∷ [];
  history = "a" ∷ "b" ∷ [];
}

process-Finish_example : Finish (machine counter) none counted
process-Finish_example =
    process-Finish 1 (λ n. false) 0 (machine counter) counted none (refl, refl, refl)
      (unfold process transition in refl)

apart : (s t : State) → (s == t) ≡ false → s ≢ t
apart s t h e = cc (h, (==_iff s t).1 e)

refuser-IsReady : IsReady (machine refuser) refuser
refuser-IsReady = record {
  free = refl;
  running = refl;
  unfinished = apart "a" "b" refl;
  handled = refl;
}

process_swallows_example :
    process 1 (λ n. false) 0 (machine refuser) ≡ some (ret (none, entered "e" (machine refuser)))
process_swallows_example =
    process_swallows (machine refuser) refuser refuse 0 0 (λ n. false) "b" 4 4 7 refuser-IsReady
      (apart "e" "" refl) refl refl refl refl

trigger-blocks_example : trigger "go" (machine counter) ≡ blocks
trigger-blocks_example = trigger-blocks "go" "e" (machine counter) refl refl

abbrev stayed : Option (Error ℕ)
stayed = some (invalid_transition "a" "stay")

abbrev destroyed : Machine ℕ ℕ
destroyed = record (machine counter) {
  states = none;
  transitions = none;
  carried = 0;
  processed_states = [];
  history = [];
}

abbrev extended : Machine ℕ ℕ
extended = record (machine counter) {
  states = some (("a", counter) ∷ ("e", counter) ∷ ("c", counter) ∷ []);
}

abbrev no_z : Error ℕ
no_z = no_destination_handler "a" "z"

abbrev linked : Machine ℕ ℕ
linked = record (machine counter) { transitions = some (("a", ("go", "a") ∷ []) ∷ []) }

abbrev halted : Machine ℕ ℕ
halted = record (machine counter) { is_paused = true }
