-- ===== src/Broadcaster/Tests.antt =====
-- The theorems about agent/util/broadcaster/broadcast.go at concrete inputs.
use droidmole.Base.{ℕ, ◌≡◌, refl, Option, some, List, [], ◌∷◌, map, arith, All}
use droidmole.Broadcaster.{
  new, new_listener, broadcast, close, received, ended, waits, wait_rest, wait_start,
}
use droidmole.Broadcaster.Schedule.{Event, broadcasts, closes, joins, runs, run, start}
use droidmole.Broadcaster.Schedule.Safety.{ClientInv, run_safe}
use droidmole.Broadcaster.Schedule.Values.{GotInv, run_got}

-- One listener waits, is woken by a value, takes it, waits again, and is woken by the close.
abbrev events : List (Event ℕ)
events = joins ∷ runs 0 ∷ broadcasts (some 7) ∷ runs 0 ∷ runs 0 ∷ closes ∷ runs 0 ∷ []

gets_seven :
    map {B = ℕ × List (ℕ × Option ℕ)}
      (λ c. (c.listener.last_generation, c.got))
      (run start events).clients
    ≡ (1, (1, some 7) ∷ []) ∷ []
unfolding run start droidmole.Broadcaster.Schedule.step wait_start new new_listener broadcast close
gets_seven = refl

run_safe_example : All (ClientInv (run start events).broadcaster) (run start events).clients
run_safe_example = run_safe events (omega arith)

run_got_example : All (GotInv (run start events).history) (run start events).clients
run_got_example = run_got events (omega arith)
