-- ===== src/Turns/Tests.antt =====
-- A daemon with two sessions.
use dwell.Base.{ℕ, ◌+◌, ◌≤◌, true, false, ◌≡◌, refl, some, List, [], ◌∷◌, ◌++◌, arith}
use dwell.Base.Map.{get, set}
use dwell.Turns.{
  Deps, TurnMachine, empty, completion, start_show, close_show, next_mutex_holder, expire_one,
  expire_loop, expire_cooldowns, on_turn_start, on_turn_end, on_tick, drain_impressions, take_over,
  show_other, show_own, ensure_show, rotate, tick_in_turn, stops,
}
use dwell.Turns.Mutex.{IsValid, in_turn}
use dwell.Turns.Time.{total_ms}
use dwell.Turns.Run.{
  Event, turn_starts, turn_ends, ticks, drains, Step, step, run, run_mutex, run_measured,
}
use dwell.Turns.Render.{Open, on_tick-shown}

abbrev deps : Deps
deps = record {
  next_ad = λ n. some (record { campaign_id = "c"; nonce = "n"; nonce_expires_at = 100_000 });
  impression_id = λ n. "id";
  render_enabled = true;
  statusline = true;
  min_impression_ms = 10_000;
  rotate_ms = 20_000;
  idle_grace_ms = 4_000;
  is_paused = false;
  is_authenticated = true;
  max_quiet_turn_ms = 600_000;
}

abbrev at : ℕ → Event → Step
at ts e = record { event = e; at = ts; deps = deps }

-- Both sessions tick, one counts, and its show is rotated and then closed when its grace is over.
abbrev two_sessions : List Step
two_sessions =
    at 0 (turn_starts "a")
    ∷ at 100 (turn_starts "b")
    ∷ at 10_000 (ticks "a")
    ∷ at 10_000 (ticks "b")
    ∷ at 21_000 (ticks "a")
    ∷ at 22_000 (turn_ends "a")
    ∷ at 30_000 (ticks "b")
    ∷ at 31_000 drains
    ∷ []

measured_two : total_ms (run two_sessions empty).0 ≡ 21_000
unfolding run step total_ms on_turn_start on_turn_end on_tick drain_impressions completion
    start_show close_show next_mutex_holder expire_one expire_loop expire_cooldowns take_over
    show_other show_own ensure_show rotate tick_in_turn stops get set
measured_two = refl

run_mutex_example : IsValid (run two_sessions empty).1
run_mutex_example = run_mutex two_sessions

run_measured_example :
    0 + total_ms ((run two_sessions empty).0 ++ (run two_sessions empty).1.completed) ≤ 31_000
run_measured_example = run_measured 0 31_000 two_sessions (
  omega arith,
  (
    omega arith,
    (
      omega arith,
      (omega arith, (omega arith, (omega arith, (omega arith, (omega arith, omega arith))))),
    ),
  ),
)

abbrev in_a_turn : TurnMachine
in_a_turn = on_turn_start deps "a" 0 empty

on_tick-shown_example :
    Open deps × (in_turn "a" (expire_cooldowns deps 1_000 in_a_turn).sessions ≡ true)
unfolding on_turn_start on_tick start_show close_show expire_one expire_loop expire_cooldowns
    take_over show_own ensure_show rotate tick_in_turn stops get set
on_tick-shown_example = on_tick-shown deps "a" 1_000 in_a_turn refl
