-- ===== src/Turns/Run.antt =====
-- A history of the daemon: events at their times, and what `drainImpressions` hands to the queue.
use dwell.Base.{ℕ, ◌+◌, ◌≤◌, String, List, [], ◌∷◌, ◌++◌, arith}
use dwell.Turns.{
  CompletedImpression, Deps, TurnMachine, empty, on_turn_start, on_activity, on_turn_end, on_tick,
  on_session_end, drain_impressions,
}
use dwell.Turns.Mutex.{IsValid, empty-IsValid}
use dwell.Turns.Mutex.Events.{
  on_turn_start-IsValid, on_activity-IsValid, on_turn_end-IsValid, on_tick-IsValid,
  on_session_end-IsValid, drain_impressions-IsValid,
}
use dwell.Turns.Time.{
  total_ms, total_ms-append, Timed, Timed-later, Timed-le, Timed-base, Timed-nothing, Timed-empty,
}
use dwell.Turns.Time.Events.{
  on_turn_start-Timed, on_activity-Timed, on_turn_end-Timed, on_tick-Timed, on_session_end-Timed,
  drain_impressions-Timed,
}

pub data Event : Type 0 where
  turn_starts turn_acts turn_ends ticks session_ends : String → Event
  drains : Event

-- An event, its time, and what the injected functions return at it.
pub record Step : Type 0 where
  pub event : Event
  pub at : ℕ
  pub deps : Deps

-- What the event hands out, and the machine after it.
unfoldable pub step : Event → ℕ → Deps → TurnMachine → List CompletedImpression × TurnMachine
step (turn_starts sid) ts d m = ([], on_turn_start d sid ts m)
step (turn_acts sid) ts d m = ([], on_activity sid ts m)
step (turn_ends sid) ts d m = ([], on_turn_end d sid ts m)
step (ticks sid) ts d m = ([], (on_tick d sid ts m).1)
step (session_ends sid) ts d m = ([], on_session_end d sid ts m)
step drains ts d m = drain_impressions m

-- All that the history hands out, in order, and the machine at its end.
unfoldable pub run : List Step → TurnMachine → List CompletedImpression × TurnMachine
run [] m = ([], m)
run (s ∷ steps) m =
    let (out, m1) = step s.event s.at s.deps m in let (rest, m2) = run steps m1 in (out ++ rest, m2)

-- The clock does not run back.
abbrev pub Between : ℕ → ℕ → List Step → Type 0
Between s t [] = s ≤ t
Between s t (x ∷ steps) = (s ≤ x.at) × Between x.at t steps

step-IsValid :
    (e : Event) (ts : ℕ) (d : Deps) (m : TurnMachine) → IsValid m → IsValid (step e ts d m).1
unfolding step
step-IsValid (turn_starts sid) ts d m v = on_turn_start-IsValid d sid ts m v
step-IsValid (turn_acts sid) ts d m v = on_activity-IsValid sid ts m v
step-IsValid (turn_ends sid) ts d m v = on_turn_end-IsValid d sid ts m v
step-IsValid (ticks sid) ts d m v = on_tick-IsValid d sid ts m v
step-IsValid (session_ends sid) ts d m v = on_session_end-IsValid d sid ts m v
step-IsValid drains ts d m v = drain_impressions-IsValid m v

pub run-IsValid : (steps : List Step) (m : TurnMachine) → IsValid m → IsValid (run steps m).1
unfolding run
run-IsValid [] m v = v
run-IsValid (s ∷ steps) m v = run-IsValid steps _ (step-IsValid s.event s.at s.deps m v)

-- After any history of turns, ticks and closed sessions, on any clock: no session is entered twice,
-- the session that holds the mutex is in a turn, where none holds it no session is in a turn, and a
-- running show is the holder's.
pub run_mutex : (steps : List Step) → IsValid (run steps empty).1
run_mutex steps = run-IsValid steps empty empty-IsValid

step-Timed :
    (base ts : ℕ) (e : Event) (d : Deps) (m : TurnMachine)
    → Timed base ts m
    → Timed (base + total_ms (step e ts d m).0) ts (step e ts d m).1
unfolding step drain_impressions
step-Timed base ts (turn_starts sid) d m r =
    Timed-nothing base ts _ (on_turn_start-Timed d base ts sid m r)
step-Timed base ts (turn_acts sid) d m r =
    Timed-nothing base ts _ (on_activity-Timed d base ts sid m r)
step-Timed base ts (turn_ends sid) d m r =
    Timed-nothing base ts _ (on_turn_end-Timed d base ts sid m r)
step-Timed base ts (ticks sid) d m r = Timed-nothing base ts _ (on_tick-Timed d base ts sid m r)
step-Timed base ts (session_ends sid) d m r =
    Timed-nothing base ts _ (on_session_end-Timed d base ts sid m r)
step-Timed base ts drains d m r = drain_impressions-Timed base ts m r

run-Timed :
    (steps : List Step) (base t t1 : ℕ) (m : TurnMachine)
    → Between t t1 steps
    → Timed base t m
    → Timed (base + total_ms (run steps m).0) t1 (run steps m).1
unfolding run
run-Timed [] base t t1 m h r = Timed-nothing base t1 m (Timed-later base t t1 m h r)
run-Timed (s ∷ steps) base t t1 m h r =
    let one = step-Timed base s.at s.event s.deps m (Timed-later base t s.at m h.0 r) in
    let ih = run-Timed steps _ s.at t1 _ h.1 one in
    let out = (step s.event s.at s.deps m).0 in
    let rest = (run steps (step s.event s.at s.deps m).1).0 in
    Timed-base t1 _ (omega (arith, total_ms-append out rest)) ih

-- While the clock does not run back, the measured times of all shows that were closed, counted or
-- not, of whatever sessions, handed out or not, add up to no more than the time that passed.
pub run_measured :
    (s t : ℕ) (steps : List Step)
    → Between s t steps
    → s + total_ms ((run steps empty).0 ++ (run steps empty).1.completed) ≤ t
run_measured s t steps h =
    let fits = Timed-le _ t _ (run-Timed steps s s t empty h (Timed-empty s)) in
    omega (arith, fits, total_ms-append (run steps empty).0 (run steps empty).1.completed)
