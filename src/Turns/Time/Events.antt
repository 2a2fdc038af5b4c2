-- ===== src/Turns/Time/Events.antt =====
-- The measured time under every event of `TurnMachine`.
use dwell.Base.{
  ℕ, ◌+◌, String, not, ◌&&◌, ◌||◌, ◌≡◌, refl, Option, none, some, [], ◌∷◌, same, is_some, leb,
  if◌then◌else◌, arith, Bool-cases, Option-cases, inl, inr, subst,
}
use dwell.Base.Map.{Map, get, set, delete}
use dwell.Turns.{
  TurnPhase, idle, is_idle, is_showing, is_cooldown, SessionState, ActiveShow, AdPayload, Reason,
  Deps, TurnMachine, start_show, close_show, is_active, expire_one, expire_loop, expire_cooldowns,
  on_turn_start, on_activity, on_turn_end, on_session_end, take_over, take_over_from, is_silent,
  show_other_from, show_other, ensure_show, rotate, show_own_from, show_own, tick_in_turn,
  tick_found, tick_gate, stops, on_tick, drain_impressions,
}
use dwell.Turns.Mutex.Events.{started}
use dwell.Turns.Time.{total_ms, Room, Timed, Timed-le, start_show-Timed, close_show-Timed}

module _ (d : Deps) (base ts : ℕ) where
  expire_one-Timed :
      (sid : String) (st : SessionState) (m : TurnMachine)
      → Timed base ts m
      → Timed base ts (expire_one d ts sid st m)
  unfolding Timed expire_one
  expire_one-Timed sid st m r =
      let cooled = is_cooldown st.phase && leb st.cooldown_until ts in
      let abandoned = is_showing st.phase && leb (st.active_at + d.max_quiet_turn_ms) ts in
      let m1 : TurnMachine = record m {
        sessions = set sid (record st { phase = idle }) m.sessions;
      } in
      elim (Bool-cases (not (cooled || abandoned))) [
        | inl stays ↦ rw stays r
        | inr expires ↦ elim (Bool-cases (is_active sid m)) [
          | inl holder ↦ rw (expires, holder) (close_show-Timed d base ts m1 r).0
          | inr other ↦ rw (expires, other) r
        ]
      ]

  expire_loop-Timed :
      (rest : Map SessionState) (m : TurnMachine)
      → Timed base ts m
      → Timed base ts (expire_loop d ts rest m)
  unfolding expire_loop
  expire_loop-Timed [] m r = r
  expire_loop-Timed ((sid, st) ∷ rest) m r = expire_loop-Timed rest _ (expire_one-Timed sid st m r)

  start-Timed :
      (m : TurnMachine)
      → Timed base ts m
      → Timed base ts (if is_some m.show then m else start_show d ts m)
  start-Timed m r = elim (Bool-cases (is_some m.show)) [
    | inl shown ↦ rw shown r
    | inr none_shown ↦ rw none_shown (start_show-Timed d base ts m (Timed-le base ts m r))
  ]

  pub on_turn_start-Timed :
      (sid : String) (m : TurnMachine) → Timed base ts m → Timed base ts (on_turn_start d sid ts m)
  unfolding Timed on_turn_start
  on_turn_start-Timed sid m r =
      let m2 : TurnMachine = record m {
        sessions = set sid (started ts) m.sessions;
        active_session = some sid;
      } in
      elim (Bool-cases (not (is_some m.active_session) || is_active sid m)) [
        | inl free ↦ rw free (start-Timed m2 r)
        | inr taken ↦ rw taken r
      ]

  pub on_session_end-Timed :
      (sid : String) (m : TurnMachine) → Timed base ts m → Timed base ts (on_session_end d sid ts m)
  unfolding Timed on_session_end
  on_session_end-Timed sid m r =
      let m1 : TurnMachine = record m { sessions = delete sid m.sessions } in
      elim (Bool-cases (is_active sid m)) [
        | inl holder ↦ rw holder (close_show-Timed d base ts m1 r).0
        | inr other ↦ rw other r
      ]

  take_over_from-Timed :
      (a : Option String) (sid : String) (m : TurnMachine)
      → Timed base ts m
      → Timed base ts (take_over_from a d sid ts m)
  unfolding Timed
  take_over_from-Timed none sid m r = r
  take_over_from-Timed (some owner) sid m r =
      elim (Bool-cases (not (same owner sid) && is_silent ts (get owner m.sessions))) [
        | inr stays ↦ rw stays r
        | inl takes ↦ rw takes (close_show-Timed d base ts m r).0
      ]

  rotate-Timed :
      (show : ActiveShow) (m : TurnMachine)
      → m.show ≡ some show
      → Timed base ts m
      → Timed base ts (rotate d ts show m)
  unfolding Timed rotate
  rotate-Timed show m shown r =
      let seen : TurnMachine = record m { show = some (record show { last_seen_at = ts }) } in
      let fits : Room (some show) (base + total_ms m.completed) ts =
        subst (λ s. Room s (base + total_ms m.completed) ts) shown r in
      let room : Timed base ts seen = (fits.0, omega (arith, fits.1, fits.2), omega arith) in
      elim (Bool-cases (leb (show.started_at + d.rotate_ms) ts)) [
        | inl over ↦
            let gone = close_show-Timed d base ts seen room in
            rw over (
              start_show-Timed d base ts (close_show d ts seen)
                (Timed-le base ts (close_show d ts seen) gone.0))
        | inr fits_in ↦ rw fits_in room
      ]

  show_own_from-Timed :
      (s : Option ActiveShow) (phase : TurnPhase) (m : TurnMachine)
      → m.show ≡ s
      → Timed base ts m
      → Timed base ts (show_own_from s d ts phase m).1
  show_own_from-Timed none phase m e r = r
  show_own_from-Timed (some show) phase m e r = rotate-Timed show m e r

  show_other_from-Timed :
      (s : Option ActiveShow) (ad : Option AdPayload) (phase : TurnPhase) (m : TurnMachine)
      → Timed base ts m
      → Timed base ts (show_other_from s ad phase m).1
  unfolding Timed
  show_other_from-Timed (some show) ad phase m r = r
  show_other_from-Timed none (some ad) phase m r = r
  show_other_from-Timed none none phase m r = r

  tick_in_turn-Timed :
      (sid : String) (st : SessionState) (m : TurnMachine)
      → Timed base ts m
      → Timed base ts (tick_in_turn d sid ts st m).1
  unfolding Timed tick_in_turn take_over show_own show_other ensure_show
  tick_in_turn-Timed sid st m r =
      let m1 : TurnMachine = record m {
        sessions = set sid (record st { last_tick_at = ts }) m.sessions;
      } in
      let m2 = take_over_from m1.active_session d sid ts m1 in
      let room = take_over_from-Timed m1.active_session sid m1 r in
      elim (Bool-cases (is_active sid m2)) [
        | inl counts ↦ rw counts (show_own_from-Timed _ st.phase _ refl (start-Timed m2 room))
        | inr silent ↦ rw silent (show_other_from-Timed m2.show _ st.phase m2 room)
      ]

  tick_found-Timed :
      (found : Option SessionState) (sid : String) (m : TurnMachine)
      → Timed base ts m
      → Timed base ts (tick_found found d sid ts m).1
  tick_found-Timed none sid m r = r
  tick_found-Timed (some st) sid m r = elim (Bool-cases (is_idle st.phase)) [
    | inl quiet ↦ rw quiet r
    | inr busy ↦ rw busy (tick_in_turn-Timed sid st m r)
  ]

  tick_gate-Timed :
      (reason : Option Reason) (sid : String) (m : TurnMachine)
      → Timed base ts m
      → Timed base ts (tick_gate reason d sid ts m).1
  tick_gate-Timed (some reason) sid m r = (close_show-Timed d base ts m r).0
  tick_gate-Timed none sid m r = tick_found-Timed (get sid m.sessions) sid m r

  pub on_tick-Timed :
      (sid : String) (m : TurnMachine) → Timed base ts m → Timed base ts (on_tick d sid ts m).1
  unfolding on_tick expire_cooldowns
  on_tick-Timed sid m r = tick_gate-Timed (stops d) sid _ (expire_loop-Timed m.sessions m r)

  pub on_activity-Timed :
      (sid : String) (m : TurnMachine) → Timed base ts m → Timed base ts (on_activity sid ts m)
  unfolding Timed on_activity
  on_activity-Timed sid m r = elim (Option-cases (get sid m.sessions)) [
    | inl absent ↦ rw (on_activity, absent) r
    | inr (st, there) ↦ elim (Bool-cases (is_showing st.phase)) [
      | inl shows ↦ rw (on_activity, there, shows) r
      | inr quiet ↦ rw (on_activity, there, quiet) r
    ]
  ]

  pub on_turn_end-Timed :
      (sid : String) (m : TurnMachine) → Timed base ts m → Timed base ts (on_turn_end d sid ts m)
  unfolding Timed on_turn_end
  on_turn_end-Timed sid m r = elim (Option-cases (get sid m.sessions)) [
    | inl absent ↦ rw (on_turn_end, absent) r
    | inr (st, there) ↦ elim (Bool-cases (is_showing st.phase)) [
      | inl shows ↦ rw (on_turn_end, there, shows) r
      | inr quiet ↦ rw (on_turn_end, there, quiet) r
    ]
  ]

pub drain_impressions-Timed :
    (base ts : ℕ) (m : TurnMachine)
    → Timed base ts m
    → Timed (base + total_ms m.completed) ts (drain_impressions m).1
unfolding Timed drain_impressions total_ms
drain_impressions-Timed base ts m r = subst (λ n. Room m.show n ts) (omega arith) r
