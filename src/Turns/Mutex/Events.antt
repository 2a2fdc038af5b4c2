-- ===== src/Turns/Mutex/Events.antt =====
-- The mutex under every event of `TurnMachine`.
use dwell.Base.{
  ℕ, ◌+◌, String, true, false, not, ◌&&◌, ◌||◌, ◌≡◌, refl, sym, ap, ◌∙◌, Option, none, some, same,
  same_iff, same_comm, same_refl, is_some, leb, if◌then◌else◌, arith, Bool-cases, Option-cases, inl,
  inr, subst,
}
use dwell.Base.Map.{Map, get, set, delete, Distinct, set-Distinct, delete-Distinct}
use dwell.Turns.{
  TurnPhase, idle, showing, cooldown, is_idle, is_showing, SessionState, ActiveShow, Deps,
  TurnMachine, start_show, close_show, is_active, expire_cooldowns, on_turn_start, on_activity,
  on_turn_end, drain_impressions, on_session_end, take_over, take_over_from, is_silent,
  show_other_from, show_own_from, AdPayload, tick_found, tick_gate, stops, Reason, show_other,
  ensure_show, rotate, show_own, tick_in_turn, on_tick,
}
use dwell.Turns.Mutex.{
  found_in_turn, in_turn, Held, Owned, IsValid, Closed, in_turn-set, in_turn-delete, Held-set_turn,
  start_show-IsValid, close_show-Closed, close_show-IsValid, handed_on-IsValid,
  expire_cooldowns-IsValid,
}

-- A session that starts a turn where another holds the mutex.
Held-set_busy :
    (k : String) (st : SessionState) (j : String) (m : Map SessionState)
    → in_turn j m ≡ true
    → is_idle st.phase ≡ false
    → in_turn j (set k st m) ≡ true
Held-set_busy k st j m held busy =
    in_turn-set j k st m
    ∙ rw busy (elim (Bool-cases (same k j)) [ inl e ↦ rw e refl | inr e ↦ rw e held ])

in_turn-set_same :
    (k : String) (st : SessionState) (m : Map SessionState)
    → is_idle st.phase ≡ false
    → in_turn k (set k st m) ≡ true
in_turn-set_same k st m busy = in_turn-set k k st m ∙ rw (same_refl k, busy) refl

-- The session that starts a turn, as `onTurnStart` enters it.
abbrev pub started : ℕ → SessionState
started ts = record { phase = showing; cooldown_until = 0; last_tick_at = ts; active_at = ts }

Owned-taken :
    (s : Option ActiveShow) (a : Option String) (sid : String)
    → Owned s a
    → (not (is_some a) || (elim a [ none ↦ false | some other ↦ same other sid ])) ≡ true
    → Owned s (some sid)
Owned-taken none a sid owned h = tt
Owned-taken (some show) none sid owned h = cc
Owned-taken (some show) (some a) sid owned h = ap some (sym ((same_iff a sid).0 h)) ∙ owned

pub on_turn_start-IsValid :
    (d : Deps) (sid : String) (ts : ℕ) (m : TurnMachine)
    → IsValid m
    → IsValid (on_turn_start d sid ts m)
unfolding IsValid on_turn_start
on_turn_start-IsValid d sid ts m v =
    let distinct = set-Distinct sid (started ts) m.sessions v.0 in
    elim (Bool-cases (not (is_some m.active_session) || is_active sid m)) [
      | inl free ↦ rw free (entered free distinct)
      | inr taken ↦ rw taken (distinct, other m.active_session taken v.1, v.2)
    ]
  where
    entered :
        (not (is_some m.active_session) || is_active sid m) ≡ true
        → Distinct (set sid (started ts) m.sessions)
        → IsValid (
            let m2 = record m {
              sessions = set sid (started ts) m.sessions;
              active_session = some sid;
            } in
            if is_some m.show then m2 else start_show d ts m2)
    entered free distinct =
        let m2 : TurnMachine = record m {
          sessions = set sid (started ts) m.sessions;
          active_session = some sid;
        } in
        let valid : IsValid m2 = (
          distinct,
          in_turn-set_same sid (started ts) m.sessions refl,
          Owned-taken m.show m.active_session sid v.2 free,
        ) in
        elim (Bool-cases (is_some m.show)) [
          | inl shown ↦ rw shown valid
          | inr none_shown ↦ rw none_shown (start_show-IsValid d ts m2 valid)
        ]

    other :
        (a : Option String)
        → (not (is_some a) || (elim a [ none ↦ false | some other ↦ same other sid ])) ≡ false
        → Held a m.sessions
        → Held a (set sid (started ts) m.sessions)
    other none taken held = cc
    other (some j) taken held = Held-set_busy sid (started ts) j m.sessions held refl

-- A session in its turn is changed and stays in it.
pub update-IsValid :
    (sid : String) (st st1 : SessionState) (m : TurnMachine)
    → get sid m.sessions ≡ some st
    → is_idle st.phase ≡ false
    → is_idle st1.phase ≡ false
    → IsValid m
    → IsValid (record m { sessions = set sid st1 m.sessions })
unfolding IsValid
update-IsValid sid st st1 m there busy busy1 v = (
  set-Distinct sid st1 m.sessions v.0,
  Held-set_turn sid st1 m.active_session m.sessions v.1 (ap found_in_turn there ∙ rw busy refl)
      busy1,
  v.2,
)

showing-turn : (p : TurnPhase) → is_showing p ≡ true → is_idle p ≡ false
showing-turn idle h = cc
showing-turn showing h = refl
showing-turn cooldown h = refl

pub on_activity-IsValid :
    (sid : String) (ts : ℕ) (m : TurnMachine) → IsValid m → IsValid (on_activity sid ts m)
unfolding on_activity
on_activity-IsValid sid ts m v = elim (Option-cases (get sid m.sessions)) [
  | inl absent ↦ rw (on_activity, absent) v
  | inr (st, there) ↦ elim (Bool-cases (is_showing st.phase)) [
    | inl shows ↦
        let busy = showing-turn st.phase shows in
        rw (on_activity, there, shows)
          (update-IsValid sid st (record st { active_at = ts }) m there busy busy v)
    | inr quiet ↦ rw (on_activity, there, quiet) v
  ]
]

pub on_turn_end-IsValid :
    (d : Deps) (sid : String) (ts : ℕ) (m : TurnMachine)
    → IsValid m
    → IsValid (on_turn_end d sid ts m)
unfolding on_turn_end
on_turn_end-IsValid d sid ts m v = elim (Option-cases (get sid m.sessions)) [
  | inl absent ↦ rw (on_turn_end, absent) v
  | inr (st, there) ↦ elim (Bool-cases (is_showing st.phase)) [
    | inl shows ↦
        rw (on_turn_end, there, shows)
          (update-IsValid sid st
            (record st { phase = cooldown; cooldown_until = ts + d.idle_grace_ms }) m there
            (showing-turn st.phase shows) refl v)
    | inr quiet ↦ rw (on_turn_end, there, quiet) v
  ]
]

Held-delete :
    (k : String) (a : Option String) (m : Map SessionState)
    → Held a m
    → (elim a [ none ↦ false | some other ↦ same other k ]) ≡ false
    → Held a (delete k m)
Held-delete k none m held other = λ j.
    in_turn-delete j k m
    ∙ (elim (Bool-cases (same k j)) [ inl e ↦ rw e refl | inr e ↦ rw e (held j) ])
Held-delete k (some j) m held other = in_turn-delete j k m ∙ rw (same_comm k j) (rw other held)

pub on_session_end-IsValid :
    (d : Deps) (sid : String) (ts : ℕ) (m : TurnMachine)
    → IsValid m
    → IsValid (on_session_end d sid ts m)
unfolding IsValid on_session_end
on_session_end-IsValid d sid ts m v =
    let distinct = delete-Distinct sid m.sessions v.0 in
    elim (Bool-cases (is_active sid m)) [
      | inl holder ↦ rw holder (handed_on-IsValid d ts _ distinct)
      | inr other ↦ rw other (distinct, Held-delete sid m.active_session m.sessions v.1 other, v.2)
    ]

pub drain_impressions-IsValid : (m : TurnMachine) → IsValid m → IsValid (drain_impressions m).1
unfolding IsValid drain_impressions
drain_impressions-IsValid m v = v

-- The new holder is in its turn, and forgetting the old one does not end it.
take_over_from-IsValid :
    (a : Option String) (d : Deps) (sid : String) (ts : ℕ) (m : TurnMachine)
    → in_turn sid m.sessions ≡ true
    → IsValid m
    → IsValid (take_over_from a d sid ts m)
unfolding IsValid Closed
take_over_from-IsValid none d sid ts m there v = v
take_over_from-IsValid (some owner) d sid ts m there v =
    elim (Bool-cases (not (same owner sid) && is_silent ts (get owner m.sessions))) [
      | inr stays ↦ rw stays v
      | inl takes ↦
          let other : same owner sid ≡ false = ground (arith, takes) in
          let (sessions, active, show) = close_show-Closed d ts m in
          rw takes (
            rw (sessions, show)
              (
                delete-Distinct owner m.sessions v.0,
                in_turn-delete sid owner m.sessions ∙ rw other there,
                tt,
              ))
    ]

take_over-IsValid :
    (d : Deps) (sid : String) (ts : ℕ) (m : TurnMachine)
    → in_turn sid m.sessions ≡ true
    → IsValid m
    → IsValid (take_over d sid ts m)
unfolding take_over
take_over-IsValid d sid ts m there v = take_over_from-IsValid m.active_session d sid ts m there v

ensure_show-IsValid :
    (d : Deps) (ts : ℕ) (m : TurnMachine) → IsValid m → IsValid (ensure_show d ts m)
unfolding ensure_show
ensure_show-IsValid d ts m v = elim (Bool-cases (is_some m.show)) [
  | inl shown ↦ rw shown v
  | inr none_shown ↦ rw none_shown (start_show-IsValid d ts m v)
]

rotate-IsValid :
    (d : Deps) (ts : ℕ) (show : ActiveShow) (m : TurnMachine)
    → m.show ≡ some show
    → IsValid m
    → IsValid (rotate d ts show m)
unfolding rotate
rotate-IsValid d ts show m shown v =
    let seen : TurnMachine = record m { show = some (record show { last_seen_at = ts }) } in
    let valid : IsValid seen =
      unfold IsValid in (v.0, v.1, subst (λ s. Owned s m.active_session) shown v.2) in
    elim (Bool-cases (leb (show.started_at + d.rotate_ms) ts)) [
      | inl over ↦
          rw over
            (start_show-IsValid d ts (close_show d ts seen) (close_show-IsValid d ts seen valid))
      | inr fits ↦ rw fits valid
    ]

show_own_from-IsValid :
    (s : Option ActiveShow) (d : Deps) (ts : ℕ) (phase : TurnPhase) (m : TurnMachine)
    → m.show ≡ s
    → IsValid m
    → IsValid (show_own_from s d ts phase m).1
show_own_from-IsValid none d ts phase m e v = v
show_own_from-IsValid (some show) d ts phase m e v = rotate-IsValid d ts show m e v

show_own-IsValid :
    (d : Deps) (ts : ℕ) (phase : TurnPhase) (m : TurnMachine)
    → IsValid m
    → IsValid (show_own d ts phase m).1
unfolding show_own
show_own-IsValid d ts phase m v =
    show_own_from-IsValid (ensure_show d ts m).show d ts phase (ensure_show d ts m) refl
      (ensure_show-IsValid d ts m v)

show_other_from-IsValid :
    (s : Option ActiveShow) (ad : Option AdPayload) (phase : TurnPhase) (m : TurnMachine)
    → IsValid m
    → IsValid (show_other_from s ad phase m).1
unfolding IsValid
show_other_from-IsValid (some show) ad phase m v = v
show_other_from-IsValid none (some ad) phase m v = v
show_other_from-IsValid none none phase m v = v

tick_in_turn-IsValid :
    (d : Deps) (sid : String) (ts : ℕ) (st : SessionState) (m : TurnMachine)
    → get sid m.sessions ≡ some st
    → is_idle st.phase ≡ false
    → IsValid m
    → IsValid (tick_in_turn d sid ts st m).1
unfolding tick_in_turn show_other
tick_in_turn-IsValid d sid ts st m there busy v =
    let ticked : SessionState = record st { last_tick_at = ts } in
    let m1 : TurnMachine = record m { sessions = set sid ticked m.sessions } in
    let valid =
      take_over-IsValid d sid ts m1 (in_turn-set_same sid ticked m.sessions busy)
        (update-IsValid sid st ticked m there busy busy v) in
    elim (Bool-cases (is_active sid (take_over d sid ts m1))) [
      | inl counts ↦ rw counts (show_own-IsValid d ts st.phase (take_over d sid ts m1) valid)
      | inr silent ↦ rw silent (
          show_other_from-IsValid (take_over d sid ts m1).show _ st.phase (take_over d sid ts m1)
            valid)
    ]

found-IsValid :
    (found : Option SessionState) (d : Deps) (sid : String) (ts : ℕ) (m : TurnMachine)
    → get sid m.sessions ≡ found
    → IsValid m
    → IsValid (tick_found found d sid ts m).1
found-IsValid none d sid ts m e v = v
found-IsValid (some st) d sid ts m e v = elim (Bool-cases (is_idle st.phase)) [
  | inl quiet ↦ rw quiet v
  | inr busy ↦ rw busy (tick_in_turn-IsValid d sid ts st m e busy v)
]

tick_gate-IsValid :
    (reason : Option Reason) (d : Deps) (sid : String) (ts : ℕ) (m : TurnMachine)
    → IsValid m
    → IsValid (tick_gate reason d sid ts m).1
tick_gate-IsValid (some reason) d sid ts m v = close_show-IsValid d ts m v
tick_gate-IsValid none d sid ts m v = found-IsValid (get sid m.sessions) d sid ts m refl v

pub on_tick-IsValid :
    (d : Deps) (sid : String) (ts : ℕ) (m : TurnMachine)
    → IsValid m
    → IsValid (on_tick d sid ts m).1
unfolding on_tick
on_tick-IsValid d sid ts m v =
    tick_gate-IsValid (stops d) d sid ts (expire_cooldowns d ts m)
      (expire_cooldowns-IsValid d ts m v)
