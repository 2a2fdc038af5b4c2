-- ===== src/Turns.antt =====
-- packages/cli/src/daemon/turns.ts: the turns of the sessions, and the one show that is measured.
-- Times are milliseconds. The source's differences of times are compared as sums, so that a clock
-- that runs back takes the same branches.
pub mod Tests
pub mod Shows
pub mod Mutex
pub mod Time
pub mod Run
pub mod Render
use dwell.Base.{
  ℕ, suc, ◌+◌, ◌-◌, String, Bool, true, false, not, ◌&&◌, ◌||◌, Option, none, some, List, [], ◌∷◌,
  ◌++◌, ltb, leb, is_some, same, if◌then◌else◌,
}
use dwell.Base.Map.{Map, get, set, delete}

pub data TurnPhase : Type 0 where
  idle showing cooldown : TurnPhase

abbrev pub is_idle : TurnPhase → Bool
is_idle idle = true
is_idle showing = false
is_idle cooldown = false

abbrev pub is_showing : TurnPhase → Bool
is_showing idle = false
is_showing showing = true
is_showing cooldown = false

abbrev pub is_cooldown : TurnPhase → Bool
is_cooldown idle = false
is_cooldown showing = false
is_cooldown cooldown = true

pub record SessionState : Type 0 where
  pub phase : TurnPhase
  pub cooldown_until : ℕ
  pub last_tick_at : ℕ
  pub active_at : ℕ

-- `AdPayload`, less the creative, which the machine passes on unread.
pub record AdPayload : Type 0 where
  pub campaign_id : String
  pub nonce : String
  pub nonce_expires_at : ℕ

pub record ActiveShow : Type 0 where
  pub ad : AdPayload
  pub started_at : ℕ
  pub session_id : String
  pub last_seen_at : ℕ

-- `rejected` holds the two numbers of `rejectedReason`; the surface is always the status line.
pub record CompletedImpression : Type 0 where
  pub id : String
  pub campaign_id : String
  pub nonce : String
  pub session_id : String
  pub duration_ms : ℕ
  pub client_ts : ℕ
  pub rejected : Option (ℕ × ℕ)

-- The reasons of a `RenderDecision`.
pub data Reason : Type 0 where
  paused logged_out switched_off surface_off no_turn other_session_counts no_ad : Reason

pub record RenderDecision : Type 0 where
  pub ad : Option AdPayload
  pub phase : TurnPhase
  pub reason : Option Reason

-- What the injected functions return at one event. The n-th call of `nextAd` since the machine was
-- made gives `next_ad n`, and the n-th call of `impressionId` gives `impression_id n`.
pub record Deps : Type 0 where
  pub next_ad : ℕ → Option AdPayload
  pub impression_id : ℕ → String
  pub render_enabled : Bool
  pub statusline : Bool
  pub min_impression_ms : ℕ
  pub rotate_ms : ℕ
  pub idle_grace_ms : ℕ
  pub is_paused : Bool
  pub is_authenticated : Bool
  pub max_quiet_turn_ms : ℕ

abbrev pub stale_mutex_ms : ℕ
stale_mutex_ms = 60_000

-- `asked` and `issued` count the calls of `nextAd` and of `impressionId`.
pub record TurnMachine : Type 0 where
  pub sessions : Map SessionState
  pub active_session : Option String
  pub show : Option ActiveShow
  pub completed : List CompletedImpression
  pub asked : ℕ
  pub issued : ℕ

abbrev pub empty : TurnMachine
empty = record {
  sessions = [];
  active_session = none;
  show = none;
  completed = [];
  asked = 0;
  issued = 0;
}

-- `#startShow`
pub start_show : Deps → ℕ → TurnMachine → TurnMachine
start_show d ts m = elim (d.next_ad m.asked) [
  | none ↦ record m { show = none; asked = suc m.asked }
  | some ad ↦ elim m.active_session [
    | none ↦ record m { show = none; asked = suc m.asked }
    | some sid ↦ record m {
      show = some (record { ad = ad; started_at = ts; session_id = sid; last_seen_at = ts });
      asked = suc m.asked;
    }
  ]
]

-- The record that `#closeShow` pushes.
pub completion : Deps → ℕ → String → ActiveShow → CompletedImpression
completion d ts id show =
    let duration = show.last_seen_at - show.started_at in
    record {
      id = id;
      campaign_id = show.ad.campaign_id;
      nonce = show.ad.nonce;
      session_id = show.session_id;
      duration_ms = duration;
      client_ts = ts;
      rejected =
          if leb d.min_impression_ms duration then none else some (duration, d.min_impression_ms);
    }

-- `#closeShow`
pub close_show : Deps → ℕ → TurnMachine → TurnMachine
close_show d ts m = elim m.show [
  | none ↦ m
  | some show ↦ record m {
    show = none;
    completed = m.completed ++ (completion d ts (d.impression_id m.issued) show ∷ []);
    issued = suc m.issued;
  }
]

-- `#nextMutexHolder`
pub next_mutex_holder : Map SessionState → Option String
next_mutex_holder [] = none
next_mutex_holder ((sid, st) ∷ m) = if is_idle st.phase then next_mutex_holder m else some sid

abbrev pub is_active : String → TurnMachine → Bool
is_active sid m = elim m.active_session [ none ↦ false | some other ↦ same other sid ]

-- One round of the loop in `#expireCooldowns`.
pub expire_one : Deps → ℕ → String → SessionState → TurnMachine → TurnMachine
expire_one d ts sid st m =
    let cooled = is_cooldown st.phase && leb st.cooldown_until ts in
    let abandoned = is_showing st.phase && leb (st.active_at + d.max_quiet_turn_ms) ts in
    let m1 = record m { sessions = set sid (record st { phase = idle }) m.sessions } in
    let m2 = close_show d ts m1 in
    if not (cooled || abandoned)
    then m
    else if is_active sid m
    then record m2 { active_session = next_mutex_holder m2.sessions }
    else m1

pub expire_loop : Deps → ℕ → Map SessionState → TurnMachine → TurnMachine
expire_loop d ts [] m = m
expire_loop d ts ((sid, st) ∷ rest) m = expire_loop d ts rest (expire_one d ts sid st m)

-- `#expireCooldowns`: a round changes no session but its own, so that each is read as it stood.
pub expire_cooldowns : Deps → ℕ → TurnMachine → TurnMachine
expire_cooldowns d ts m = expire_loop d ts m.sessions m

-- `onTurnStart`
pub on_turn_start : Deps → String → ℕ → TurnMachine → TurnMachine
on_turn_start d sid ts m =
    let fresh : SessionState = record {
      phase = showing;
      cooldown_until = 0;
      last_tick_at = ts;
      active_at = ts;
    } in
    let m1 = record m { sessions = set sid fresh m.sessions } in
    let m2 = record m1 { active_session = some sid } in
    if not (is_some m.active_session) || is_active sid m
    then (if is_some m.show then m2 else start_show d ts m2)
    else m1

-- `onActivity`
pub on_activity : String → ℕ → TurnMachine → TurnMachine
on_activity sid ts m = elim (get sid m.sessions) [
  | none ↦ m
  | some st ↦
      if is_showing st.phase
      then record m { sessions = set sid (record st { active_at = ts }) m.sessions }
      else m
]

-- `onTurnEnd`
pub on_turn_end : Deps → String → ℕ → TurnMachine → TurnMachine
on_turn_end d sid ts m = elim (get sid m.sessions) [
  | none ↦ m
  | some st ↦
      if is_showing st.phase
      then record m {
        sessions =
            set sid (record st { phase = cooldown; cooldown_until = ts + d.idle_grace_ms })
              m.sessions;
      }
      else m
]

-- `drainImpressions`
pub drain_impressions : TurnMachine → List CompletedImpression × TurnMachine
drain_impressions m = (m.completed, record m { completed = [] })

-- `onSessionEnd`
pub on_session_end : Deps → String → ℕ → TurnMachine → TurnMachine
on_session_end d sid ts m =
    let m1 = record m { sessions = delete sid m.sessions } in
    let m2 = close_show d ts m1 in
    if is_active sid m then record m2 { active_session = next_mutex_holder m2.sessions } else m1

abbrev pub hidden : TurnPhase → Reason → RenderDecision
hidden phase reason = record { ad = none; phase = phase; reason = some reason }

-- `#stopAndHide`
abbrev pub stop_and_hide : Deps → ℕ → Reason → TurnMachine → RenderDecision × TurnMachine
stop_and_hide d ts reason m = (hidden idle reason, close_show d ts m)

-- Has the holder sent no tick for too long? One that is not known counts as silent.
abbrev pub is_silent : ℕ → Option SessionState → Bool
is_silent ts none = true
is_silent ts (some st) = ltb (st.last_tick_at + stale_mutex_ms) ts

abbrev pub take_over_from : Option String → Deps → String → ℕ → TurnMachine → TurnMachine
take_over_from none d sid ts m = m
take_over_from (some owner) d sid ts m =
    let m1 = close_show d ts m in
    if not (same owner sid) && is_silent ts (get owner m.sessions)
    then record m1 { sessions = delete owner m1.sessions; active_session = some sid }
    else m

-- Where the holder of the mutex is gone or has been silent too long, this session takes over.
pub take_over : Deps → String → ℕ → TurnMachine → TurnMachine
take_over d sid ts m = take_over_from m.active_session d sid ts m

abbrev pub show_other_from :
    Option ActiveShow → Option AdPayload → TurnPhase → TurnMachine → RenderDecision × TurnMachine
show_other_from (some show) next phase m =
    (record { ad = some show.ad; phase = phase; reason = some other_session_counts }, m)
show_other_from none (some ad) phase m = (
  record { ad = some ad; phase = phase; reason = some other_session_counts },
  record m { asked = suc m.asked },
)
show_other_from none none phase m = (hidden phase no_ad, record m { asked = suc m.asked })

-- What a session sees that does not count: the show of the one that does, or else the next ad.
pub show_other : Deps → TurnPhase → TurnMachine → RenderDecision × TurnMachine
show_other d phase m = show_other_from m.show (d.next_ad m.asked) phase m

-- `if (this.#show === null) this.#startShow(ts)`
pub ensure_show : Deps → ℕ → TurnMachine → TurnMachine
ensure_show d ts m = if is_some m.show then m else start_show d ts m

-- The tick is seen, and the show is closed and a new one started where its time is over.
pub rotate : Deps → ℕ → ActiveShow → TurnMachine → TurnMachine
rotate d ts show m =
    let seen = record m { show = some (record show { last_seen_at = ts }) } in
    if leb (show.started_at + d.rotate_ms) ts then start_show d ts (close_show d ts seen) else seen

abbrev pub decide : TurnPhase → TurnMachine → RenderDecision
decide phase m = elim m.show [
  | none ↦ hidden phase no_ad
  | some show ↦ record { ad = some show.ad; phase = phase; reason = none }
]

abbrev pub show_own_from :
    Option ActiveShow → Deps → ℕ → TurnPhase → TurnMachine → RenderDecision × TurnMachine
show_own_from none d ts phase m = (hidden phase no_ad, m)
show_own_from (some show) d ts phase m = let m1 = rotate d ts show m in (decide phase m1, m1)

-- What the counting session sees.
pub show_own : Deps → ℕ → TurnPhase → TurnMachine → RenderDecision × TurnMachine
show_own d ts phase m = let m1 = ensure_show d ts m in show_own_from m1.show d ts phase m1

-- A tick of a session that is in a turn.
pub tick_in_turn : Deps → String → ℕ → SessionState → TurnMachine → RenderDecision × TurnMachine
tick_in_turn d sid ts st m =
    let m1 =
      take_over d sid ts
        (record m { sessions = set sid (record st { last_tick_at = ts }) m.sessions }) in
    if is_active sid m1 then show_own d ts st.phase m1 else show_other d st.phase m1

abbrev pub tick_found :
    Option SessionState → Deps → String → ℕ → TurnMachine → RenderDecision × TurnMachine
tick_found none d sid ts m = (hidden idle no_turn, m)
tick_found (some st) d sid ts m =
    if is_idle st.phase then (hidden idle no_turn, m) else tick_in_turn d sid ts st m

-- The first of the conditions of ADR-023 that do not depend on the session and that fails.
pub stops : Deps → Option Reason
stops d =
    if d.is_paused
    then some paused
    else if not d.is_authenticated
    then some logged_out
    else if not d.render_enabled
    then some switched_off
    else if not d.statusline
    then some surface_off
    else none

abbrev pub tick_gate :
    Option Reason → Deps → String → ℕ → TurnMachine → RenderDecision × TurnMachine
tick_gate (some reason) d sid ts m = stop_and_hide d ts reason m
tick_gate none d sid ts m = tick_found (get sid m.sessions) d sid ts m

-- `onTick`
pub on_tick : Deps → String → ℕ → TurnMachine → RenderDecision × TurnMachine
on_tick d sid ts m = tick_gate (stops d) d sid ts (expire_cooldowns d ts m)
