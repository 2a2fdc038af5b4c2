-- ===== src/Turns/Render.antt =====
-- When the status line shows an ad (ADR-023), and when its show counts (ADR-012).
use dwell.Base.{
  ℕ, String, Bool, true, false, not, ◌≡◌, refl, Option, none, some, is_some, if◌then◌else◌,
  Bool-cases, inl, inr,
}
use dwell.Base.Map.{get}
use dwell.Turns.{
  is_idle, SessionState, Reason, Deps, TurnMachine, expire_cooldowns, tick_found, tick_gate, stops,
  on_tick,
}
use dwell.Turns.Mutex.{in_turn, found_in_turn}

-- Nothing that the user or the server controls forbids ads.
abbrev pub Open : Deps → Type 0
Open d =
    (d.is_paused ≡ false)
    × (d.is_authenticated ≡ true)
    × (d.render_enabled ≡ true)
    × (d.statusline ≡ true)

stops-Open : (d : Deps) → stops d ≡ none → Open d
unfolding stops
stops-Open d h = gates d.is_paused d.is_authenticated d.render_enabled d.statusline h
  where
    gates :
        (p a r s : Bool)
        → (if p
            then some Reason.paused
            else if not a
            then some Reason.logged_out
            else if not r
            then some Reason.switched_off
            else if not s
            then some Reason.surface_off
            else none)
          ≡ none
        → (p ≡ false) × (a ≡ true) × (r ≡ true) × (s ≡ true)
    gates true a r s h = cc
    gates false false r s h = cc
    gates false true false s h = cc
    gates false true true false h = cc
    gates false true true true h = (refl, refl, refl, refl)

module _ (d : Deps) (sid : String) (ts : ℕ) where
  found-shown :
      (found : Option SessionState) (m : TurnMachine)
      → is_some (tick_found found d sid ts m).0.ad ≡ true
      → found_in_turn found ≡ true
  found-shown none m h = cc
  found-shown (some st) m h = elim (Bool-cases (is_idle st.phase)) [
    | inr busy ↦ rw busy refl
    | inl quiet ↦
        let hides : is_some (tick_found (some st) d sid ts m).0.ad ≡ false = rw quiet refl in cc
  ]

  gate-shown :
      (reason : Option Reason) (m : TurnMachine)
      → is_some (tick_gate reason d sid ts m).0.ad ≡ true
      → (reason ≡ none) × (in_turn sid m.sessions ≡ true)
  gate-shown (some reason) m h = cc
  gate-shown none m h = (refl, found-shown (get sid m.sessions) m h)

  -- A tick that shows an ad, of whatever session, happens only while the user has not paused, is
  -- logged in, rendering and the status line are switched on, and that session is in a turn once
  -- the graces and the silent turns that are over have been ended.
  pub on_tick-shown :
      (m : TurnMachine)
      → is_some (on_tick d sid ts m).0.ad ≡ true
      → Open d × (in_turn sid (expire_cooldowns d ts m).sessions ≡ true)
  unfolding on_tick
  on_tick-shown m h =
      let (goes, turn) = gate-shown (stops d) (expire_cooldowns d ts m) h in
      (stops-Open d goes, turn)
