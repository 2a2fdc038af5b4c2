-- ===== src/Turns/Time.antt =====
-- The measured time of shows, against the time on the clock.
pub mod Events
use dwell.Base.{
  ℕ, suc, ◌+◌, ◌-◌, ◌≤◌, String, Bool, true, false, not, ◌&&◌, ◌||◌, ◌≡◌, refl, sym, ap, ◌∙◌,
  Option, none, some, List, [], ◌∷◌, ◌++◌, same, is_some, leb, ltb, if◌then◌else◌, arith,
  Bool-cases, Option-cases, inl, inr, ◌⊎◌, subst,
}
use dwell.Base.Map.{Map, get, set, delete}
use dwell.Turns.{
  TurnPhase, idle, is_idle, is_showing, is_cooldown, SessionState, ActiveShow, CompletedImpression,
  AdPayload, Reason, Deps, TurnMachine, completion, start_show, close_show, next_mutex_holder,
  is_active, empty, expire_one, expire_loop, expire_cooldowns, on_turn_start, on_activity,
  on_turn_end, on_session_end, take_over, take_over_from, is_silent, show_other_from, show_other,
  ensure_show, rotate, show_own_from, show_own, tick_in_turn, tick_found, tick_gate, stops, on_tick,
}
use dwell.Turns.Shows.{Fresh, start_show_value, closed, close_show-cases}

-- The measured time of closed shows.
unfoldable pub total_ms : List CompletedImpression → ℕ
total_ms [] = 0
total_ms (c ∷ cs) = c.duration_ms + total_ms cs

pub total_ms-append :
    (cs ds : List CompletedImpression) → total_ms (cs ++ ds) ≡ total_ms cs + total_ms ds
unfolding total_ms
total_ms-append [] ds = omega arith
total_ms-append (c ∷ cs) ds = omega (arith, total_ms-append cs ds)

-- A time spent until `t`: all of it before the start of the show, if there is one.
abbrev pub Room : Option ActiveShow → ℕ → ℕ → Type 0
Room none spent t = spent ≤ t
Room (some show) spent t =
    (spent ≤ show.started_at) × (show.started_at ≤ show.last_seen_at) × (show.last_seen_at ≤ t)

-- The closed shows of a machine, after a time `base`, and its show fit into the time until `t`.
pub Timed : ℕ → ℕ → TurnMachine → Type 0
Timed base t m = Room m.show (base + total_ms m.completed) t

Room-later : (s : Option ActiveShow) (spent t t1 : ℕ) → t ≤ t1 → Room s spent t → Room s spent t1
Room-later none spent t t1 h r = omega (arith, r)
Room-later (some show) spent t t1 h r = (r.0, r.1, omega (arith, r.2))

pub Timed-later : (base t t1 : ℕ) (m : TurnMachine) → t ≤ t1 → Timed base t m → Timed base t1 m
unfolding Timed
Timed-later base t t1 m h r = Room-later m.show _ t t1 h r

-- The measured time never passes the clock.
pub Timed-le : (base t : ℕ) (m : TurnMachine) → Timed base t m → base + total_ms m.completed ≤ t
unfolding Timed
Timed-le base t m r = spent_le m.show r
  where
    spent_le :
        (s : Option ActiveShow)
        → Room s (base + total_ms m.completed) t
        → base + total_ms m.completed ≤ t
    spent_le none r = r
    spent_le (some show) r = omega (arith, r.0, r.1, r.2)

module _ (d : Deps) (base ts : ℕ) (m : TurnMachine) where
  pub start_show-Timed : base + total_ms m.completed ≤ ts → Timed base ts (start_show d ts m)
  unfolding Timed
  start_show-Timed h =
      let (s, e, f) = start_show_value d ts m in subst (Timed base ts) (sym e) (room s f)
    where
      room :
          (s : Option ActiveShow)
          → Fresh ts m.active_session s
          → Room s (base + total_ms m.completed) ts
      room none f = h
      room (some show) f = (omega (arith, h, f.1), omega (arith, f.1, f.2), omega (arith, f.2))

  -- A closed show adds its measured time, and no show is left.
  pub close_show-Timed :
      Timed base ts m → Timed base ts (close_show d ts m) × ((close_show d ts m).show ≡ none)
  unfolding Timed
  close_show-Timed r = elim (close_show-cases d ts m) [
    | inl (no_show, e) ↦ subst (λ n. Timed base ts n × (n.show ≡ none)) (sym e) (r, no_show)
    | inr (show, shown, e) ↦
        let fits : Room (some show) (base + total_ms m.completed) ts =
          subst (λ s. Room s (base + total_ms m.completed) ts) shown r in
        let more =
          total_ms-append m.completed (completion d ts (d.impression_id m.issued) show ∷ []) in
        subst (λ n. Timed base ts n × (n.show ≡ none)) (sym e)
          (unfold completion total_ms in omega (arith, more, fits.0, fits.1, fits.2), refl)
  ]

pub Timed-base : {b b1 : ℕ} (t : ℕ) (m : TurnMachine) → b ≡ b1 → Timed b t m → Timed b1 t m
Timed-base t m e r = subst (λ n. Timed n t m) e r

pub Timed-nothing : (b t : ℕ) (m : TurnMachine) → Timed b t m → Timed (b + total_ms []) t m
unfolding total_ms
Timed-nothing b t m r = Timed-base t m (omega arith) r

pub Timed-empty : (t : ℕ) → Timed t t empty
unfolding Timed total_ms
Timed-empty t = omega arith
