-- ===== src/Turns/Mutex.antt =====
-- The mutex of ADR-012: who holds it, and what a machine with it should look like.
pub mod Events
use dwell.Base.{
  ℕ, suc, String, Bool, true, false, not, ◌&&◌, ◌||◌, ◌≡◌, refl, sym, ap, ◌∙◌, Option, none, some,
  List, [], ◌∷◌, same, same_iff, same_comm, same_refl, is_some, leb, ltb, if◌then◌else◌, arith,
  Bool-cases, Option-cases, inl, inr, ◌⊎◌, subst, ◌+◌,
}
use dwell.Base.Map.{
  Map, get, set, delete, get-set, get-delete, Distinct, set-Distinct, delete-Distinct,
}
use dwell.Turns.Shows.{Fresh, start_show_value, closed, close_show-cases}
use dwell.Turns.{
  TurnPhase, idle, is_idle, is_showing, is_cooldown, SessionState, ActiveShow, Deps, TurnMachine,
  empty, start_show, close_show, next_mutex_holder, is_active, expire_one, expire_loop,
  expire_cooldowns, on_turn_start, on_activity, on_turn_end, drain_impressions, on_session_end,
  take_over, show_other, ensure_show, rotate, show_own, tick_in_turn, on_tick,
}

-- A session is in a turn: known, and not idle.
abbrev pub found_in_turn : Option SessionState → Bool
found_in_turn none = false
found_in_turn (some st) = not (is_idle st.phase)

abbrev pub in_turn : String → Map SessionState → Bool
in_turn sid m = found_in_turn (get sid m)

-- The holder of the mutex is in a turn, and where nobody holds it no session is in a turn.
abbrev pub Held : Option String → Map SessionState → Type 0
Held none m = (sid : String) → in_turn sid m ≡ false
Held (some sid) m = in_turn sid m ≡ true

-- A show belongs to the holder.
abbrev pub Owned : Option ActiveShow → Option String → Type 0
Owned none active = Unit
Owned (some show) active = active ≡ some show.session_id

abbrev pub Parts : Map SessionState → Option String → Option ActiveShow → Type 0
Parts sessions active show = Distinct sessions × Held active sessions × Owned show active

pub IsValid : TurnMachine → Type 0
IsValid m = Parts m.sessions m.active_session m.show

pub in_turn-set :
    (j k : String) (st : SessionState) (m : Map SessionState)
    → in_turn j (set k st m) ≡ (if same k j then not (is_idle st.phase) else in_turn j m)
in_turn-set j k st m = elim (Bool-cases (same k j)) [
  | inl e ↦ rw e (ap found_in_turn (get-set j k st m ∙ ap (λ c. if c then some st else get j m) e))
  | inr e ↦ rw e (ap found_in_turn (get-set j k st m ∙ ap (λ c. if c then some st else get j m) e))
]

pub in_turn-delete :
    (j k : String) (m : Map SessionState)
    → in_turn j (delete k m) ≡ (if same k j then false else in_turn j m)
in_turn-delete j k m = elim (Bool-cases (same k j)) [
  | inl e ↦ rw e (ap found_in_turn (get-delete j k m ∙ ap (λ c. if c then none else get j m) e))
  | inr e ↦ rw e (ap found_in_turn (get-delete j k m ∙ ap (λ c. if c then none else get j m) e))
]

in_turn_cons :
    (j k : String) (st : SessionState) (m : Map SessionState)
    → in_turn j ((k, st) ∷ m) ≡ (if same k j then not (is_idle st.phase) else in_turn j m)
unfolding get
in_turn_cons j k st m = elim (Bool-cases (same k j)) [ inl e ↦ rw e refl | inr e ↦ rw e refl ]

past_idle :
    (k : String) (st : SessionState) (m : Map SessionState) (a : Option String)
    → get k m ≡ none
    → is_idle st.phase ≡ true
    → Held a m
    → Held a ((k, st) ∷ m)
past_idle k st m none absent quiet held = λ j.
    in_turn_cons j k st m
    ∙ rw quiet (elim (Bool-cases (same k j)) [ inl e ↦ rw e refl | inr e ↦ rw e (held j) ])
past_idle k st m (some j) absent quiet held =
    in_turn_cons j k st m ∙ (elim (Bool-cases (same k j)) [
      | inl e ↦ absurd_holder ((same_iff k j).0 e)
      | inr e ↦ rw e held
    ])
  where
    absurd_holder : k ≡ j → (if same k j then not (is_idle st.phase) else in_turn j m) ≡ true
    absurd_holder e =
        let idle_there : in_turn k m ≡ false = ap found_in_turn absent in
        let held' : in_turn k m ≡ true = subst (λ i. in_turn i m ≡ true) (sym e) held in cc

next_mutex_holder-Held : (m : Map SessionState) → Distinct m → Held (next_mutex_holder m) m
unfolding next_mutex_holder
next_mutex_holder-Held [] h = λ sid. unfold get in refl
next_mutex_holder-Held ((k, st) ∷ m) h = elim (Bool-cases (is_idle st.phase)) [
  | inl quiet ↦
      rw quiet (past_idle k st m (next_mutex_holder m) h.0 quiet (next_mutex_holder-Held m h.1))
  | inr busy ↦ rw busy (in_turn_cons k k st m ∙ rw (same_refl k, busy) refl)
]

pub start_show-IsValid :
    (d : Deps) (ts : ℕ) (m : TurnMachine) → IsValid m → IsValid (start_show d ts m)
unfolding IsValid
start_show-IsValid d ts m v =
    let (s, e, f) = start_show_value d ts m in subst IsValid (sym e) (v.0, v.1, owned s f)
  where
    owned : (s : Option ActiveShow) → Fresh ts m.active_session s → Owned s m.active_session
    owned none f = tt
    owned (some show) f = f.0

-- `#closeShow` changes neither the sessions nor the holder, and leaves no show.
pub Closed : TurnMachine → TurnMachine → Type 0
Closed m n = (n.sessions ≡ m.sessions) × (n.active_session ≡ m.active_session) × (n.show ≡ none)

pub close_show-Closed : (d : Deps) (ts : ℕ) (m : TurnMachine) → Closed m (close_show d ts m)
unfolding Closed
close_show-Closed d ts m = elim (close_show-cases d ts m) [
  | inl (no_show, e) ↦ subst (Closed m) (sym e) (refl, refl, no_show)
  | inr (show, _, e) ↦ subst (Closed m) (sym e) (refl, refl, refl)
]

pub close_show-IsValid :
    (d : Deps) (ts : ℕ) (m : TurnMachine) → IsValid m → IsValid (close_show d ts m)
unfolding IsValid Closed
close_show-IsValid d ts m v =
    let (sessions, active, show) = close_show-Closed d ts m in
    rw (sessions, active, show) (v.0, v.1, tt)

-- The mutex passes on once a show is closed.
abbrev pub handed_on : TurnMachine → TurnMachine
handed_on m = record m { active_session = next_mutex_holder m.sessions }

pub handed_on-IsValid :
    (d : Deps) (ts : ℕ) (m : TurnMachine)
    → Distinct m.sessions
    → IsValid (handed_on (close_show d ts m))
unfolding IsValid Closed
handed_on-IsValid d ts m h =
    let (sessions, active, show) = close_show-Closed d ts m in
    rw (sessions, show) (h, next_mutex_holder-Held m.sessions h, tt)

-- A session that falls idle and is not the holder leaves the mutex as it is.
Held-set_idle :
    (k : String) (st : SessionState) (a : Option String) (m : Map SessionState)
    → Held a m
    → (elim a [ none ↦ false | some other ↦ same other k ]) ≡ false
    → is_idle st.phase ≡ true
    → Held a (set k st m)
Held-set_idle k st none m held other quiet = λ j.
    in_turn-set j k st m
    ∙ rw quiet (elim (Bool-cases (same k j)) [ inl e ↦ rw e refl | inr e ↦ rw e (held j) ])
Held-set_idle k st (some j) m held other quiet =
    in_turn-set j k st m ∙ rw (same_comm k j) (rw other held)

-- A session that is in its turn, before and after, leaves the mutex as it is.
pub Held-set_turn :
    (k : String) (st : SessionState) (a : Option String) (m : Map SessionState)
    → Held a m
    → in_turn k m ≡ true
    → is_idle st.phase ≡ false
    → Held a (set k st m)
Held-set_turn k st none m held there busy =
    let idle_there : in_turn k m ≡ false = held k in absurd_turn idle_there
  where
    absurd_turn : in_turn k m ≡ false → (j : String) → in_turn j (set k st m) ≡ false
    absurd_turn e = cc
Held-set_turn k st (some j) m held there busy =
    in_turn-set j k st m
    ∙ rw busy (elim (Bool-cases (same k j)) [ inl e ↦ rw e refl | inr e ↦ rw e held ])

expire_one-IsValid :
    (d : Deps) (ts : ℕ) (sid : String) (st : SessionState) (m : TurnMachine)
    → IsValid m
    → IsValid (expire_one d ts sid st m)
unfolding IsValid expire_one
expire_one-IsValid d ts sid st m v =
    let cooled = is_cooldown st.phase && leb st.cooldown_until ts in
    let abandoned = is_showing st.phase && leb (st.active_at + d.max_quiet_turn_ms) ts in
    let quiet : SessionState = record st { phase = idle } in
    let distinct = set-Distinct sid quiet m.sessions v.0 in
    elim (Bool-cases (not (cooled || abandoned))) [
      | inl stays ↦ rw stays v
      | inr expires ↦ elim (Bool-cases (is_active sid m)) [
        | inl holder ↦ rw (expires, holder) (handed_on-IsValid d ts _ distinct)
        | inr other ↦
            rw (expires, other)
              (distinct, Held-set_idle sid quiet m.active_session m.sessions v.1 other refl, v.2)
      ]
    ]

expire_loop-IsValid :
    (d : Deps) (ts : ℕ) (rest : Map SessionState) (m : TurnMachine)
    → IsValid m
    → IsValid (expire_loop d ts rest m)
unfolding expire_loop
expire_loop-IsValid d ts [] m v = v
expire_loop-IsValid d ts ((sid, st) ∷ rest) m v =
    expire_loop-IsValid d ts rest _ (expire_one-IsValid d ts sid st m v)

pub expire_cooldowns-IsValid :
    (d : Deps) (ts : ℕ) (m : TurnMachine) → IsValid m → IsValid (expire_cooldowns d ts m)
unfolding expire_cooldowns
expire_cooldowns-IsValid d ts m v = expire_loop-IsValid d ts m.sessions m v

pub empty-IsValid : IsValid empty
unfolding IsValid get
empty-IsValid = (tt, λ sid. refl, tt)
