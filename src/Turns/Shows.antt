-- ===== src/Turns/Shows.antt =====
-- What starting and closing a show does to a machine.
use dwell.Base.{
  ℕ, suc, String, ◌≡◌, refl, sym, Option, none, some, [], ◌∷◌, ◌++◌, ◌⊎◌, inl, inr, Option-cases,
  subst,
}
use dwell.Turns.{ActiveShow, AdPayload, Deps, TurnMachine, completion, start_show, close_show}

-- A show that starts at a time, for the holder of the mutex.
abbrev pub Fresh : ℕ → Option String → Option ActiveShow → Type 0
Fresh ts active none = Unit
Fresh ts active (some show) =
    (active ≡ some show.session_id) × (show.started_at ≡ ts) × (show.last_seen_at ≡ ts)

module _ (d : Deps) (ts : ℕ) (m : TurnMachine) where
  pub start_show_value :
      (s : Option ActiveShow) × (start_show d ts m ≡ record m { show = s; asked = suc m.asked })
      × Fresh ts m.active_session s
  unfolding start_show
  start_show_value = started (d.next_ad m.asked) m.active_session
    where
      started :
          (ad : Option AdPayload) (a : Option String)
          → (s : Option ActiveShow) × ((elim ad [
            | none ↦ record m { show = none; asked = suc m.asked }
            | some ad ↦ elim a [
              | none ↦ record m { show = none; asked = suc m.asked }
              | some sid ↦ record m {
                show =
                    some (record { ad = ad; started_at = ts; session_id = sid; last_seen_at = ts });
                asked = suc m.asked;
              }
            ]
          ])
              ≡ record m { show = s; asked = suc m.asked })
            × Fresh ts a s
      started none a = (none, refl, tt)
      started (some ad) none = (none, refl, tt)
      started (some ad) (some sid) = (_, refl, (refl, refl, refl))

  -- The machine once a show is closed.
  abbrev pub closed : ActiveShow → TurnMachine
  closed show = record m {
    show = none;
    completed = m.completed ++ (completion d ts (d.impression_id m.issued) show ∷ []);
    issued = suc m.issued;
  }

  pub close_show-cases :
      ((m.show ≡ none) × (close_show d ts m ≡ m))
      ⊎ ((show : ActiveShow) × (m.show ≡ some show) × (close_show d ts m ≡ closed show))
  unfolding close_show
  close_show-cases = elim (Option-cases m.show) [
    | inl e ↦ inl (e, subst (λ s. (elim s [ none ↦ m | some show ↦ closed show ]) ≡ m) (sym e) refl)
    | inr (show, e) ↦ inr (
      show,
      e,
      subst (λ s. (elim s [ none ↦ m | some other ↦ closed other ]) ≡ closed show) (sym e) refl,
    )
  ]
