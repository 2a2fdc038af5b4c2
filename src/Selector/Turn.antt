-- ===== src/Selector/Turn.antt =====
-- `#nextInTour`: the choice of one slot, and `returnSlots`, which gives it back.
use dwell.Base.{
  Bool, true, String, some, List, [], ◌∷◌, ◌≡◌, refl, sym, subst, ap, ◌∙◌, inl, inr, keep, is_some,
  All, In, Option-cases, same_refl, arith,
}
use dwell.Base.Map.{get, set, get-set}
use dwell.Selector.{
  Campaign, Deps, Selector, build_tour, index_from, current_tour, tour_or_new, tour_of, set_tour,
  recent_of, next_in_tour, return_slots,
}
use dwell.Selector.Tours.{index_of-In, index_from-has, build_tour-All, build_tour-HasFirst}

kept-All : (test : String → Bool) (ids : List String) → All (λ id. test id ≡ true) (keep test ids)
kept-All test [] = tt
kept-All test (id ∷ ids) = ground (arith, kept-All test ids)

-- A tour that has a slot is taken from a campaign that is known.
tour_or_new-first :
    (test : String → Bool) (ids built : List String)
    → All (λ id. test id ≡ true) ids
    → All (λ id. test id ≡ true) built
    → (x : String) × (rest : List String) × (built ≡ x ∷ rest)
    → (x : String) × (rest : List String) × (tour_or_new ids built ≡ x ∷ rest) × (test x ≡ true)
tour_or_new-first test [] built h k (x, rest, e) =
    (x, rest, e, (subst (All (λ id. test id ≡ true)) e k).0)
tour_or_new-first test (id ∷ ids) built h k first = (id, ids, refl, h.0)

-- Among eligible campaigns the choice finds one of them, and takes the first slot off the tour.
pub next_in_tour_lem :
    (d : Deps) (s : Selector) (p : String) (c : Campaign) (cs : List Campaign)
    → (chosen : Campaign) × (rest : List String) × (next_in_tour d s p (c ∷ cs)
        ≡ (some chosen, set_tour s p rest))
      × (current_tour d s p (c ∷ cs) ≡ chosen.id ∷ rest)
      × In chosen (c ∷ cs)
      × (get chosen.id (index_from [] (c ∷ cs)) ≡ some chosen)
unfolding next_in_tour current_tour
next_in_tour_lem d s p c cs =
    let by_id = index_from [] (c ∷ cs) in
    let known = λ (id : String). is_some (get id by_id) in
    let built = build_tour d.tie (recent_of s p) (c ∷ cs) in
    let (x, rest, e, there) =
      tour_or_new-first known (keep known (tour_of s p)) built (kept-All known (tour_of s p))
        (build_tour-All (λ id. known id ≡ true) d.tie (recent_of s p) (c ∷ cs)
          (index_from-has [] (c ∷ cs)))
        (build_tour-HasFirst d.tie (recent_of s p) c cs) in
    elim (Option-cases (get x by_id)) [
      | inl missing ↦ absurd (cc)
      | inr (chosen, found) ↦
          let (member, named) = index_of-In (c ∷ cs) x found in
          (
            chosen,
            rest,
            rw e (rw found refl),
            e ∙ ap (λ i. i ∷ rest) (sym named),
            member,
            subst (λ i. get i by_id ≡ some chosen) (sym named) found,
          )
    ]

tour_of-set_tour :
    (s : Selector) (p : String) (tour : List String) → tour_of (set_tour s p tour) p ≡ tour
unfolding tour_of set_tour
tour_of-set_tour s p tour =
    let there : get p (set p tour s.tour_by_publisher) ≡ some tour =
      get-set p p tour s.tour_by_publisher ∙ rw (same_refl p) refl in
    rw there refl

-- A known slot at the head of the tour is the next one.
pub next_in_tour-first :
    (d : Deps) (s : Selector) (p : String) (c : Campaign) (cs : List Campaign) (chosen : Campaign)
    (rest : List String)
    → get chosen.id (index_from [] (c ∷ cs)) ≡ some chosen
    → tour_of s p ≡ chosen.id ∷ rest
    → (s' : Selector) × (next_in_tour d s p (c ∷ cs) ≡ (some chosen, s'))
unfolding next_in_tour current_tour
next_in_tour-first d s p c cs chosen rest found tour =
    let known = λ (id : String). is_some (get id (index_from [] (c ∷ cs))) in
    let built = build_tour d.tie (recent_of s p) (c ∷ cs) in
    let kept : keep known (chosen.id ∷ rest) ≡ chosen.id ∷ keep known rest = rw found refl in
    (set_tour s p (keep known rest), rw (tour, kept) (rw found refl))

-- A slot that is given back is the next one again.
pub return_slots-next :
    (d : Deps) (s : Selector) (p : String) (c : Campaign) (cs : List Campaign) (chosen : Campaign)
    → get chosen.id (index_from [] (c ∷ cs)) ≡ some chosen
    → (s' : Selector) × (next_in_tour d (return_slots s p (chosen.id ∷ [])) p (c ∷ cs)
        ≡ (some chosen, s'))
unfolding return_slots
return_slots-next d s p c cs chosen found =
    next_in_tour-first d (set_tour s p (chosen.id ∷ tour_of s p)) p c cs chosen (tour_of s p) found
      (tour_of-set_tour s p (chosen.id ∷ tour_of s p))
