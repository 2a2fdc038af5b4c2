-- ===== src/Selector/Tours.antt =====
-- The stage tour of a publisher: `stageSlots`, `#buildTour` and `#nextInTour`.
use dwell.Base.{
  ℕ, zero, suc, ◌≤◌, Bool, true, String, none, some, List, [], ◌∷◌, ◌++◌, ◌≡◌, refl, sym, subst, ap,
  ◌∙◌, ◌⊎◌, inl, inr, is_some, All, All-append, In, Bool-cases, same, same_iff, same_refl, arith,
}
use dwell.Base.Int.{ℤ}
use dwell.Base.Map.{Map, get, set, get-set}
use dwell.Base.Sort.{insert_by, sort_by, sort-All}
use dwell.Selector.{
  Campaign, stage_slots, fill, all_slots, tour_before, last_bid, build_tour, index_from,
}

-- Every campaign has at least one slot of a tour, and at most four.
pub stage_slots_bounds :
    (bid lowest_bid : ℤ) → (1 ≤ stage_slots bid lowest_bid) × (stage_slots bid lowest_bid ≤ 4)
unfolding stage_slots
stage_slots_bounds bid lowest_bid = (omega arith, omega arith)

-- What the index of the eligible campaigns holds.
index_from-In :
    (m : Map Campaign) (cs : List Campaign) (id : String) {c : Campaign}
    → get id (index_from m cs) ≡ some c
    → (get id m ≡ some c) ⊎ (In c cs × (c.id ≡ id))
unfolding index_from
index_from-In m [] id h = inl h
index_from-In m (x ∷ xs) id {c} h = elim (index_from-In (set x.id x m) xs id h) [
  | inr (there, named) ↦ inr (inr there, named)
  | inl found ↦ elim (Bool-cases (same x.id id)) [
    | inl e ↦
        let it : x ≡ c =
          let known = sym (get-set id x.id x m) ∙ found in ground (arith, rw e at known) in
        inr (inl it, sym (ap (λ (y : Campaign). y.id) it) ∙ (same_iff x.id id).0 e)
    | inr e ↦ let known = sym (get-set id x.id x m) ∙ found in inl (rw e at known)
  ]
]

pub index_of-In :
    (cs : List Campaign) (id : String) {c : Campaign}
    → get id (index_from [] cs) ≡ some c
    → In c cs × (c.id ≡ id)
unfolding get
index_of-In cs id h = elim (index_from-In [] cs id h) [
  | inl nothing ↦ absurd (let z : none ≡ some _ = nothing in cc)
  | inr it ↦ it
]

index_from_keeps :
    (m : Map Campaign) (cs : List Campaign) (id : String)
    → is_some (get id m) ≡ true
    → is_some (get id (index_from m cs)) ≡ true
unfolding index_from
index_from_keeps m [] id h = h
index_from_keeps m (x ∷ xs) id h = index_from_keeps (set x.id x m) xs id (
    ap is_some (get-set id x.id x m)
    ∙ elim (Bool-cases (same x.id id)) [ inl e ↦ rw e refl | inr e ↦ rw e h ])

pub index_from-has :
    (m : Map Campaign) (cs : List Campaign)
    → All (λ (c : Campaign). is_some (get c.id (index_from m cs)) ≡ true) cs
unfolding index_from
index_from-has m [] = tt
index_from-has m (x ∷ xs) = (
  index_from_keeps (set x.id x m) xs x.id
      (ap is_some (get-set x.id x.id x m) ∙ rw (same_refl x.id) refl),
  index_from-has (set x.id x m) xs,
)

module _ (P : String → Type 0) where
  fill-All : (n : ℕ) (id : String) → P id → All P (fill n id)
  fill-All zero id h = tt
  fill-All (suc n) id h = (h, fill-All n id h)

  all_slots-All :
      (lowest : ℤ) (cs : List Campaign)
      → All (λ (c : Campaign). P c.id) cs
      → All P (all_slots lowest cs)
  unfolding all_slots
  all_slots-All lowest [] h = tt
  all_slots-All lowest (c ∷ cs) h =
      All-append P (fill (stage_slots c.bid_cpm lowest) c.id) (all_slots lowest cs)
        (fill-All (stage_slots c.bid_cpm lowest) c.id h.0) (all_slots-All lowest cs h.1)

  pub build_tour-All :
      (tie : String → String → Bool) (recent : List String) (cs : List Campaign)
      → All (λ (c : Campaign). P c.id) cs
      → All P (build_tour tie recent cs)
  unfolding build_tour
  build_tour-All tie recent cs h =
      let ordered = sort_by (tour_before tie recent) cs in
      all_slots-All (last_bid ordered) ordered
        (sort-All (λ (c : Campaign). P c.id) (tour_before tie recent) cs h)

-- A list that has a first element.
abbrev pub HasFirst {ℓ} : {A : Type ℓ} → List A → Type ℓ
HasFirst {A} xs = (x : A) × (rest : List A) × (xs ≡ x ∷ rest)

pub insert_by-HasFirst :
    (before : Campaign → Campaign → Bool) (c : Campaign) (cs : List Campaign)
    → HasFirst (insert_by before c cs)
unfolding insert_by
insert_by-HasFirst before c [] = (c, [], refl)
insert_by-HasFirst before c (d ∷ cs) = elim (Bool-cases (before d c)) [
  | inl e ↦ (d, insert_by before c cs, rw e refl)
  | inr e ↦ (c, d ∷ cs, rw e refl)
]

fill-HasFirst : (n : ℕ) (id : String) (rest : List String) → 1 ≤ n → HasFirst (fill n id ++ rest)
fill-HasFirst zero id rest h = absurd (omega (arith, h))
fill-HasFirst (suc n) id rest h = (id, fill n id ++ rest, refl)

all_slots-HasFirst :
    (lowest : ℤ) (c : Campaign) (cs : List Campaign) → HasFirst (all_slots lowest (c ∷ cs))
unfolding all_slots
all_slots-HasFirst lowest c cs =
    fill-HasFirst (stage_slots c.bid_cpm lowest) c.id (all_slots lowest cs)
      (stage_slots_bounds c.bid_cpm lowest).0

pub build_tour-HasFirst :
    (tie : String → String → Bool) (recent : List String) (c : Campaign) (cs : List Campaign)
    → HasFirst (build_tour tie recent (c ∷ cs))
unfolding build_tour sort_by
build_tour-HasFirst tie recent c cs =
    let (x, rest, e) =
      insert_by-HasFirst (tour_before tie recent) c (sort_by (tour_before tie recent) cs) in
    subst (λ (l : List Campaign). HasFirst (all_slots (last_bid l) l)) (sym e)
      (all_slots-HasFirst (last_bid (x ∷ rest)) x rest)
