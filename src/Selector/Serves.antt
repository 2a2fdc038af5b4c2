-- ===== src/Selector/Serves.antt =====
-- Whether `select` returns an ad, and what it returns after `returnSlots`.
use dwell.Base.{
  ◌/◌, ◌≤◌, false, List, [], ◌∷◌, Option, none, some, Result, ok, ◌>>=◌, ◌≡◌, refl, sym, subst, ap,
  ◌∙◌, inl, inr, All, In, Bool-cases, or_else, String, >>=-eq-ok, arith,
}
use dwell.Base.Int.{ℤ, pos, ◌≤ℤ◌, pos_part, neg_part, ltb_ℤ, ◌+ℤ◌, int_laws}
use dwell.Thrown.{Thrown}
use dwell.Money.{max_stroops, stroops, rate_from_cpm}
use dwell.Money.Checked.{stroops_ok, add_ok}
use dwell.Selector.{
  Campaign, AdSelection, Deps, Selector, min_bid_cpm, bid_increment_cpm, clearing_price,
  spendable_for, remember, tests, affords, eligible, next_in_tour, set_tour, select_chosen,
  select_found, select_among, select, return_slots, rival_of, second_price, max_ℤ, min_ℤ,
}
use dwell.Selector.Filters.{Passes, eligible-All}
use dwell.Selector.Rivals.{rival_of-some}
use dwell.Selector.Turn.{next_in_tour_lem, return_slots-next}
use dwell.Selector.Choice.{
  all_of, rate_from_cpm-eq-ok, rate_monotone, selection, select_chosen-some,
}

-- A bid that is a price and leaves room for the increment.
abbrev pub HasRoom : Campaign → Type 0
HasRoom c = c.bid_cpm +ℤ bid_increment_cpm ≤ℤ pos max_stroops

-- An amount from zero up to the highest.
abbrev pub IsPrice : ℤ → Type 0
IsPrice v = (neg_part v ≡ 0) × (pos_part v ≤ max_stroops)

rate_of_price : (v : ℤ) → IsPrice v → (r : ℤ) × (rate_from_cpm v ≡ ok r)
unfolding rate_from_cpm stroops
rate_of_price v h = (pos (pos_part v / 1000), ground (arith, h.0, h.1))

Passes-affords :
    (d : Deps) (p : String) (c : Campaign)
    → Passes (tests d p) c
    → (spendable rate : ℤ) × (spendable_for d c ≡ ok spendable)
      × (rate_from_cpm c.bid_cpm ≡ ok rate)
      × (rate ≤ℤ spendable)
unfolding tests affords
Passes-affords d p c (_, (_, (_, (_, (_, (afford, _)))))) =
    let (spendable, s, t) = >>=-eq-ok (spendable_for d c) _ afford in
    let (rate, r, u) = >>=-eq-ok (rate_from_cpm c.bid_cpm) _ t in
    (spendable, rate, s, r, ground (arith, u))

Passes-IsPrice :
    (d : Deps) (p : String) (c : Campaign) → Passes (tests d p) c → HasRoom c → IsPrice c.bid_cpm
Passes-IsPrice d p c h room =
    let (spendable, rate, s, r, _) = Passes-affords d p c h in
    let (_, positive) = rate_from_cpm-eq-ok c.bid_cpm r in
    (positive, omega (int_laws, room, positive))

abbrev GoodBids : Deps → String → List Campaign → Type 0
GoodBids d p es = All (λ c. Passes (tests d p) c × HasRoom c) es

raised :
    (bid : ℤ)
    → neg_part bid ≡ 0
    → bid +ℤ bid_increment_cpm ≤ℤ pos max_stroops
    → IsPrice (bid +ℤ bid_increment_cpm)
unfolding ◌+ℤ◌
raised bid h k = (ground arith, ground arith)

second_total :
    (d : Deps) (p : String) (chosen : Campaign) (es : List Campaign) (reserve : ℤ)
    (rival : Option Campaign)
    → GoodBids d p es
    → IsPrice reserve
    → rival_of chosen es ≡ rival
    → (second : ℤ) × (second_price rival reserve ≡ ok second) × IsPrice second
second_total d p chosen es reserve none good priced e = (reserve, refl, priced)
second_total d p chosen es reserve (some r) good priced e =
    let (member, _, _) = rival_of-some chosen es e in
    let (passes, room) = all_of (λ c. Passes (tests d p) c × HasRoom c) es member good in
    let (positive, _) = Passes-IsPrice d p r passes room in
    let sum_room = raised r.bid_cpm positive room in
    (
      r.bid_cpm +ℤ bid_increment_cpm,
      add_ok _ _ (omega (int_laws, sum_room.0, sum_room.1)),
      sum_room,
    )

between_IsPrice :
    (second reserve bid : ℤ)
    → IsPrice second
    → IsPrice reserve
    → IsPrice bid
    → IsPrice (min_ℤ (max_ℤ second reserve) bid) × (min_ℤ (max_ℤ second reserve) bid ≤ℤ bid)
between_IsPrice second reserve bid h k l = elim (Bool-cases (ltb_ℤ reserve second)) [
  | inl e ↦ rw e (elim (Bool-cases (ltb_ℤ second bid)) [
    | inl f ↦ rw f (h, ground (arith, f))
    | inr f ↦ rw f (l, omega arith)
  ])
  | inr e ↦ rw e (elim (Bool-cases (ltb_ℤ reserve bid)) [
    | inl f ↦ rw f (k, ground (arith, f))
    | inr f ↦ rw f (l, omega arith)
  ])
]

clearing_price-IsPrice :
    (d : Deps) (p : String) (chosen : Campaign) (es : List Campaign) (pool : Option String)
    → GoodBids d p es
    → IsPrice (or_else d.reserve_cpm min_bid_cpm)
    → IsPrice chosen.bid_cpm
    → (price : ℤ) × (clearing_price d.reserve_cpm chosen pool es ≡ ok price)
      × IsPrice price
      × (price ≤ℤ chosen.bid_cpm)
unfolding clearing_price
clearing_price-IsPrice d p chosen es (some pool) good reserved own =
    (chosen.bid_cpm, refl, own, omega arith)
clearing_price-IsPrice d p chosen es none good reserved own =
    let reserve = or_else d.reserve_cpm min_bid_cpm in
    let (second, a, b) =
      second_total d p chosen es reserve (rival_of chosen es) good reserved refl in
    let (priced, below) = between_IsPrice second reserve chosen.bid_cpm b reserved own in
    (
      min_ℤ (max_ℤ second reserve) chosen.bid_cpm,
      rw a (stroops_ok _ (omega (arith, priced.0, priced.1))),
      priced,
      below,
    )

chosen_total :
    (d : Deps) (s : Selector) (p : String) (es : List Campaign) (chosen : Campaign)
    → GoodBids d p es
    → IsPrice (or_else d.reserve_cpm min_bid_cpm)
    → In chosen es
    → (sel : AdSelection) × (s' : Selector) × (select_chosen d s p es chosen ≡ ok (some sel, s'))
unfolding select_chosen
chosen_total d s p es chosen good reserved member =
    let (passes, room) = all_of (λ c. Passes (tests d p) c × HasRoom c) es member good in
    let (spendable, bid_rate, a, b, le) = Passes-affords d p chosen passes in
    let (price, c, priced, below) =
      clearing_price-IsPrice d p chosen es chosen.pool_id good reserved
        (Passes-IsPrice d p chosen passes room) in
    let (rate, e) = rate_of_price price priced in
    let cheaper : rate ≤ℤ bid_rate = rate_monotone _ _ e b below in
    let enough : ltb_ℤ spendable rate ≡ false = ground (arith, cheaper, le) in
    (selection d chosen price rate, remember s p chosen.id, rw (c, e, a, enough) refl)

both :
    (d : Deps) (p : String) (es : List Campaign)
    → All (λ c. In c d.campaigns × Passes (tests d p) c) es
    → All HasRoom es
    → GoodBids d p es
both d p [] h k = tt
both d p (c ∷ cs) h k = ((h.0.1, k.0), both d p cs h.1 k.1)

-- Where a campaign is eligible, the reserve is a price, and the eligible bids leave room for the
-- increment, `select` returns an ad: the last guard never silences the network.
pub select_total :
    (d : Deps) (s : Selector) (publisher_id : String) (c : Campaign) (cs : List Campaign)
    → eligible d publisher_id ≡ ok (c ∷ cs)
    → All HasRoom (c ∷ cs)
    → IsPrice (or_else d.reserve_cpm min_bid_cpm)
    → (sel : AdSelection) × (s' : Selector) × (select d s publisher_id ≡ ok (some sel, s'))
unfolding select select_among select_found
select_total d s p c cs e room reserved =
    let (chosen, rest, next, _, member, _) = next_in_tour_lem d s p c cs in
    let passing = both d p (c ∷ cs) (eligible-All d p e) room in
    let (sel, s', done) =
      chosen_total d (set_tour s p rest) p (c ∷ cs) chosen passing reserved member in
    (sel, s', rw e (rw next done))

-- The selection does not depend on the selector's state.
remade :
    (d : Deps) (s t : Selector) (p : String) (es : List Campaign) (chosen : Campaign)
    {sel : AdSelection} {s' : Selector}
    → select_chosen d s p es chosen ≡ ok (some sel, s')
    → (s'' : Selector) × (select_chosen d t p es chosen ≡ ok (some sel, s''))
unfolding select_chosen
remade d s t p es chosen {sel} {s'} h =
    let (price, a, h1) = >>=-eq-ok (clearing_price d.reserve_cpm chosen chosen.pool_id es) _ h in
    let (rate, b, h2) = >>=-eq-ok (rate_from_cpm price) _ h1 in
    let (spendable, c, h3) = >>=-eq-ok (spendable_for d chosen) _ h2 in
    elim (Bool-cases (ltb_ℤ spendable rate)) [
      | inl e ↦ absurd (let k = rw e at h3 in cc)
      | inr e ↦
          let it : ◌≡◌ {A = Result Thrown (Option AdSelection × Selector)}
              (ok (some (selection d chosen price rate), remember s p chosen.id))
              (ok (some sel, s')) =
            rw e at h3 in
          let same_one : selection d chosen price rate ≡ sel = cc in
          (
            remember t p chosen.id,
            rw (a, b, c, e) (λ i. ok (some (same_one i), remember t p chosen.id)),
          )
    ]

among_again :
    (d : Deps) (s : Selector) (p : String) (es : List Campaign) {sel : AdSelection} {s' : Selector}
    → select_among d s p es ≡ ok (some sel, s')
    → (s'' : Selector) × (select_among d (return_slots s' p (sel.campaign.id ∷ [])) p es
        ≡ ok (some sel, s''))
unfolding select_among select_found select_chosen
among_again d s p [] {sel} h = absurd (
    let k : ◌≡◌ {A = Result Thrown (Option AdSelection × Selector)} (ok (none, s))
        (ok (some sel, _)) =
      h in
    cc)
among_again d s p (c ∷ cs) {sel} {s'} h =
    let (chosen, rest, next, _, _, known) = next_in_tour_lem d s p c cs in
    let made : select_chosen d (set_tour s p rest) p (c ∷ cs) chosen ≡ ok (some sel, s') =
      rw next at h in
    let named : sel.campaign ≡ chosen =
      ap (λ (x : AdSelection). x.campaign) (select_chosen-some d _ p (c ∷ cs) chosen made).2 in
    let (t, back) = return_slots-next d s' p c cs chosen known in
    let (s'', again) = remade d (set_tour s p rest) t p (c ∷ cs) chosen made in
    (
      s'',
      subst
          (λ (x : Campaign).
            select_found d (return_slots s' p (x.id ∷ [])) p (c ∷ cs)
              (next_in_tour d (return_slots s' p (x.id ∷ [])) p (c ∷ cs))
            ≡ ok (some sel, s''))
          (sym named) (rw back again),
    )

-- A selection whose slot is given back at once is made again by the next call of `select`, with the
-- same price and rate, where the injected functions answer as they did.
pub select_again :
    (d : Deps) (s : Selector) (publisher_id : String) {sel : AdSelection} {s' : Selector}
    → select d s publisher_id ≡ ok (some sel, s')
    → (s'' : Selector) × (select d
          (return_slots s' publisher_id (sel.campaign.id ∷ []))
          publisher_id
        ≡ ok (some sel, s''))
unfolding select
select_again d s p {sel} {s'} h =
    let (es, a, b) = >>=-eq-ok (eligible d p) _ h in
    let (s'', it) = among_again d s p es b in
    (
      s'',
      ap (λ found. found >>= select_among d (return_slots s' p (sel.campaign.id ∷ [])) p) a ∙ it,
    )
