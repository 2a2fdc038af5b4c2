-- ===== src/Selector/Choice.antt =====
-- `select` as a whole: what it serves.
use dwell.Base.{
  ◌+◌, ◌/◌, List, [], ◌∷◌, Option, none, some, Result, ok, ◌≡◌, sym, subst, ap, ◌∙◌, inl, inr, All,
  In, Bool-cases, or_else, String, >>=-eq-ok, arith,
}
use dwell.Base.Int.{ℤ, pos, ◌≤ℤ◌, pos_part, neg_part, ltb_ℤ, parts_of_eq}
use dwell.Thrown.{Thrown}
use dwell.Money.{stroops, rate_from_cpm}
use dwell.Money.Checked.{stroops-eq-ok}
use dwell.Selector.{
  Campaign, AdSelection, Deps, Selector, min_bid_cpm, clearing_price, spendable_for, remember,
  tests, eligible, set_tour, select_chosen, select_found, select_among, select,
  default_nonce_ttl_ms,
}
use dwell.Selector.Filters.{Passes, eligible-All}
use dwell.Selector.Turn.{next_in_tour_lem}
use dwell.Selector.Prices.{IsSecondPrice, clearing_price-IsSecondPrice}
use dwell.Selector.Served.{Servable, Passes-Servable}

-- A price that is returned is a thousandth of a bid that is not below zero.
pub rate_from_cpm-eq-ok :
    (bid : ℤ) {rate : ℤ}
    → rate_from_cpm bid ≡ ok rate
    → (rate ≡ pos (pos_part bid / 1000)) × (neg_part bid ≡ 0)
unfolding rate_from_cpm
rate_from_cpm-eq-ok bid {rate} h = elim (Bool-cases (ltb_ℤ bid (pos 0))) [
  | inl e ↦ absurd (let k = rw e at h in cc)
  | inr e ↦
      let k : stroops (pos (pos_part bid / 1000)) ≡ ok rate = rw e at h in
      ((stroops-eq-ok _ k).0, ground (arith, e))
]

pub rate_monotone :
    (low high : ℤ) {a b : ℤ}
    → rate_from_cpm low ≡ ok a
    → rate_from_cpm high ≡ ok b
    → low ≤ℤ high
    → a ≤ℤ b
rate_monotone low high {a} {b} h k le =
    let (p, q) = rate_from_cpm-eq-ok low h in
    let (r, s) = rate_from_cpm-eq-ok high k in
    omega (arith, parts_of_eq _ _ p, parts_of_eq _ _ r, q, s, le)

-- The price of a selection: the bid in a pool, else a second price.
abbrev pub PricedAs : Option ℤ → Campaign → List Campaign → ℤ → Option String → Type 0
PricedAs reserve_cpm chosen es price none =
    IsSecondPrice (or_else reserve_cpm min_bid_cpm) chosen es price
PricedAs reserve_cpm chosen es price (some pool) = price ≡ chosen.bid_cpm

priced :
    (reserve_cpm : Option ℤ) (chosen : Campaign) (es : List Campaign) (pool : Option String)
    {price : ℤ}
    → clearing_price reserve_cpm chosen pool es ≡ ok price
    → PricedAs reserve_cpm chosen es price pool × (price ≤ℤ chosen.bid_cpm)
unfolding clearing_price
priced reserve_cpm chosen es none {price} h =
    let it = clearing_price-IsSecondPrice reserve_cpm chosen es h in (it, it.below_bid)
priced reserve_cpm chosen es (some pool) {price} h =
    let it : chosen.bid_cpm ≡ price = ground arith in (sym it, omega (arith, parts_of_eq _ _ it))

-- The selection of a campaign at a price.
abbrev pub selection : Deps → Campaign → ℤ → ℤ → AdSelection
selection d chosen price rate = record {
  campaign = chosen;
  nonce = d.random_hex;
  nonce_expires_at = d.now + or_else d.nonce_ttl_ms default_nonce_ttl_ms;
  rate = rate;
  clearing_cpm = price;
}

pub select_chosen-some :
    (d : Deps) (s : Selector) (p : String) (es : List Campaign) (chosen : Campaign)
    {sel : AdSelection} {s' : Selector}
    → select_chosen d s p es chosen ≡ ok (some sel, s')
    → (clearing_price d.reserve_cpm chosen chosen.pool_id es ≡ ok sel.clearing_cpm)
      × (rate_from_cpm sel.clearing_cpm ≡ ok sel.rate)
      × (sel ≡ selection d chosen sel.clearing_cpm sel.rate)
      × (s' ≡ remember s p chosen.id)
unfolding select_chosen
select_chosen-some d s p es chosen {sel} {s'} h =
    let (price, a, h1) = >>=-eq-ok (clearing_price d.reserve_cpm chosen chosen.pool_id es) _ h in
    let (rate, b, h2) = >>=-eq-ok (rate_from_cpm price) _ h1 in
    let (spendable, c, h3) = >>=-eq-ok (spendable_for d chosen) _ h2 in
    elim (Bool-cases (ltb_ℤ spendable rate)) [
      | inl e ↦ absurd (let k = rw e at h3 in cc)
      | inr e ↦
          let k : ◌≡◌ {A = Result Thrown (Option AdSelection × Selector)}
              (ok (some (selection d chosen price rate), remember s p chosen.id))
              (ok (some sel, s')) =
            rw e at h3 in
          let it : selection d chosen price rate ≡ sel = cc in
          let state : remember s p chosen.id ≡ s' = cc in
          let at_price : price ≡ sel.clearing_cpm = ap (λ (x : AdSelection). x.clearing_cpm) it in
          let at_rate : rate ≡ sel.rate = ap (λ (x : AdSelection). x.rate) it in
          (cc, cc, sym it ∙ (λ i. selection d chosen (at_price i) (at_rate i)), sym state)
    ]

-- What a selection tells: of the eligible campaigns `es` one is chosen, which can be served at the
-- rate of its bid, the price is right and costs no more, and the nonce is new and has its time.
pub record IsServed (d : Deps) (publisher_id : String) (es : List Campaign) (sel : AdSelection)
    : Type 0 where
  pub bid_rate : ℤ
  pub offered : In sel.campaign d.campaigns
  pub servable : Servable d publisher_id sel.campaign bid_rate
  pub price : PricedAs d.reserve_cpm sel.campaign es sel.clearing_cpm sel.campaign.pool_id
  pub rate_of_price : rate_from_cpm sel.clearing_cpm ≡ ok sel.rate
  pub rate_below : sel.rate ≤ℤ bid_rate
  pub nonce_drawn : sel.nonce ≡ d.random_hex
  pub expires : sel.nonce_expires_at ≡ d.now + or_else d.nonce_ttl_ms default_nonce_ttl_ms

pub all_of : (P : Campaign → Type 0) (cs : List Campaign) {c : Campaign} → In c cs → All P cs → P c
all_of P [] h k = absurd h
all_of P (x ∷ xs) (inl e) k = subst P e k.0
all_of P (x ∷ xs) (inr h) k = all_of P xs h k.1

chosen-IsServed :
    (d : Deps) (s : Selector) (p : String) (es : List Campaign) (chosen : Campaign)
    {sel : AdSelection} {s' : Selector}
    → In chosen d.campaigns × Passes (tests d p) chosen
    → select_chosen d s p es chosen ≡ ok (some sel, s')
    → IsServed d p es sel
chosen-IsServed d s p es chosen {sel} {s'} (offered, passes) h =
    let (a, b, it, _) = select_chosen-some d s p es chosen h in
    let (bid_rate, servable) = Passes-Servable d p chosen passes in
    let (price, below) = priced d.reserve_cpm chosen es chosen.pool_id a in
    let named : chosen ≡ sel.campaign = sym (ap (λ (x : AdSelection). x.campaign) it) in
    record {
      bid_rate = bid_rate;
      offered = subst (λ c. In c d.campaigns) named offered;
      servable = subst (λ c. Servable d p c bid_rate) named servable;
      price =
          subst (λ (c : Campaign). PricedAs d.reserve_cpm c es sel.clearing_cpm c.pool_id) named
            price;
      rate_of_price = b;
      rate_below = rate_monotone _ _ b servable.rate_of_bid below;
      nonce_drawn = ap (λ (x : AdSelection). x.nonce) it;
      expires = ap (λ (x : AdSelection). x.nonce_expires_at) it;
    }

among-IsServed :
    (d : Deps) (s : Selector) (p : String) (es : List Campaign) {sel : AdSelection} {s' : Selector}
    → All (λ c. In c d.campaigns × Passes (tests d p) c) es
    → select_among d s p es ≡ ok (some sel, s')
    → IsServed d p es sel
unfolding select_among select_found
among-IsServed d s p [] h e = absurd (
    let k : ◌≡◌ {A = Result Thrown (Option AdSelection × Selector)} (ok (none, s))
        (ok (some _, _)) =
      e in
    cc)
among-IsServed d s p (c ∷ cs) {sel} {s'} h e =
    let (chosen, rest, next, _, member, _) = next_in_tour_lem d s p c cs in
    chosen-IsServed d (set_tour s p rest) p (c ∷ cs) chosen
      (all_of (λ c. In c d.campaigns × Passes (tests d p) c) (c ∷ cs) member h) (rw next at e)

-- A campaign that `select` serves is one of those offered that is active, of the publisher's pool
-- or of none alike, not the publisher's own submission, allowed by the pool, sold at a rate above
-- zero that the advertiser's balance covers (less what is set aside for pools, where it is in none),
-- within its daily budget and its blocks; the price is its bid in a pool and else a second price
-- among the eligible campaigns, and the rate is at most that of the bid.
pub select-IsServed :
    (d : Deps) (s : Selector) (publisher_id : String) {sel : AdSelection} {s' : Selector}
    → select d s publisher_id ≡ ok (some sel, s')
    → (es : List Campaign) × (eligible d publisher_id ≡ ok es) × IsServed d publisher_id es sel
unfolding select
select-IsServed d s publisher_id h =
    let (es, a, b) = >>=-eq-ok (eligible d publisher_id) _ h in
    (es, a, among-IsServed d s publisher_id es (eligible-All d publisher_id a) b)
