-- ===== src/Pipeline/Reservations.antt =====
-- What serving an ad reserves, and the balance of its advertiser.
use dwell.Base.{
  ℕ, ◌≤◌, String, Bool, true, false, not, Option, none, some, [], ◌∷◌, Result, ok, ◌>>=◌, >>=-eq-ok,
  Result-cases, keep, same, same_refl, if◌then◌else◌, ◌≡◌, refl, sym, subst, ap, ◌∙◌, inl, inr,
  Bool-cases, arith,
}
use dwell.Base.Int.{ℤ, pos, neg_part, ◌+ℤ◌, ◌-ℤ◌, ◌≤ℤ◌, ◌<ℤ◌, ltb_ℤ, int_laws, parts_of_eq}
use dwell.Base.Map.{Map, get, set, has, values}
use dwell.Thrown.{Thrown}
use dwell.Ledger.Accounts.{advertiser, owned_account}
use dwell.Ledger.Store.{balance}
use dwell.Ledger.Operations.{Ledger}
use dwell.Ingest.{DeliveredAd}
use dwell.Selector.{AdSelection, Selector, select}
use dwell.Selector.Choice.{select-IsServed}
use dwell.Selector.Served.{Affords}
use dwell.Pipeline.{Options, Pipeline, reserves, spendable}
use dwell.Pipeline.Serving.{
  selector_deps, return_expired_slots, is_stale, gc_deliveries, delivery_of, deliver,
  serve_selected, serve_ad,
}
use dwell.Pipeline.Sums.{sum_where, reserved, spendable_lem}

module _ (test : DeliveredAd → Bool) (amount : DeliveredAd → ℤ) where
  sum_set :
      (k : String) (d : DeliveredAd) (m : Map DeliveredAd)
      → get k m ≡ none
      → sum_where test amount (values (set k d m))
        ≡ sum_where test amount (values m) +ℤ (if test d then amount d else pos 0)
  unfolding sum_where set get values
  sum_set k d [] h = elim (Bool-cases (test d)) [
    | inl e ↦ rw e (omega int_laws)
    | inr e ↦ rw e (omega int_laws)
  ]
  sum_set k d ((j, w) ∷ m) h = elim (Bool-cases (same j k)) [
    | inl e ↦ absurd (let z = rw e at h in cc)
    | inr e ↦
        let ih = sum_set k d m (rw e at h) in
        rw e (elim (Bool-cases (test w)) [
          | inl f ↦ rw f (omega (int_laws, parts_of_eq _ _ ih))
          | inr f ↦ rw f ih
        ])
  ]

  sum_keep :
      (drop : DeliveredAd → Bool)
      → ((d : DeliveredAd) → drop d ≡ true → test d ≡ false)
      → (m : Map DeliveredAd)
      → sum_where test amount (values (keep (λ (e : String × DeliveredAd). not (drop e.1)) m))
        ≡ sum_where test amount (values m)
  unfolding sum_where values
  sum_keep drop idle [] = refl
  sum_keep drop idle ((j, w) ∷ m) = elim (Bool-cases (drop w)) [
    | inl e ↦ rw (e, idle w e) (sum_keep drop idle m)
    | inr e ↦ rw e (elim (Bool-cases (test w)) [
      | inl f ↦ rw f (ap (λ s. amount w +ℤ s) (sum_keep drop idle m))
      | inr f ↦ rw f (sum_keep drop idle m)
    ])
  ]

stale_idle :
    (advertiser_id : String) (now : ℕ) (d : DeliveredAd)
    → is_stale now d ≡ true
    → reserves advertiser_id now d ≡ false
stale_idle advertiser_id now d h = ground (arith, h)

deliver-reserved :
    (now : ℕ) (publisher_id advertiser_id : String) (sel : AdSelection) (p : Pipeline)
    → get sel.nonce p.intake.deliveries ≡ none
    → now ≤ sel.nonce_expires_at
    → reserved now advertiser_id (deliver now publisher_id sel p).intake
      ≡ reserved now advertiser_id p.intake
        +ℤ (if same sel.campaign.advertiser_id advertiser_id then sel.rate else pos 0)
unfolding reserved deliver gc_deliveries
deliver-reserved now publisher_id advertiser_id sel p fresh future =
    let test = reserves advertiser_id now in
    let d = delivery_of publisher_id sel in
    let kept =
      sum_keep test (λ (x : DeliveredAd). x.rate) (is_stale now) (stale_idle advertiser_id now)
        (set sel.nonce d p.intake.deliveries) in
    let added = sum_set test (λ (x : DeliveredAd). x.rate) sel.nonce d p.intake.deliveries fresh in
    let counts : test d ≡ same sel.campaign.advertiser_id advertiser_id = ground (arith, future) in
    let plus : (if test d then sel.rate else pos 0)
        ≡ (if same sel.campaign.advertiser_id advertiser_id then sel.rate else pos 0) =
      ap (λ b. if b then sel.rate else pos 0) counts in
    omega (int_laws, parts_of_eq _ _ kept, parts_of_eq _ _ added, parts_of_eq _ _ plus)

-- A call that serves an ad: nobody banned, a selection, and its delivery.
pub serve_ad-some :
    (o : Options) (publisher_id : String) (p : Pipeline) {sel : AdSelection} {p' : Pipeline}
    → serve_ad o publisher_id p ≡ ok (some sel, p')
    → (s : Selector) × (has publisher_id p.bans ≡ false)
      × (select
            (selector_deps o (return_expired_slots o.now publisher_id p))
            (return_expired_slots o.now publisher_id p).selector
            publisher_id
          ≡ ok (some sel, s))
      × (p'
          ≡ deliver o.now publisher_id sel
              (record (return_expired_slots o.now publisher_id p) { selector = s }))
unfolding serve_ad
serve_ad-some o publisher_id p {sel} {p'} h =
    let p1 = return_expired_slots o.now publisher_id p in
    elim (Bool-cases (has publisher_id p.bans)) [
      | inl e ↦ absurd (let k = rw e at h in cc)
      | inr e ↦
          let k : (select (selector_deps o p1) p1.selector publisher_id >>= λ r.
          ok (serve_selected o publisher_id p1 r))
              ≡ ok (some sel, p') =
            rw e at h in
          let ((found, s), a, b) =
            >>=-eq-ok (select (selector_deps o p1) p1.selector publisher_id) _ k in
          let (c, d, f) = selected p1 found s b in (s, e, a ∙ ap (λ x. ok (x, s)) c, f)
    ]
  where
    selected :
        (p1 : Pipeline) (found : Option AdSelection) (s : Selector)
        → ◌≡◌ {A = Result Thrown (Option AdSelection × Pipeline)}
            (ok (serve_selected o publisher_id p1 (found, s)))
            (ok (some sel, p'))
        → (found ≡ some sel)
          × (Unit {0})
          × (p' ≡ deliver o.now publisher_id sel (record p1 { selector = s }))
    selected p1 none s h = absurd (cc)
    selected p1 (some x) s h =
        let it : x ≡ sel = cc in
        let state : deliver o.now publisher_id x (record p1 { selector = s }) ≡ p' = cc in
        (
          ap some it,
          tt,
          sym state ∙ ap (λ y. deliver o.now publisher_id y (record p1 { selector = s })) it,
        )

left_covers :
    (held all rate bid_rate set_aside : ℤ) (pool : Option String)
    → (neg_part set_aside ≡ 0)
    → pos 0 <ℤ bid_rate
    → rate ≤ℤ bid_rate
    → Affords
        (ok (if ltb_ℤ (pos 0) (held -ℤ all) then held -ℤ all else pos 0))
        set_aside
        bid_rate
        pool
    → all +ℤ rate ≤ℤ held
left_covers held all rate bid_rate set_aside none apart above below h =
    elim (Bool-cases (ltb_ℤ (pos 0) (held -ℤ all))) [
      | inl e ↦
          let k : bid_rate +ℤ set_aside ≤ℤ held -ℤ all = rw e at h in
          omega (int_laws, k, below, apart)
      | inr e ↦
          let k : bid_rate +ℤ set_aside ≤ℤ pos 0 = rw e at h in
          absurd (omega (int_laws, k, above, apart))
    ]
left_covers held all rate bid_rate set_aside (some pool) apart above below h =
    elim (Bool-cases (ltb_ℤ (pos 0) (held -ℤ all))) [
      | inl e ↦ let k : bid_rate ≤ℤ held -ℤ all = rw e at h in omega (int_laws, k, below)
      | inr e ↦ let k : bid_rate ≤ℤ pos 0 = rw e at h in absurd (omega (int_laws, k, above))
    ]

-- The balance that the selection was checked against.
spendable-covers :
    (o : Options) (p : Pipeline) (advertiser_id : String) (rate bid_rate : ℤ) (pool : Option String)
    → neg_part (o.reserved_for_pools advertiser_id) ≡ 0
    → pos 0 <ℤ bid_rate
    → rate ≤ℤ bid_rate
    → Affords (spendable o.now advertiser_id p) (o.reserved_for_pools advertiser_id) bid_rate pool
    → (account : String) × (held : ℤ) × (owned_account advertiser advertiser_id ≡ ok account)
      × (balance account p.ledger.store ≡ ok held)
      × (reserved o.now advertiser_id p.intake +ℤ rate ≤ℤ held)
spendable-covers o p advertiser_id rate bid_rate pool apart above below h =
    elim (Result-cases (spendable o.now advertiser_id p)) [
      | inr (t, e) ↦ absurd (let k = rw e at h in k)
      | inl (v, e) ↦
          let (account, held, a, b, it) = spendable_lem o.now advertiser_id p e in
          (
            account,
            held,
            a,
            b,
            left_covers held (reserved o.now advertiser_id p.intake) rate bid_rate _ pool apart
                above below
                (subst (λ r. Affords r (o.reserved_for_pools advertiser_id) bid_rate pool)
                  (e ∙ ap ok it) h),
          )
    ]

slots_back-spendable :
    (now : ℕ) (publisher_id : String) (p : Pipeline)
    → ((return_expired_slots now publisher_id p).intake ≡ p.intake)
      × ((return_expired_slots now publisher_id p).ledger ≡ p.ledger)
unfolding return_expired_slots
slots_back-spendable now publisher_id p = (refl, refl)

deliver-ledger :
    (now : ℕ) (publisher_id : String) (sel : AdSelection) (p : Pipeline)
    → (deliver now publisher_id sel p).ledger ≡ p.ledger
unfolding deliver gc_deliveries
deliver-ledger now publisher_id sel p = refl

-- Serving an ad, under a nonce that no delivery has, reserves its price for its advertiser and for
-- no other, and with it all that the advertiser has reserved is covered by the balance: where what
-- is set aside for pools is not below zero, a client that fetches ads without reporting them cannot
-- overdraw an advertiser.
pub serve_ad_covered :
    (o : Options) (publisher_id other : String) (p : Pipeline) {sel : AdSelection} {p' : Pipeline}
    → serve_ad o publisher_id p ≡ ok (some sel, p')
    → get o.random_hex p.intake.deliveries ≡ none
    → neg_part (o.reserved_for_pools sel.campaign.advertiser_id) ≡ 0
    → (account : String) × (held : ℤ) × (owned_account advertiser sel.campaign.advertiser_id
        ≡ ok account)
      × (balance account p'.ledger.store ≡ ok held)
      × (reserved o.now sel.campaign.advertiser_id p'.intake ≤ℤ held)
      × (reserved o.now other p'.intake
          ≡ reserved o.now other p.intake
            +ℤ (if same sel.campaign.advertiser_id other then sel.rate else pos 0))
unfolding selector_deps return_expired_slots
serve_ad_covered o publisher_id other p {sel} {p'} h fresh apart =
    let p1 = return_expired_slots o.now publisher_id p in
    let (s, _, chosen, made) = serve_ad-some o publisher_id p h in
    let (es, _, served) = select-IsServed (selector_deps o p1) p1.selector publisher_id chosen in
    let p2 = record p1 { selector = s } in
    let advertiser_id = sel.campaign.advertiser_id in
    let unused : get sel.nonce p.intake.deliveries ≡ none =
      ap (λ n. get n p.intake.deliveries) served.nonce_drawn ∙ fresh in
    let future : o.now ≤ sel.nonce_expires_at = omega (arith, served.expires) in
    let (account, held, a, b, le) =
      spendable-covers o p1 advertiser_id sel.rate served.bid_rate sel.campaign.pool_id apart
        served.servable.rate_positive served.rate_below served.servable.paid in
    let change = λ (a : String).
      ap (λ (q : Pipeline). reserved o.now a q.intake) made
      ∙ deliver-reserved o.now publisher_id a sel p2 unused future in
    let own : reserved o.now advertiser_id p'.intake
        ≡ reserved o.now advertiser_id p.intake +ℤ sel.rate =
      change advertiser_id
      ∙ ap (λ c. reserved o.now advertiser_id p.intake +ℤ (if c then sel.rate else pos 0))
          (same_refl advertiser_id) in
    let same_ledger : p'.ledger ≡ p.ledger =
      ap (λ (q : Pipeline). q.ledger) made ∙ deliver-ledger o.now publisher_id sel p2 in
    (
      account,
      held,
      a,
      ap (λ (l : Ledger). balance account l.store) same_ledger ∙ b,
      omega (int_laws, parts_of_eq _ _ own, le),
      change other,
    )
