-- ===== src/Selector/Served.antt =====
-- What `select` serves: the campaign's conditions, written out.
use dwell.Base.{
  ℕ, ◌*◌, Bool, true, Option, none, some, Result, ok, err, ◌>>=◌, ◌≡◌, ◌≢◌, refl, subst, ap, inl,
  inr, Bool-cases, String, if◌then◌else◌, same_iff, >>=-eq-ok, arith,
}
use dwell.Base.Int.{ℤ, pos, ◌≤ℤ◌, ◌<ℤ◌, leb_ℤ, ltb_ℤ, ◌+ℤ◌, ◌-ℤ◌, int_laws, parts_of_eq}
use dwell.Thrown.{Thrown}
use dwell.Money.{add, rate_from_cpm}
use dwell.Money.Checked.{stroops-eq-ok, add-eq-ok}
use dwell.Selector.{
  Campaign, CampaignStatus, active, paused, suspended, exhausted, is_active, Deps, same_pool,
  not_own, pool_admits, sells, affords, within_day, within_blocks, spendable_for, spendable_in,
  tests,
}
use dwell.Selector.Filters.{Passes}

abbrev pub PoolAllows : Deps → String → ℤ → Option String → Type 0
PoolAllows d publisher_id rate none = Unit
PoolAllows d publisher_id rate (some pool) = d.pool_allows publisher_id pool rate ≡ true

-- A general campaign does not spend what its advertiser has set aside for pools.
abbrev pub Affords : Result Thrown ℤ → ℤ → ℤ → Option String → Type 0
Affords (err t) reserved rate pool = ⊥
Affords (ok balance) reserved rate none = rate +ℤ reserved ≤ℤ balance
Affords (ok balance) reserved rate (some pool) = rate ≤ℤ balance

abbrev pub WithinDay : Result Thrown ℤ → ℤ → Option ℤ → Type 0
WithinDay spent rate none = Unit
WithinDay (err t) rate (some budget) = ⊥
WithinDay (ok spent) rate (some budget) = spent +ℤ rate ≤ℤ budget

abbrev pub WithinBlocks : Option ℕ → Option (String → ℤ) → String → Type 0
WithinBlocks none committed id = Unit
WithinBlocks (some blocks) none id = Unit
WithinBlocks (some blocks) (some committed) id = committed id <ℤ pos (blocks * 1_000)

-- The conditions for a campaign to be served to a publisher at up to `rate` an impression.
pub record Servable (d : Deps) (publisher_id : String) (c : Campaign) (rate : ℤ) : Type 0 where
  pub is_running : c.status ≡ active
  pub of_pool : c.pool_id ≡ d.pool_of publisher_id
  pub not_submitter : c.submitted_by ≢ some publisher_id
  pub pool_open : PoolAllows d publisher_id rate (d.pool_of publisher_id)
  pub rate_of_bid : rate_from_cpm c.bid_cpm ≡ ok rate
  pub rate_positive : pos 0 <ℤ rate
  pub paid :
      Affords
        (d.spendable_balance c.advertiser_id)
        (d.reserved_for_pools c.advertiser_id)
        rate
        c.pool_id
  pub within_budget : WithinDay (d.spent_today c.id) rate c.daily_budget_stroops
  pub within_bought : WithinBlocks c.blocks d.committed_impressions c.id

running : (s : CampaignStatus) → is_active s ≡ true → s ≡ active
running active h = refl
running paused h = cc
running suspended h = cc
running exhausted h = cc

pools_agree : (p q : Option String) → same_pool p q ≡ true → p ≡ q
pools_agree none none h = refl
pools_agree none (some q) h = cc
pools_agree (some p) none h = cc
pools_agree (some p) (some q) h = ap some ((same_iff p q).0 h)

others :
    (publisher_id : String) (o : Option String)
    → not_own publisher_id o ≡ true
    → o ≢ some publisher_id
others publisher_id none h = λ e. cc
others publisher_id (some s) h = λ e.
    let it : s ≡ publisher_id = ground arith in
    let found = (same_iff s publisher_id).1 it in ground (arith, found, h)

inside_ok : {a b : Bool} → ◌≡◌ {A = Result Thrown Bool} (ok a) (ok b) → a ≡ b
inside_ok h = ground arith

allowed :
    (d : Deps) (publisher_id : String) (pool : Option String) (c : Campaign) (rate : ℤ)
    → rate_from_cpm c.bid_cpm ≡ ok rate
    → pool_admits d publisher_id pool c ≡ ok true
    → PoolAllows d publisher_id rate pool
unfolding pool_admits
allowed d publisher_id none c rate r h = tt
allowed d publisher_id (some pool) c rate r h = inside_ok (rw r at h)

left_covers :
    (balance reserved rate : ℤ) (pool : Option String) {spendable : ℤ}
    → pos 0 <ℤ rate
    → spendable_in balance reserved pool ≡ ok spendable
    → rate ≤ℤ spendable
    → Affords (ok balance) reserved rate pool
unfolding spendable_in
left_covers balance reserved rate (some pool) {spendable} p h k =
    let it : balance ≡ spendable = ground arith in omega (int_laws, parts_of_eq _ _ it, k)
left_covers balance reserved rate none {spendable} p h k =
    let left = balance -ℤ reserved in
    let it = (stroops-eq-ok (if ltb_ℤ (pos 0) left then left else pos 0) h).0 in
    elim (Bool-cases (ltb_ℤ (pos 0) left)) [
      | inl e ↦
          let some_left : spendable ≡ left = rw e at it in
          omega (int_laws, parts_of_eq _ _ some_left, k)
      | inr e ↦
          let no_left : spendable ≡ pos 0 = rw e at it in
          absurd (omega (int_laws, parts_of_eq _ _ no_left, k, p))
    ]

covers :
    (balance : Result Thrown ℤ) (reserved rate : ℤ) (pool : Option String) {spendable : ℤ}
    → pos 0 <ℤ rate
    → (balance >>= λ all. spendable_in all reserved pool) ≡ ok spendable
    → rate ≤ℤ spendable
    → Affords balance reserved rate pool
covers (err t) reserved rate pool p h k = cc
covers (ok balance) reserved rate pool p h k = left_covers balance reserved rate pool p h k

day_covers :
    (spent : Result Thrown ℤ) (bid rate : ℤ) (budget : Option ℤ)
    → rate_from_cpm bid ≡ ok rate
    → within_day spent bid budget ≡ ok true
    → WithinDay spent rate budget
unfolding within_day
day_covers spent bid rate none r h = tt
day_covers (err t) bid rate (some budget) r h = cc
day_covers (ok spent) bid rate (some budget) r h =
    let k : (add spent rate >>= λ after. ok (leb_ℤ after budget)) ≡ ok true = rw r at h in
    let (after, p, q) = >>=-eq-ok (add spent rate) _ k in
    let le : after ≤ℤ budget = ground (arith, q) in
    omega (arith, le, parts_of_eq _ _ (add-eq-ok spent rate p).0)

blocks_cover :
    (blocks : Option ℕ) (committed : Option (String → ℤ)) (id : String)
    → within_blocks blocks committed id ≡ true
    → WithinBlocks blocks committed id
blocks_cover none committed id h = tt
blocks_cover (some blocks) none id h = tt
blocks_cover (some blocks) (some committed) id h = ground (arith, h)

-- A campaign that passes the filters can be served at the rate of its bid.
pub Passes-Servable :
    (d : Deps) (publisher_id : String) (c : Campaign)
    → Passes (tests d publisher_id) c
    → (rate : ℤ) × Servable d publisher_id c rate
unfolding tests sells affords spendable_for
Passes-Servable d publisher_id c
      (run, (pool, (own, (admits, (sold, (afford, (day, (blocks, _)))))))) =
    let (rate, r, positive) = >>=-eq-ok (rate_from_cpm c.bid_cpm) _ sold in
    let above : pos 0 <ℤ rate = ground (arith, positive) in
    let (spendable, s, t) = >>=-eq-ok (spendable_for d c) _ afford in
    let (rate', r', u) = >>=-eq-ok (rate_from_cpm c.bid_cpm) _ t in
    let same_rate : rate' ≡ rate = cc in
    let le : rate ≤ℤ spendable = subst (λ v. v ≤ℤ spendable) same_rate (ground (arith, u)) in
    (
      rate,
      record {
        is_running = running c.status (inside_ok run);
        of_pool = pools_agree c.pool_id (d.pool_of publisher_id) (inside_ok pool);
        not_submitter = others publisher_id c.submitted_by (inside_ok own);
        pool_open = allowed d publisher_id (d.pool_of publisher_id) c rate r admits;
        rate_of_bid = r;
        rate_positive = above;
        paid = covers _ _ rate c.pool_id above s le;
        within_budget = day_covers (d.spent_today c.id) c.bid_cpm rate c.daily_budget_stroops r day;
        within_bought = blocks_cover c.blocks d.committed_impressions c.id (inside_ok blocks);
      },
    )
