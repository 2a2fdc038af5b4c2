-- ===== src/Selector.antt =====
-- packages/server/src/ads/selector.ts: which ad a publisher sees next, and at which price.
-- `Deps` holds what the injected functions answer during one call: an absent `poolOf` answers `null`,
-- an absent `poolAllows` true and an absent `reservedForPools` zero. `tie` is the coin of a sort. Bids
-- that reach the tour are above zero, so its division is of numbers. A call that throws gives no
-- state: the tour that the source may have set before a later throw is not modelled.
pub mod Filters
pub mod Tours
pub mod Turn
pub mod Rivals
pub mod Prices
pub mod Served
pub mod Choice
pub mod Serves
pub mod Slots
pub mod Tests
use dwell.Base.{
  ℕ, zero, suc, ◌+◌, ◌*◌, ◌/◌, min, max, String, Bool, true, false, not, Option, none, some, List,
  [], ◌∷◌, ◌++◌, Result, ok, err, ◌>>=◌, map, length, keep, find, drop, same, is_some, or_else, ltb,
  leb, ◌==◌, if◌then◌else◌,
}
use dwell.Base.Int.{ℤ, pos, pos_part, ◌-ℤ◌, ltb_ℤ, leb_ℤ, eqb_ℤ}
use dwell.Base.Map.{Map, get, set}
use dwell.Base.Sort.{insert_by, sort_by}
use dwell.Thrown.{Thrown, undefined_read}
use dwell.Money.{stroops, add, rate_from_cpm}

abbrev pub impressions_per_block : ℕ
impressions_per_block = 1_000

pub data CampaignStatus : Type 0 where
  active paused suspended exhausted : CampaignStatus

abbrev pub is_active : CampaignStatus → Bool
is_active active = true
is_active paused = false
is_active suspended = false
is_active exhausted = false

-- `Creative`
pub record Creative : Type 0 where
  pub brand : String
  pub text : String
  pub cta : Option String

pub record Campaign : Type 0 where
  pub id : String
  pub advertiser_id : String
  pub bid_cpm : ℤ
  pub rev_share_bps : ℤ
  pub creative : Creative
  pub status : CampaignStatus
  pub frequency_cap : ℕ
  pub daily_budget_stroops : Option ℤ
  pub blocks : Option ℕ
  pub pool_id : Option String
  pub submitted_by : Option String

pub record AdSelection : Type 0 where
  pub campaign : Campaign
  pub nonce : String
  pub nonce_expires_at : ℕ
  pub rate : ℤ
  pub clearing_cpm : ℤ

pub record Deps : Type 0 where
  pub now : ℕ
  pub random_hex : String
  pub tie : String → String → Bool
  pub campaigns : List Campaign
  pub spendable_balance : String → Result Thrown ℤ
  pub spent_today : String → Result Thrown ℤ
  pub committed_impressions : Option (String → ℤ)
  pub pool_of : String → Option String
  pub pool_allows : String → String → ℤ → Bool
  pub reserved_for_pools : String → ℤ
  pub nonce_ttl_ms : Option ℕ
  pub reserve_cpm : Option ℤ

-- The two maps of `AdSelector`, and the tour store where there is one.
pub record Selector : Type 0 where
  pub recent_by_publisher : Map (List String)
  pub tour_by_publisher : Map (List String)
  pub tour_store : Option (Map (List String))

abbrev pub min_bid_cpm : ℤ
min_bid_cpm = pos 1_000_000

abbrev pub bid_increment_cpm : ℤ
bid_increment_cpm = pos 100_000

abbrev pub default_nonce_ttl_ms : ℕ
default_nonce_ttl_ms = 300_000

abbrev pub max_stage_slots : ℕ
max_stage_slots = 4

unfoldable pub stage_slots : ℤ → ℤ → ℕ
stage_slots bid lowest_bid =
    let ratio = (pos_part bid * 2 + pos_part lowest_bid) / (pos_part lowest_bid * 2) in
    min max_stage_slots (max 1 ratio)

-- `xs.filter(test)` with a test that may throw.
unfoldable pub keep_checked :
    (Campaign → Result Thrown Bool) → List Campaign → Result Thrown (List Campaign)
keep_checked test [] = ok []
keep_checked test (c ∷ cs) = do
  holds ← test c
  rest ← keep_checked test cs
  ok (if holds then c ∷ rest else rest)

-- One filter after the other.
unfoldable pub keep_each :
    List (Campaign → Result Thrown Bool) → List Campaign → Result Thrown (List Campaign)
unfolding keep_checked
keep_each [] cs = ok cs
keep_each (test ∷ tests) cs = keep_checked test cs >>= λ kept. keep_each tests kept

-- `a === b` on pools.
abbrev pub same_pool : Option String → Option String → Bool
same_pool none none = true
same_pool none (some p) = false
same_pool (some q) none = false
same_pool (some q) (some p) = same q p

-- `#spendableFor`
unfoldable pub spendable_in : ℤ → ℤ → Option String → Result Thrown ℤ
spendable_in all reserved (some pool) = ok all
spendable_in all reserved none =
    let left = all -ℤ reserved in stroops (if ltb_ℤ (pos 0) left then left else pos 0)

unfoldable pub spendable_for : Deps → Campaign → Result Thrown ℤ
unfolding spendable_in
spendable_for d c = do
  all ← d.spendable_balance c.advertiser_id
  spendable_in all (d.reserved_for_pools c.advertiser_id) c.pool_id

abbrev pub not_own : String → Option String → Bool
not_own publisher_id none = true
not_own publisher_id (some submitter) = not (same submitter publisher_id)

unfoldable pub pool_admits : Deps → String → Option String → Campaign → Result Thrown Bool
pool_admits d publisher_id none c = ok true
pool_admits d publisher_id (some pool) c = do
  rate ← rate_from_cpm c.bid_cpm
  ok (d.pool_allows publisher_id pool rate)

unfoldable pub sells : Campaign → Result Thrown Bool
sells c = rate_from_cpm c.bid_cpm >>= λ rate. ok (ltb_ℤ (pos 0) rate)

unfoldable pub affords : Deps → Campaign → Result Thrown Bool
unfolding spendable_for
affords d c = do
  spendable ← spendable_for d c
  rate ← rate_from_cpm c.bid_cpm
  ok (leb_ℤ rate spendable)

unfoldable pub within_day : Result Thrown ℤ → ℤ → Option ℤ → Result Thrown Bool
within_day spent_today bid none = ok true
within_day spent_today bid (some budget) = do
  spent ← spent_today
  rate ← rate_from_cpm bid
  after ← add spent rate
  ok (leb_ℤ after budget)

abbrev pub within_blocks : Option ℕ → Option (String → ℤ) → String → Bool
within_blocks none committed id = true
within_blocks (some blocks) none id = true
within_blocks (some blocks) (some committed) id =
    ltb_ℤ (committed id) (pos (blocks * impressions_per_block))

-- The filters of `select`, in their order.
unfoldable pub tests : Deps → String → List (Campaign → Result Thrown Bool)
unfolding pool_admits sells affords within_day
tests d publisher_id =
    let pool = d.pool_of publisher_id in
    (λ c. ok (is_active c.status))
    ∷ (λ c. ok (same_pool c.pool_id pool))
    ∷ (λ c. ok (not_own publisher_id c.submitted_by))
    ∷ (λ c. pool_admits d publisher_id pool c)
    ∷ (λ c. sells c)
    ∷ (λ c. affords d c)
    ∷ (λ c. within_day (d.spent_today c.id) c.bid_cpm c.daily_budget_stroops)
    ∷ (λ c. ok (within_blocks c.blocks d.committed_impressions c.id))
    ∷ []

unfoldable pub eligible : Deps → String → Result Thrown (List Campaign)
unfolding tests keep_each
eligible d publisher_id = keep_each (tests d publisher_id) d.campaigns

-- `byBid(a, b) < 0`
abbrev pub by_bid : Campaign → Campaign → Bool
by_bid a b = ltb_ℤ b.bid_cpm a.bid_cpm

abbrev pub last_index_from : ℕ → Option ℕ → String → List String → Option ℕ
last_index_from i found id [] = found
last_index_from i found id (x ∷ xs) =
    last_index_from (suc i) (if same x id then some i else found) id xs

-- `a < b` on last picks, where `none` is minus infinity.
abbrev pub earlier : Option ℕ → Option ℕ → Bool
earlier none none = false
earlier none (some b) = true
earlier (some a) none = false
earlier (some a) (some b) = ltb a b

-- The comparison of `#buildTour`: a higher bid, then an earlier pick, then the coin.
unfoldable pub tour_before : (String → String → Bool) → List String → Campaign → Campaign → Bool
tour_before tie recent a b =
    let la = last_index_from 0 none a.id recent in
    let lb = last_index_from 0 none b.id recent in
    if eqb_ℤ a.bid_cpm b.bid_cpm
    then if earlier la lb then true else if earlier lb la then false else tie a.id b.id
    else by_bid a b

-- `ordered[ordered.length - 1].bidCpm`; a tour is only built of campaigns.
abbrev pub last_bid : List Campaign → ℤ
last_bid [] = pos 0
last_bid (c ∷ []) = c.bid_cpm
last_bid (c ∷ d ∷ cs) = last_bid (d ∷ cs)

abbrev pub fill : ℕ → String → List String
fill zero id = []
fill (suc n) id = id ∷ fill n id

unfoldable pub all_slots : ℤ → List Campaign → List String
unfolding stage_slots
all_slots lowest [] = []
all_slots lowest (c ∷ cs) = fill (stage_slots c.bid_cpm lowest) c.id ++ all_slots lowest cs

unfoldable pub build_tour : (String → String → Bool) → List String → List Campaign → List String
unfolding all_slots tour_before
build_tour tie recent eligible =
    let ordered = sort_by (tour_before tie recent) eligible in all_slots (last_bid ordered) ordered

unfoldable pub recent_of : Selector → String → List String
recent_of s publisher_id = or_else (get publisher_id s.recent_by_publisher) []

abbrev pub stored_tour : Option (Map (List String)) → String → List String
stored_tour none publisher_id = []
stored_tour (some tours) publisher_id = or_else (get publisher_id tours) []

-- `#tour`: the memory's tour, else that of the store, which the memory then holds.
unfoldable pub tour_of : Selector → String → List String
tour_of s publisher_id =
    or_else (get publisher_id s.tour_by_publisher) (stored_tour s.tour_store publisher_id)

abbrev pub save_tour :
    Option (Map (List String)) → String → List String → Option (Map (List String))
save_tour none publisher_id tour = none
save_tour (some tours) publisher_id tour = some (set publisher_id tour tours)

-- `#setTour`
unfoldable pub set_tour : Selector → String → List String → Selector
set_tour s publisher_id tour = record s {
  tour_by_publisher = set publisher_id tour s.tour_by_publisher;
  tour_store = save_tour s.tour_store publisher_id tour;
}

-- `new Map(eligible.map((c) => [c.id, c]))`
unfoldable pub index_from : Map Campaign → List Campaign → Map Campaign
index_from m [] = m
index_from m (c ∷ cs) = index_from (set c.id c m) cs

-- The slots left, or a new tour where there is none.
abbrev pub tour_or_new : List String → List String → List String
tour_or_new [] built = built
tour_or_new (id ∷ rest) built = id ∷ rest

-- The tour that the next slot is taken from.
unfoldable pub current_tour : Deps → Selector → String → List Campaign → List String
unfolding build_tour index_from recent_of tour_of
current_tour d s publisher_id eligible =
    tour_or_new (keep (λ id. is_some (get id (index_from [] eligible))) (tour_of s publisher_id))
      (build_tour d.tie (recent_of s publisher_id) eligible)

abbrev pub first_of : List String → Map Campaign → Option Campaign
first_of [] by_id = none
first_of (id ∷ rest) by_id = get id by_id

-- `#nextInTour`: the campaign, which the source takes to be there, and the tour without its slot.
unfoldable pub next_in_tour : Deps → Selector → String → List Campaign → Option Campaign × Selector
unfolding current_tour index_from set_tour
next_in_tour d s publisher_id eligible =
    let tour = current_tour d s publisher_id eligible in
    (first_of tour (index_from [] eligible), set_tour s publisher_id (drop 1 tour))

-- The highest bid of another advertiser that is not above the chosen bid.
unfoldable pub rival_of : Campaign → List Campaign → Option Campaign
rival_of chosen eligible =
    find
      (λ c.
        if same c.advertiser_id chosen.advertiser_id then false else leb_ℤ c.bid_cpm chosen.bid_cpm)
      (sort_by by_bid eligible)

-- `rival ? add(rival.bidCpm, BID_INCREMENT_CPM) : reserve`
abbrev pub second_price : Option Campaign → ℤ → Result Thrown ℤ
second_price none reserve = ok reserve
second_price (some rival) reserve = add rival.bid_cpm bid_increment_cpm

abbrev pub max_ℤ : ℤ → ℤ → ℤ
max_ℤ a b = if ltb_ℤ b a then a else b

abbrev pub min_ℤ : ℤ → ℤ → ℤ
min_ℤ a b = if ltb_ℤ a b then a else b

-- `#auction`, after the choice.
unfoldable pub clearing_price :
    Option ℤ → Campaign → Option String → List Campaign → Result Thrown ℤ
unfolding rival_of
clearing_price reserve_cpm chosen (some pool) eligible = ok chosen.bid_cpm
clearing_price reserve_cpm chosen none eligible =
    let reserve = or_else reserve_cpm min_bid_cpm in
    second_price (rival_of chosen eligible) reserve >>= λ second.
    stroops (min_ℤ (max_ℤ second reserve) chosen.bid_cpm)

-- `list.push(id); if (list.length > 32) list.shift()`
abbrev pub pushed : String → List String → List String
pushed id recent =
    let longer = recent ++ (id ∷ []) in if ltb 32 (length longer) then drop 1 longer else longer

-- `#remember`
unfoldable pub remember : Selector → String → String → Selector
unfolding recent_of
remember s publisher_id campaign_id = record s {
  recent_by_publisher =
      set publisher_id (pushed campaign_id (recent_of s publisher_id)) s.recent_by_publisher;
}

-- `select` after `#nextInTour`: the price, the last guard, and the selection.
unfoldable pub select_chosen :
    Deps
    → Selector
    → String
    → List Campaign
    → Campaign
    → Result Thrown (Option AdSelection × Selector)
unfolding clearing_price remember spendable_for
select_chosen d s publisher_id eligible chosen = do
  clearing_cpm ← clearing_price d.reserve_cpm chosen chosen.pool_id eligible
  rate ← rate_from_cpm clearing_cpm
  spendable ← spendable_for d chosen
  ok (
      if ltb_ℤ spendable rate then (none, s) else (
        some (record {
          campaign = chosen;
          nonce = d.random_hex;
          nonce_expires_at = d.now + or_else d.nonce_ttl_ms default_nonce_ttl_ms;
          rate = rate;
          clearing_cpm = clearing_cpm;
        }),
        remember s publisher_id chosen.id,
      ))

unfoldable pub select_found :
    Deps
    → Selector
    → String
    → List Campaign
    → Option Campaign × Selector
    → Result Thrown (Option AdSelection × Selector)
unfolding select_chosen
select_found d s publisher_id eligible (none, s') = err undefined_read
select_found d s publisher_id eligible (some chosen, s') =
    select_chosen d s' publisher_id eligible chosen

unfoldable pub select_among :
    Deps → Selector → String → List Campaign → Result Thrown (Option AdSelection × Selector)
unfolding next_in_tour select_found
select_among d s publisher_id [] = ok (none, s)
select_among d s publisher_id (c ∷ cs) =
    select_found d s publisher_id (c ∷ cs) (next_in_tour d s publisher_id (c ∷ cs))

unfoldable pub select : Deps → Selector → String → Result Thrown (Option AdSelection × Selector)
unfolding eligible select_among
select d s publisher_id = eligible d publisher_id >>= select_among d s publisher_id

unfoldable pub return_slots : Selector → String → List String → Selector
unfolding set_tour tour_of
return_slots s publisher_id [] = s
return_slots s publisher_id (id ∷ ids) =
    set_tour s publisher_id ((id ∷ ids) ++ tour_of s publisher_id)
