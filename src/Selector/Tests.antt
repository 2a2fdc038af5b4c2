-- ===== src/Selector/Tests.antt =====
-- Runs of the ad selection: two advertisers of the open market, one of them short of money.
use dwell.Base.{
  ℕ, Bool, true, String, Option, none, some, List, [], ◌∷◌, Result, ok, ◌≡◌, refl, All, same,
  if◌then◌else◌, or_else, inl, inr, ◌⊎◌, arith, ◌+◌, ◌≤◌,
}
use dwell.Base.Int.{ℤ, pos, ◌+ℤ◌}
use dwell.Selector.{
  CampaignStatus, Creative, Campaign, AdSelection, Deps, Selector, select, eligible, return_slots,
  min_bid_cpm, build_tour,
}
use dwell.Selector.Choice.{IsServed, select-IsServed}
use dwell.Selector.Serves.{HasRoom, select_total, select_again}

abbrev campaign : String → String → ℕ → Campaign
campaign id advertiser bid = record {
  id = id;
  advertiser_id = advertiser;
  bid_cpm = pos bid;
  rev_share_bps = pos 5000;
  creative = record { brand = "Acme"; text = "Ship it"; cta = some "acme.dev" };
  status = CampaignStatus.active;
  frequency_cap = 0;
  daily_budget_stroops = some (pos 50_000);
  blocks = some 2;
  pool_id = none;
  submitted_by = none;
}

abbrev high : Campaign
high = campaign "c-1" "acme" 4_000_000

abbrev low : Campaign
low = campaign "c-2" "beta" 2_000_000

abbrev dry : Campaign
dry = campaign "c-3" "broke" 9_000_000

abbrev two_and_dry : Deps
two_and_dry = record {
  now = 1_000;
  random_hex = "00112233445566778899aabbccddeeff";
  tie = λ a b. true;
  campaigns = dry ∷ high ∷ low ∷ [];
  spendable_balance = λ a. ok (if same a "broke" then pos 1_600 else pos 1_000_000);
  spent_today = λ id. ok (pos 10_000);
  committed_impressions = some (λ id. pos 1_999);
  pool_of = λ p. none;
  pool_allows = λ p pool rate. true;
  reserved_for_pools = λ a. pos 500;
  nonce_ttl_ms = none;
  reserve_cpm = none;
}

abbrev fresh : Selector
fresh = record { recent_by_publisher = []; tour_by_publisher = []; tour_store = some [] }

abbrev first_ad : AdSelection
first_ad = record {
  campaign = high;
  nonce = "00112233445566778899aabbccddeeff";
  nonce_expires_at = 301_000;
  rate = pos 2_100;
  clearing_cpm = pos 2_100_000;
}

abbrev after_first : Selector
after_first = record {
  recent_by_publisher = ("pub-1", "c-1" ∷ []) ∷ [];
  tour_by_publisher = ("pub-1", "c-1" ∷ "c-2" ∷ []) ∷ [];
  tour_store = some (("pub-1", "c-1" ∷ "c-2" ∷ []) ∷ []);
}

eligible_two : eligible two_and_dry "pub-1" ≡ ok (high ∷ low ∷ [])
unfolding eligible dwell.Selector.keep_each dwell.Selector.keep_checked dwell.Selector.tests
    dwell.Selector.pool_admits dwell.Selector.sells dwell.Selector.affords dwell.Selector.within_day
    dwell.Selector.spendable_for dwell.Selector.spendable_in dwell.Money.rate_from_cpm
    dwell.Money.stroops dwell.Money.add dwell.Base.Int.◌-ℤ◌ dwell.Base.Int.◌+ℤ◌
eligible_two = refl

select_first : select two_and_dry fresh "pub-1" ≡ ok (some first_ad, after_first)
unfolding select eligible dwell.Selector.keep_each dwell.Selector.keep_checked dwell.Selector.tests
    dwell.Selector.pool_admits dwell.Selector.sells dwell.Selector.affords dwell.Selector.within_day
    dwell.Selector.spendable_for dwell.Selector.spendable_in dwell.Money.rate_from_cpm
    dwell.Money.stroops dwell.Money.add dwell.Base.Int.◌-ℤ◌ dwell.Base.Int.◌+ℤ◌
    dwell.Selector.select_among dwell.Selector.select_found dwell.Selector.select_chosen
    dwell.Selector.next_in_tour dwell.Selector.current_tour dwell.Selector.build_tour
    dwell.Selector.all_slots dwell.Selector.stage_slots dwell.Selector.tour_before
    dwell.Selector.index_from dwell.Selector.tour_of dwell.Selector.set_tour
    dwell.Selector.recent_of dwell.Selector.remember dwell.Selector.clearing_price
    dwell.Selector.rival_of dwell.Base.Sort.sort_by dwell.Base.Sort.insert_by dwell.Base.Map.get
    dwell.Base.Map.set
select_first = refl

select-IsServed_example :
    (es : List Campaign) × (eligible two_and_dry "pub-1" ≡ ok es)
    × IsServed two_and_dry "pub-1" es first_ad
select-IsServed_example = select-IsServed two_and_dry fresh "pub-1" select_first

room : All HasRoom (high ∷ low ∷ [])
unfolding ◌+ℤ◌
room = (omega arith, (omega arith, tt))

select_total_example :
    (sel : AdSelection) × (s' : Selector) × (select two_and_dry fresh "pub-1" ≡ ok (some sel, s'))
select_total_example =
    select_total two_and_dry fresh "pub-1" high (low ∷ []) eligible_two room (refl, omega arith)

select_again_example :
    (s'' : Selector) × (select two_and_dry (return_slots after_first "pub-1" ("c-1" ∷ [])) "pub-1"
      ≡ ok (some first_ad, s''))
select_again_example = select_again two_and_dry fresh "pub-1" select_first
