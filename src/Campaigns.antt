-- ===== src/Campaigns.antt =====
-- packages/server/src/ads/campaign-store.ts: the campaigns that advertisers make themselves.
-- `lower`, the lower case of Unicode, is a parameter, and so is the generator of ids, as the id that
-- the call draws. The reasons carry no text. Copies for the disk are not modelled.
pub mod Creation
pub mod Status
pub mod Tests
use Prim.Native.Char.{Char, code}
use dwell.Base.{
  ℕ, ◌+◌, String, Bool, true, false, not, ◌&&◌, ◌||◌, Option, none, some, List, [], ◌∷◌, Result, ok,
  err, ◌>>=◌, ◌>>◌, throw_if, keep, same, ltb, leb, if◌then◌else◌,
}
use dwell.Base.Int.{ℤ, pos, ltb_ℤ}
use dwell.Base.Map.{Map, get, set, values}
use dwell.Base.Text.{cat}
use dwell.Thrown.{Thrown}
use dwell.Money.{rate_from_cpm}
use dwell.Selector.{Campaign, CampaignStatus, Creative, min_bid_cpm, same_pool}
use dwell.Sanitize.{trim, is_empty, has_unsafe_chars}
use dwell.Sanitize.Lines.{assert_clean, is_safe_domain, SanitizeError}

pub record CampaignInput : Type 0 where
  pub advertiser_id : String
  pub brand : String
  pub text : String
  pub cta : String
  pub bid_cpm : ℤ
  pub daily_budget : Option ℤ
  pub blocks : Option ℕ

-- `CampaignError`
pub data Refusal : Type 0 where
  no_brand no_text no_cta line_too_long bad_domain bid_too_low budget_too_small bad_blocks : Refusal
  unclean : SanitizeError → Refusal
  not_found : Refusal

abbrev pub default_rev_share_bps : ℤ
default_rev_share_bps = pos 5000

abbrev pub max_line_length : ℕ
max_line_length = 80

abbrev pub max_blocks : ℕ
max_blocks = 10_000

-- `s.length`, in units of UTF-16.
unfoldable pub utf16_length : String → ℕ
utf16_length String.[] = 0
utf16_length (String.◌∷◌ c s) = (if leb 0x10000 (code c) then 2 else 1) + utf16_length s

-- The visible line.
unfoldable pub visible_line : String → String → String → String
visible_line brand text cta = cat "✶ " (cat brand (cat " — " (cat text (cat " · " cta))))

-- The creative that is stored: trimmed, and the address in lower case.
abbrev pub stored_creative : (String → String) → String → String → String → Creative
stored_creative lower brand text cta = record {
  brand = trim brand;
  text = trim text;
  cta = some (lower (trim cta));
}

abbrev pub cleaned : Result SanitizeError (Unit {0}) → Result Refusal (Unit {0})
cleaned (ok u) = ok u
cleaned (err e) = err (unclean e)

unfoldable pub validate_creative :
    (String → String) → String → String → String → Result Refusal (Unit {0})
validate_creative lower brand_in text_in cta_in =
    let brand = trim brand_in in
    let text = trim text_in in
    let cta = lower (trim cta_in) in
    throw_if (is_empty brand) no_brand
    >> throw_if (is_empty text) no_text
    >> throw_if (is_empty cta) no_cta
    >> cleaned (assert_clean (record { brand = brand; text = text; cta = some cta }))
    >> throw_if (ltb max_line_length (utf16_length (visible_line brand text cta))) line_too_long
    >> throw_if (not (is_safe_domain cta)) bad_domain

-- The daily budget is below one impression.
abbrev pub is_small : Option ℤ → ℤ → Bool
is_small none rate = false
is_small (some budget) rate = ltb_ℤ budget rate

abbrev pub are_bad : Option ℕ → Bool
are_bad none = false
are_bad (some blocks) = ltb blocks 1 || ltb max_blocks blocks

-- The price that the daily budget is compared with; it is asked for only where there is one.
abbrev pub compared_rate : Option ℤ → ℤ → Result Thrown ℤ
compared_rate none bid = ok (pos 0)
compared_rate (some budget) bid = rate_from_cpm bid

unfoldable pub new_campaign : (String → String) → String → CampaignInput → Campaign
new_campaign lower id input = record {
  id = cat "c-" id;
  advertiser_id = input.advertiser_id;
  bid_cpm = input.bid_cpm;
  rev_share_bps = default_rev_share_bps;
  creative = stored_creative lower input.brand input.text input.cta;
  status = CampaignStatus.paused;
  frequency_cap = 0;
  daily_budget_stroops = input.daily_budget;
  blocks = input.blocks;
  pool_id = none;
  submitted_by = none;
}

abbrev pub added : Campaign → Map Campaign → Result Refusal Campaign × Map Campaign
added c m = (ok c, set c.id c m)

-- The checks of `create`, but for the price that a bid high enough is asked for.
unfoldable pub check_input : (String → String) → CampaignInput → Result Refusal (Unit {0})
unfolding validate_creative
check_input lower input =
    validate_creative lower input.brand input.text input.cta
    >> throw_if (ltb_ℤ input.bid_cpm min_bid_cpm) bid_too_low

-- The checks after it.
abbrev pub check_limits : CampaignInput → ℤ → Result Refusal (Unit {0})
check_limits input rate =
    throw_if (is_small input.daily_budget rate) budget_too_small
    >> throw_if (are_bad input.blocks) bad_blocks

abbrev pub limited :
    Campaign → Result Refusal (Unit {0}) → Map Campaign → Result Refusal Campaign × Map Campaign
limited c (err e) m = (err e, m)
limited c (ok u) m = added c m

abbrev pub checked :
    Result Refusal (Unit {0})
    → (String → String)
    → String
    → CampaignInput
    → Map Campaign
    → Result Thrown (Result Refusal Campaign × Map Campaign)
checked (err e) lower id input m = ok (err e, m)
checked (ok u) lower id input m = compared_rate input.daily_budget input.bid_cpm >>= λ rate.
    ok (limited (new_campaign lower id input) (check_limits input rate) m)

unfoldable pub create :
    (String → String)
    → String
    → CampaignInput
    → Map Campaign
    → Result Thrown (Result Refusal Campaign × Map Campaign)
unfolding new_campaign
create lower id input m = checked (check_input lower input) lower id input m

pub record ProjectInput : Type 0 where
  pub sponsor_id : String
  pub pool_id : String
  pub submitted_by : String
  pub bid_cpm : ℤ
  pub brand : String
  pub text : String
  pub cta : String

unfoldable pub new_project : (String → String) → String → ProjectInput → Campaign
new_project lower id input = record {
  id = cat "c-" id;
  advertiser_id = input.sponsor_id;
  bid_cpm = input.bid_cpm;
  rev_share_bps = default_rev_share_bps;
  creative = stored_creative lower input.brand input.text input.cta;
  status = CampaignStatus.active;
  frequency_cap = 0;
  daily_budget_stroops = none;
  blocks = none;
  pool_id = some input.pool_id;
  submitted_by = some input.submitted_by;
}

unfoldable pub create_pool_project :
    (String → String)
    → String
    → ProjectInput
    → Map Campaign
    → Result Refusal Campaign × Map Campaign
unfolding new_project
create_pool_project lower id input m =
    limited (new_project lower id input) (validate_creative lower input.brand input.text input.cta)
      m

abbrev pub status_at :
    Option Campaign
    → String
    → String
    → CampaignStatus
    → Map Campaign
    → Result Refusal Campaign × Map Campaign
status_at none id advertiser_id status m = (err not_found, m)
status_at (some c) id advertiser_id status m =
    let changed : Campaign = record c { status = status } in
    if same c.advertiser_id advertiser_id
    then (ok changed, set id changed m)
    else (err not_found, m)

unfoldable pub set_status :
    String → String → CampaignStatus → Map Campaign → Result Refusal Campaign × Map Campaign
set_status id advertiser_id status m = status_at (get id m) id advertiser_id status m

unfoldable pub for_advertiser : String → Map Campaign → List Campaign
for_advertiser advertiser_id m =
    keep (λ (c : Campaign). same c.advertiser_id advertiser_id) (values m)

unfoldable pub for_pool : String → Map Campaign → List Campaign
for_pool pool_id m = keep (λ (c : Campaign). same_pool c.pool_id (some pool_id)) (values m)
