-- ===== src/Campaigns/Tests.antt =====
-- Runs of the campaign store, with a lower case that changes nothing.
use dwell.Base.{ℕ, String, Option, none, some, [], ◌∷◌, Result, ◌≡◌, if◌then◌else◌, same}
use dwell.Base.Int.{pos}
use dwell.Base.Map.{Map, get}
use dwell.Selector.{Campaign, CampaignStatus}
use dwell.Campaigns.{CampaignInput, new_campaign, set_status}
use dwell.Campaigns.Status.{with_status, set_status_lem}

abbrev unchanged : String → String
unchanged s = s

abbrev input : CampaignInput
input = record {
  advertiser_id = "acme";
  brand = " Acme ";
  text = "Ship it";
  cta = "acme.dev";
  bid_cpm = pos 2_000_000;
  daily_budget = some (pos 2_000);
  blocks = some 3;
}

abbrev made : Campaign
made = new_campaign unchanged "1" input

set_status_lem_example :
    get "c-1" (set_status "c-1" "beta" CampaignStatus.active ((made.id, made) ∷ [])).1 ≡ (
      if same "c-1" "c-1"
      then with_status (get "c-1" ((made.id, made) ∷ [])) "beta" CampaignStatus.active
      else get "c-1" ((made.id, made) ∷ []))
set_status_lem_example =
    set_status_lem "c-1" "beta" CampaignStatus.active "c-1" ((made.id, made) ∷ [])
