-- ===== src/Pipeline/Serving.antt =====
-- `serveAd`: expired slots go back to the tour, an ad is selected, and its delivery is recorded.
-- What a call that throws leaves behind is not modelled.
use dwell.Base.{
  ℕ, ◌+◌, String, Bool, false, not, ◌&&◌, Option, none, some, List, ◌++◌, Result, ok, ◌>>=◌, keep,
  map, same, ltb, if◌then◌else◌,
}
use dwell.Base.Map.{set, has}
use dwell.Thrown.{Thrown}
use dwell.Ingest.{DeliveredAd}
use dwell.Selector
use dwell.Selector.{AdSelection, Campaign, Selector, select, return_slots}
use dwell.Pipeline.{Options, Pipeline, spendable, spent_today, committed_impressions, among}

-- The functions that the constructor gives to `AdSelector`.
unfoldable pub selector_deps : Options → Pipeline → dwell.Selector.Deps
selector_deps o p = record {
  now = o.now;
  random_hex = o.random_hex;
  tie = o.tie;
  campaigns = o.campaigns;
  spendable_balance = λ advertiser_id. spendable o.now advertiser_id p;
  spent_today = λ campaign_id. spent_today o.now campaign_id p;
  committed_impressions = some (λ campaign_id. committed_impressions o.now campaign_id p);
  pool_of = o.pool_of;
  pool_allows = o.pool_allows;
  reserved_for_pools = o.reserved_for_pools;
  nonce_ttl_ms = none;
  reserve_cpm = o.reserve_cpm;
}

-- An expired delivery of the publisher whose slot was not given back.
abbrev pub is_expired : ℕ → String → List String → String × DeliveredAd → Bool
is_expired now publisher_id returned entry =
    same entry.1.publisher_id publisher_id
    && not entry.1.consumed
    && ltb entry.1.expires_at now
    && not (among returned entry.0)

-- `#returnExpiredSlots`
unfoldable pub return_expired_slots : ℕ → String → Pipeline → Pipeline
return_expired_slots now publisher_id p =
    let expired = keep (is_expired now publisher_id p.returned) p.intake.deliveries in
    record p {
      returned = p.returned ++ map (λ (e : String × DeliveredAd). e.0) expired;
      selector =
          return_slots p.selector publisher_id
            (map (λ (e : String × DeliveredAd). e.1.campaign_id) expired);
    }

-- An hour after its time a delivery is dropped.
abbrev pub is_stale : ℕ → DeliveredAd → Bool
is_stale now d = ltb (d.expires_at + 3_600_000) now

-- `#gcDeliveries`
unfoldable pub gc_deliveries : ℕ → Pipeline → Pipeline
gc_deliveries now p =
    let stale =
      map (λ (e : String × DeliveredAd). e.0)
        (keep (λ (e : String × DeliveredAd). is_stale now e.1) p.intake.deliveries) in
    record p {
      intake = record {
        deliveries =
            keep (λ (e : String × DeliveredAd). not (is_stale now e.1)) p.intake.deliveries;
        saved = p.intake.saved;
      };
      returned = keep (λ nonce. not (among stale nonce)) p.returned;
    }

-- The delivery of a selection: its price and share are those of this moment.
abbrev pub delivery_of : String → AdSelection → DeliveredAd
delivery_of publisher_id sel = record {
  publisher_id = publisher_id;
  campaign_id = sel.campaign.id;
  advertiser_id = sel.campaign.advertiser_id;
  rate = sel.rate;
  rev_share_bps = sel.campaign.rev_share_bps;
  expires_at = sel.nonce_expires_at;
  consumed = false;
}

unfoldable pub deliver : ℕ → String → AdSelection → Pipeline → Pipeline
unfolding gc_deliveries
deliver now publisher_id sel p = gc_deliveries now (record p {
  intake = record {
    deliveries = set sel.nonce (delivery_of publisher_id sel) p.intake.deliveries;
    saved = p.intake.saved;
  };
})

-- `serveAd` after the selection.
abbrev pub serve_selected :
    Options → String → Pipeline → Option AdSelection × Selector → Option AdSelection × Pipeline
serve_selected o publisher_id p (none, s) = (none, record p { selector = s })
serve_selected o publisher_id p (some sel, s) =
    (some sel, deliver o.now publisher_id sel (record p { selector = s }))

unfoldable pub serve_ad :
    Options → String → Pipeline → Result Thrown (Option AdSelection × Pipeline)
unfolding selector_deps return_expired_slots
serve_ad o publisher_id p =
    let p1 = return_expired_slots o.now publisher_id p in
    let selected = select (selector_deps o p1) p1.selector publisher_id in
    if has publisher_id p.bans
    then ok (none, p)
    else selected >>= λ r. ok (serve_selected o publisher_id p1 r)
