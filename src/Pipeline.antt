-- ===== src/Pipeline.antt =====
-- packages/server/src/pipeline.ts: selection, intake, verification and ledger in one state.
-- `#deliveries` and `#impressions` are the intake's; the key `publisher|id` of an impression is the
-- pair. One call reads one time. Copies for the disk are not modelled.
pub mod Serving
pub mod Verification
pub mod Sums
pub mod Reservations
pub mod Paid
pub mod Final
pub mod Reported
pub mod Tests
use dwell.Base.{
  ℕ, zero, suc, ◌+◌, ◌-◌, ◌*◌, ◌%◌, String, Bool, true, false, not, ◌&&◌, ◌||◌, Option, none, some,
  List, [], ◌∷◌, ◌++◌, Result, ok, err, ◌>>=◌, keep, any, map, is_some, or_else, same, ltb, leb,
  if◌then◌else◌,
}
use dwell.Base.Int.{ℤ, pos, ◌+ℤ◌, ltb_ℤ}
use dwell.Base.Map.{Map, get, set, delete, has, values}
use dwell.Thrown.{Thrown}
use dwell.Money.{stroops, add, sub}
use dwell.Ledger.Accounts.{advertiser, owned_account}
use dwell.Ledger.Entry.{Entry}
use dwell.Ledger.Store.{Env, balance}
use dwell.Ledger.Operations.{Ledger, Impression, post_impression}
use dwell.Ledger.Billed.{billed_impressions}
use dwell.Ingest.{ImpressionState, StoredImpression, DeliveredAd, Intake, Reason, day_ms}
use dwell.Selector
use dwell.Selector.{AdSelection, Campaign, Selector, select, return_slots}
use dwell.Verify
use dwell.Verify.{Verdict, evaluate, is_verified, is_rejected, is_pending}

-- `PipelineOptions`, with the answers of the injected functions during one call.
pub record Options : Type 0 where
  pub now : ℕ
  pub random_hex : String
  pub tie : String → String → Bool
  pub new_id : ℕ → String
  pub campaigns : List Campaign
  pub reserve_cpm : Option ℤ
  pub pending_ms : ℕ
  pub daily_cap : ℕ
  pub is_datacenter_ip : Option String → Bool
  pub low_variation : List ℕ → Bool
  pub pool_of : String → Option String
  pub pool_allows : String → String → ℤ → Bool
  pub reserved_for_pools : String → ℤ

pub record Ban : Type 0 where
  pub publisher_id : String
  pub reason : String
  pub at : ℕ

pub record Pipeline : Type 0 where
  pub intake : Intake
  pub returned : List String
  pub bans : Map Ban
  pub selector : Selector
  pub ledger : Ledger

-- Not reported, and may still be: it holds a reservation.
abbrev pub is_open : ℕ → DeliveredAd → Bool
is_open now d = not d.consumed && leb now d.expires_at

abbrev pub is_waiting : ImpressionState → Bool
is_waiting ImpressionState.pending = true
is_waiting ImpressionState.verified = false
is_waiting ImpressionState.rejected = false

abbrev pub is_billed : ImpressionState → Bool
is_billed ImpressionState.pending = false
is_billed ImpressionState.verified = true
is_billed ImpressionState.rejected = false

-- A loop that adds up the amounts of the elements that a test holds for.
unfoldable pub add_each {ℓ} : {A : Type ℓ} → (A → Bool) → (A → ℤ) → List A → ℤ → Result Thrown ℤ
add_each test amount [] acc = ok acc
add_each test amount (x ∷ xs) acc =
    if test x
    then (do v ← stroops (amount x); acc' ← add acc v; add_each test amount xs acc')
    else add_each test amount xs acc

-- A loop that counts the elements that a test holds for.
unfoldable pub count_each {ℓ} : {A : Type ℓ} → (A → Bool) → List A → ℕ → ℕ
count_each test [] n = n
count_each test (x ∷ xs) n = count_each test xs (if test x then suc n else n)

abbrev pub reserves : String → ℕ → DeliveredAd → Bool
reserves advertiser_id now d = same d.advertiser_id advertiser_id && is_open now d

abbrev pub awaits : String → StoredImpression → Bool
awaits advertiser_id i = same i.advertiser_id advertiser_id && is_waiting i.state

-- `spendable`
unfoldable pub spendable : ℕ → String → Pipeline → Result Thrown ℤ
unfolding add_each
spendable now advertiser_id p = do
  account ← owned_account advertiser advertiser_id
  held ← balance account p.ledger.store
  delivered ←
      add_each (reserves advertiser_id now) (λ (d : DeliveredAd). d.rate)
        (values p.intake.deliveries) (pos 0)
  reserved ←
      add_each (awaits advertiser_id) (λ (i : StoredImpression). i.rate_stroops) p.intake.saved
        delivered
  left ← sub held reserved
  ok (if ltb_ℤ (pos 0) left then left else pos 0)

abbrev pub day_start : ℕ → ℕ
day_start now = now - now % day_ms

abbrev pub in_day : ℕ → ℕ → Bool
in_day start ts = leb start ts && ltb ts (start + day_ms)

unfoldable pub spent_today : ℕ → String → Pipeline → Result Thrown ℤ
unfolding add_each
spent_today now campaign_id p =
    add_each
      (λ (i : StoredImpression).
        same i.campaign_id campaign_id
        && (is_waiting i.state || is_billed i.state)
        && in_day (day_start now) i.server_ts)
      (λ (i : StoredImpression). i.rate_stroops) p.intake.saved (pos 0)

-- `campaignIds.has(id)`
abbrev pub among : List String → String → Bool
among ids id = any (λ x. same x id) ids

unfoldable pub spent_on : ℕ → List String → Pipeline → Result Thrown ℤ
unfolding add_each
spent_on now campaign_ids p = do
  delivered ←
      add_each (λ (d : DeliveredAd). among campaign_ids d.campaign_id && is_open now d)
        (λ (d : DeliveredAd). d.rate) (values p.intake.deliveries) (pos 0)
  add_each
      (λ (i : StoredImpression).
        among campaign_ids i.campaign_id && (is_waiting i.state || is_billed i.state))
      (λ (i : StoredImpression). i.rate_stroops) p.intake.saved delivered

-- `committedImpressions`; the ledger's cache that it fills is left out.
unfoldable pub committed_impressions : ℕ → String → Pipeline → ℤ
unfolding billed_impressions count_each
committed_impressions now campaign_id p =
    (billed_impressions campaign_id p.ledger).0
    +ℤ pos (
        count_each (λ (i : StoredImpression). same i.campaign_id campaign_id && is_waiting i.state)
          p.intake.saved
          (count_each (λ (d : DeliveredAd). same d.campaign_id campaign_id && is_open now d)
            (values p.intake.deliveries) 0))

unfoldable pub served_today : ℕ → String → List String → Pipeline → ℕ
unfolding count_each
served_today now publisher_id campaign_ids p =
    count_each
      (λ (i : StoredImpression).
        same i.publisher_id publisher_id
        && among campaign_ids i.campaign_id
        && (is_waiting i.state || is_billed i.state)
        && leb (day_start now) i.server_ts)
      p.intake.saved
      (count_each
        (λ (d : DeliveredAd).
          same d.publisher_id publisher_id && among campaign_ids d.campaign_id && is_open now d)
        (values p.intake.deliveries) 0)
