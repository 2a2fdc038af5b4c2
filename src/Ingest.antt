-- ===== src/Ingest.antt =====
-- packages/server/src/impressions/ingest.ts: which reported impressions are accepted.
-- The injected `findDelivery`, `seen`, `save` and `consume` work on the state `Intake`: the delivered
-- ads by nonce, and what was saved, in order. The tests are in the order of the source.
pub mod Versions
pub mod Nonces
pub mod Answers
pub mod Tests
use dwell.Base.{
  ℕ, ◌+◌, String, Bool, true, false, not, ◌&&◌, ◌||◌, Option, none, some, List, [], ◌∷◌, ◌++◌, find,
  is_some, same, ltb, if◌then◌else◌,
}
use dwell.Base.Int.{ℤ, pos}
use dwell.Base.Map.{Map, get, set}
use dwell.Ingest.Versions.{is_older}

pub data ImpressionState : Type 0 where
  pending verified rejected : ImpressionState

-- `Surface`
pub data Surface : Type 0 where
  statusline spinner_verb spinner_tip : Surface

abbrev pub is_statusline : Surface → Bool
is_statusline statusline = true
is_statusline spinner_verb = false
is_statusline spinner_tip = false

-- The reasons of `#validate`, and in the last lines those of the verification (verify.ts), with the
-- numbers that their texts hold.
pub data Reason : Type 0 where
  client_too_old : String → Reason
  unmeasurable_surface : Surface → Reason
  too_short : ℕ → Reason
  nonce_unknown nonce_used nonce_expired other_publisher other_campaign : Reason
  longer_than_delivered : ℕ → Reason
  clock_skew : Reason
  banned datacenter_ip too_regular already_rejected : Reason
  daily_cap_reached : ℕ → Reason

-- `ImpressionEvent`
pub record ImpressionEvent : Type 0 where
  pub id : String
  pub campaign_id : String
  pub nonce : String
  pub session_id : String
  pub surface : Surface
  pub duration_ms : ℕ
  pub client_ts : ℕ
  pub client_version : String
  pub project_key : String

pub record StoredImpression : Type 0 where
  pub id : String
  pub publisher_id : String
  pub campaign_id : String
  pub advertiser_id : String
  pub session_id : String
  pub nonce : String
  pub duration_ms : ℕ
  pub rate_stroops : ℤ
  pub rev_share_bps : ℤ
  pub client_ts : ℕ
  pub server_ts : ℕ
  pub project_key : String
  pub client_version : String
  pub ip_hash : Option String
  pub state : ImpressionState
  pub reject_reason : Option Reason

pub record DeliveredAd : Type 0 where
  pub publisher_id : String
  pub campaign_id : String
  pub advertiser_id : String
  pub rate : ℤ
  pub rev_share_bps : ℤ
  pub expires_at : ℕ
  pub consumed : Bool

pub record Deps : Type 0 where
  pub now : ℕ
  pub min_impression_ms : ℕ
  pub min_client_version : String
  pub nonce_ttl_ms : ℕ

abbrev pub duration_slack_ms : ℕ
duration_slack_ms = 2_000

abbrev pub day_ms : ℕ
day_ms = 86_400_000

pub record Intake : Type 0 where
  pub deliveries : Map DeliveredAd
  pub saved : List StoredImpression

-- `seen(publisherId, id)`
unfoldable pub seen : String → String → Intake → Option StoredImpression
seen publisher_id id s = find (λ imp. same imp.publisher_id publisher_id && same imp.id id) s.saved

-- `#validate` once the delivery is known. The time since the delivery is
-- `now - (expiresAt - nonceTtlMs)`; the comparison with it is written as one of sums.
unfoldable pub validate_delivery : Deps → String → ImpressionEvent → DeliveredAd → Option Reason
validate_delivery d publisher_id ev delivery =
    if delivery.consumed
    then some nonce_used
    else if ltb delivery.expires_at d.now
    then some nonce_expired
    else if not (same delivery.publisher_id publisher_id)
    then some other_publisher
    else if not (same delivery.campaign_id ev.campaign_id)
    then some other_campaign
    else if ltb (d.now + d.nonce_ttl_ms + duration_slack_ms) (ev.duration_ms + delivery.expires_at)
    then some (longer_than_delivered ev.duration_ms)
    else if ltb (d.now + day_ms) ev.client_ts || ltb (ev.client_ts + day_ms) d.now
    then some clock_skew
    else none

abbrev pub validate_found : Option DeliveredAd → Deps → String → ImpressionEvent → Option Reason
validate_found none d publisher_id ev = some nonce_unknown
validate_found (some delivery) d publisher_id ev = validate_delivery d publisher_id ev delivery

-- `#validate`
unfoldable pub validate : Deps → String → ImpressionEvent → Intake → Option Reason
validate d publisher_id ev s =
    if is_older ev.client_version d.min_client_version
    then some (client_too_old ev.client_version)
    else if not (is_statusline ev.surface)
    then some (unmeasurable_surface ev.surface)
    else if ltb ev.duration_ms d.min_impression_ms
    then some (too_short ev.duration_ms)
    else validate_found (get ev.nonce s.deliveries) d publisher_id ev

abbrev pub advertiser_of : Option DeliveredAd → String
advertiser_of none = ""
advertiser_of (some delivery) = delivery.advertiser_id

abbrev pub rate_of : Option DeliveredAd → ℤ
rate_of none = pos 0
rate_of (some delivery) = delivery.rate

abbrev pub share_of : Option DeliveredAd → ℤ
share_of none = pos 0
share_of (some delivery) = delivery.rev_share_bps

-- `#build`: the price and the share are the delivery's.
abbrev pub build :
    Deps
    → String
    → Option String
    → ImpressionEvent
    → Option DeliveredAd
    → ImpressionState
    → Option Reason
    → StoredImpression
build d publisher_id ip_hash ev delivery state reason = record {
  id = ev.id;
  publisher_id = publisher_id;
  campaign_id = ev.campaign_id;
  advertiser_id = advertiser_of delivery;
  session_id = ev.session_id;
  nonce = ev.nonce;
  duration_ms = ev.duration_ms;
  rate_stroops = rate_of delivery;
  rev_share_bps = share_of delivery;
  client_ts = ev.client_ts;
  server_ts = d.now;
  project_key = ev.project_key;
  client_version = ev.client_version;
  ip_hash = ip_hash;
  state = state;
  reject_reason = reason;
}

-- What `ingest` does with one event.
pub data Answer : Type 0 where
  accepted duplicate : String → Answer
  refused : String → Reason → Answer

-- `delivery.consumed = true`
abbrev pub consume : String → Option DeliveredAd → Map DeliveredAd → Map DeliveredAd
consume nonce none m = m
consume nonce (some delivery) m = set nonce (record delivery { consumed = true }) m

abbrev pub ingest_checked :
    Option Reason → Deps → String → Option String → ImpressionEvent → Intake → Answer × Intake
ingest_checked (some reason) d publisher_id ip_hash ev s =
    let delivery = get ev.nonce s.deliveries in
    (
      refused ev.id reason,
      record s {
        saved =
            s.saved
            ++ (build d publisher_id ip_hash ev delivery ImpressionState.rejected (some reason)
                ∷ []);
      },
    )
ingest_checked none d publisher_id ip_hash ev s =
    let delivery = get ev.nonce s.deliveries in
    (
      accepted ev.id,
      record {
        deliveries = consume ev.nonce delivery s.deliveries;
        saved =
            s.saved ++ (build d publisher_id ip_hash ev delivery ImpressionState.pending none ∷ []);
      },
    )

-- One round of the loop in `ingest`.
unfoldable pub ingest_one :
    Deps → String → Option String → ImpressionEvent → Intake → Answer × Intake
ingest_one d publisher_id ip_hash ev s =
    if is_some (seen publisher_id ev.id s)
    then (duplicate ev.id, s)
    else ingest_checked (validate d publisher_id ev s) d publisher_id ip_hash ev s

-- `ingest`: the answers in order, which the source sorts into three lists.
pub ingest : Deps → String → Option String → List ImpressionEvent → Intake → List Answer × Intake
ingest d publisher_id ip_hash [] s = ([], s)
ingest d publisher_id ip_hash (ev ∷ events) s =
    let (answer, s1) = ingest_one d publisher_id ip_hash ev s in
    let (answers, s2) = ingest d publisher_id ip_hash events s1 in (answer ∷ answers, s2)
