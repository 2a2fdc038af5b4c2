-- ===== src/Ingest/Answers.antt =====
-- What an accepted impression fulfils, and what is saved of it.
use dwell.Base.{
  ◌≤◌, String, true, false, ◌≡◌, refl, ap, Option, none, some, [], ◌∷◌, ◌++◌, is_some, same_refl,
  ◌∙◌, if◌then◌else◌, arith,
}
use dwell.Base.Map.{get, get-set}
use dwell.Ingest.Versions.{is_older}
use dwell.Ingest.{
  ImpressionState, Reason, is_statusline, ImpressionEvent, StoredImpression, DeliveredAd, Deps,
  Intake, seen, validate, build, consume, accepted, duplicate, ingest_checked, ingest_one,
}
use dwell.Ingest.Nonces.{Passed, validate-Passed}

-- The checks that look at the event alone.
pub record Plain (d : Deps) (ev : ImpressionEvent) : Type 0 where
  pub recent : is_older ev.client_version d.min_client_version ≡ false
  pub measurable : is_statusline ev.surface ≡ true
  pub long_enough : d.min_impression_ms ≤ ev.duration_ms

validate-Plain :
    (d : Deps) (publisher_id : String) (ev : ImpressionEvent) (s : Intake)
    → validate d publisher_id ev s ≡ none
    → Plain d ev
unfolding validate
validate-Plain d publisher_id ev s h = record {
  recent = ground (arith, h);
  measurable = ground (arith, h);
  long_enough = ground (arith, h);
}

-- What `ingest` saves of an event that it accepts: pending, at the price and the share of the
-- delivery, which were frozen when the ad was delivered.
abbrev pub kept : Deps → String → Option String → ImpressionEvent → DeliveredAd → StoredImpression
kept d publisher_id ip_hash ev delivery = record {
  id = ev.id;
  publisher_id = publisher_id;
  campaign_id = ev.campaign_id;
  advertiser_id = delivery.advertiser_id;
  session_id = ev.session_id;
  nonce = ev.nonce;
  duration_ms = ev.duration_ms;
  rate_stroops = delivery.rate;
  rev_share_bps = delivery.rev_share_bps;
  client_ts = ev.client_ts;
  server_ts = d.now;
  project_key = ev.project_key;
  client_version = ev.client_version;
  ip_hash = ip_hash;
  state = ImpressionState.pending;
  reject_reason = none;
}

-- What an event that passes every check fulfils, what is saved of it, and that its nonce is used up.
abbrev pub Passes : Deps → String → Option String → ImpressionEvent → Intake → Intake → Type 0
Passes d publisher_id ip_hash ev s s1 =
    Plain d ev
    × ((p : Passed d publisher_id ev s) × (s1.saved
          ≡ s.saved ++ (kept d publisher_id ip_hash ev p.delivery ∷ []))
        × (get ev.nonce s1.deliveries ≡ some (record p.delivery { consumed = true })))

-- An accepted event passes every check, and its id was not known from this publisher.
abbrev pub Accepts : Deps → String → Option String → ImpressionEvent → Intake → Intake → Type 0
Accepts d publisher_id ip_hash ev s s1 =
    (seen publisher_id ev.id s ≡ none) × Passes d publisher_id ip_hash ev s s1

checked-Passes :
    (reason : Option Reason) (d : Deps) (publisher_id : String) (ip_hash : Option String)
    (ev : ImpressionEvent) (s : Intake)
    → validate d publisher_id ev s ≡ reason
    → (ingest_checked reason d publisher_id ip_hash ev s).0 ≡ accepted ev.id
    → Passes d publisher_id ip_hash ev s (ingest_checked reason d publisher_id ip_hash ev s).1
checked-Passes (some reason) d publisher_id ip_hash ev s e h = cc
checked-Passes none d publisher_id ip_hash ev s e h =
    let p = validate-Passed d publisher_id ev s e in
    let used : DeliveredAd = record p.delivery { consumed = true } in
    (
      validate-Plain d publisher_id ev s e,
      (
        p,
        ap
            (λ found.
              s.saved ++ (build d publisher_id ip_hash ev found ImpressionState.pending none ∷ []))
            p.found,
        ap (λ found. get ev.nonce (consume ev.nonce found s.deliveries)) p.found
            ∙ get-set ev.nonce ev.nonce used s.deliveries
            ∙ ap (λ b. if b then some used else get ev.nonce s.deliveries) (same_refl ev.nonce),
      ),
    )

-- An event is accepted only if its id was not known from this publisher, the client is recent enough,
-- the surface is the status line, it was shown long enough, its nonce was delivered to this publisher
-- for this campaign, is unused and has not expired, it was not shown for longer than the time since
-- the delivery and the slack, and the client's clock is within a day of the server's; it is saved
-- once, as pending, with the price and the share of the delivery, and the nonce is used up.
pub ingest_one-Accepts :
    (d : Deps) (publisher_id : String) (ip_hash : Option String) (ev : ImpressionEvent) (s : Intake)
    → (ingest_one d publisher_id ip_hash ev s).0 ≡ accepted ev.id
    → Accepts d publisher_id ip_hash ev s (ingest_one d publisher_id ip_hash ev s).1
unfolding ingest_one
ingest_one-Accepts d publisher_id ip_hash ev s h = by_seen (seen publisher_id ev.id s) refl h
  where
    by_seen :
        (known : Option StoredImpression)
        → seen publisher_id ev.id s ≡ known
        → (if is_some known
            then (duplicate ev.id, s)
            else ingest_checked (validate d publisher_id ev s) d publisher_id ip_hash ev s).0
          ≡ accepted ev.id
        → Accepts d publisher_id ip_hash ev s
            (if is_some known
              then (duplicate ev.id, s)
              else ingest_checked (validate d publisher_id ev s) d publisher_id ip_hash ev s).1
    by_seen (some imp) e h = cc
    by_seen none e h =
        (e, checked-Passes (validate d publisher_id ev s) d publisher_id ip_hash ev s refl h)
