-- ===== src/Ingest/Tests.antt =====
-- One delivery, reported twice under two ids.
use dwell.Base.{◌≤◌, String, false, refl, none, List, [], ◌∷◌}
use dwell.Base.Int.{pos}
use dwell.Base.Map.{Map, get, set}
use dwell.Ingest.Versions.{before_dash, numbers, older_in, is_older}
use dwell.Ingest.{
  Surface, ImpressionEvent, DeliveredAd, Deps, Intake, seen, validate_delivery, validate,
  ingest_one,
}
use dwell.Ingest.Nonces.{Report, run, uses, run-uses}
use dwell.Ingest.Answers.{Accepts, ingest_one-Accepts}

abbrev deps : Deps
deps = record {
  now = 100_000_000;
  min_impression_ms = 10_000;
  min_client_version = "0.1.0";
  nonce_ttl_ms = 300_000;
}

abbrev event : String → ImpressionEvent
event id = record {
  id = id;
  campaign_id = "c";
  nonce = "n";
  session_id = "s";
  surface = Surface.statusline;
  duration_ms = 15_000;
  client_ts = 100_000_000;
  client_version = "0.2.10-beta";
  project_key = "p";
}

abbrev delivered : Map DeliveredAd
delivered =
    (
      "n",
      record {
        publisher_id = "bob";
        campaign_id = "c";
        advertiser_id = "acme";
        rate = pos 7;
        rev_share_bps = pos 5000;
        expires_at = 100_200_000;
        consumed = false;
      },
    )
    ∷ []

abbrev start : Intake
start = record { deliveries = delivered; saved = [] }

abbrev reports : List Report
reports =
    record {
      deps = deps;
      publisher_id = "bob";
      ip_hash = none;
      events = event "i1" ∷ event "i2" ∷ [];
    }
    ∷ []

run-uses_example : uses "n" (run reports start) ≤ 1
run-uses_example = run-uses reports delivered "n"

ingest_one-Accepts_example :
    Accepts deps "bob" none (event "i1") start (ingest_one deps "bob" none (event "i1") start).1
unfolding ingest_one seen validate validate_delivery is_older older_in numbers before_dash get set
ingest_one-Accepts_example = ingest_one-Accepts deps "bob" none (event "i1") start refl
