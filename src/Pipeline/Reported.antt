-- ===== src/Pipeline/Reported.antt =====
-- An ad that is served and then reported.
use dwell.Base.{ℕ, ◌+◌, ◌≤◌, true, false, ◌≡◌}
use dwell.Ingest
use dwell.Ingest.{
  ImpressionEvent, StoredImpression, is_statusline, validate_found, consume, ingest_checked,
  duration_slack_ms, day_ms,
}
use dwell.Ingest.Versions.{is_older}
use dwell.Pipeline.{Pipeline}

-- A report that fits an ad served at a time: measurable, long enough and no longer than the time
-- since, while the nonce lives, by a client that is new enough and whose clock is right.
pub record Fits (d : dwell.Ingest.Deps) (served_at : ℕ) (ev : ImpressionEvent) : Type 0 where
  pub new_enough : is_older ev.client_version d.min_client_version ≡ false
  pub measurable : is_statusline ev.surface ≡ true
  pub long_enough : d.min_impression_ms ≤ ev.duration_ms
  pub after : served_at ≤ d.now
  pub in_time : d.now ≤ served_at + d.nonce_ttl_ms
  pub not_longer : ev.duration_ms + served_at ≤ d.now + 2_000
  pub not_future : ev.client_ts ≤ d.now + 86_400_000
  pub not_past : d.now ≤ ev.client_ts + 86_400_000
