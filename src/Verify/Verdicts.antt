-- ===== src/Verify/Verdicts.antt =====
-- When a pending impression is verified.
use dwell.Base.{◌+◌, ◌≤◌, ◌<◌, false, List, ◌≡◌, ◌↔◌, subst, sym, arith}
use dwell.Ingest.{ImpressionState, StoredImpression}
use dwell.Verify.{Deps, is_verified, is_regular, anomaly, evaluate, evaluate_in}

-- The conditions of a verified impression.
abbrev pub IsDue : Deps → StoredImpression → List StoredImpression → Type 0
IsDue d imp siblings =
    (d.is_banned imp.publisher_id ≡ false)
    × (imp.server_ts + d.pending_ms ≤ d.now)
    × (d.count_today imp.publisher_id imp.server_ts < d.daily_cap)
    × (d.is_datacenter_ip imp.ip_hash ≡ false)
    × (is_regular d imp siblings ≡ false)

verified-IsDue :
    (d : Deps) (imp : StoredImpression) (siblings : List StoredImpression)
    → evaluate_in ImpressionState.pending d imp siblings ≡ is_verified
    → IsDue d imp siblings
unfolding evaluate_in anomaly
verified-IsDue d imp siblings h = ground (arith, h)

due_verified :
    (d : Deps) (imp : StoredImpression) (siblings : List StoredImpression)
    → IsDue d imp siblings
    → evaluate_in ImpressionState.pending d imp siblings ≡ is_verified
unfolding evaluate_in anomaly
due_verified d imp siblings h = ground (arith, h)

-- A pending impression is verified exactly when its publisher is not banned, its waiting time is
-- over, the publisher is below the daily cap, the address is not of a data center, and the intervals
-- are not too regular.
pub evaluate_verified :
    (d : Deps) (imp : StoredImpression) (siblings : List StoredImpression)
    → imp.state ≡ ImpressionState.pending
    → (evaluate d imp siblings ≡ is_verified) ↔ IsDue d imp siblings
unfolding evaluate
evaluate_verified d imp siblings waiting =
    subst (λ s. (evaluate_in s d imp siblings ≡ is_verified) ↔ IsDue d imp siblings) (sym waiting)
      (verified-IsDue d imp siblings, due_verified d imp siblings)
