-- ===== src/Verify.antt =====
-- packages/server/src/impressions/verify.ts: the verdict on a stored impression.
-- Whether the gaps between impressions vary too little is floating-point arithmetic: `low_variation`
-- is a parameter, the test `cv < 0.05`.
pub mod Verdicts
use dwell.Base.{
  ℕ, ◌+◌, ◌-◌, String, Bool, true, false, not, ◌&&◌, Option, none, some, List, [], ◌∷◌, ◌++◌,
  Result, ok, err, ◌>>=◌, keep, map, length, same, or_else, ltb, leb, if◌then◌else◌,
}
use dwell.Base.Int.{ℤ, pos}
use dwell.Base.Sort.{sort_by}
use dwell.Thrown.{Thrown}
use dwell.Money.{stroops, add}
use dwell.Ingest.{ImpressionState, StoredImpression, Reason}

pub record Deps : Type 0 where
  pub now : ℕ
  pub pending_ms : ℕ
  pub daily_cap : ℕ
  pub count_today : String → ℕ → ℕ
  pub is_datacenter_ip : Option String → Bool
  pub is_banned : String → Bool
  pub low_variation : List ℕ → Bool

-- `VerifyOutcome`, which carries the impression besides.
pub data Verdict : Type 0 where
  is_verified : Verdict
  is_rejected : Reason → Verdict
  is_pending : ℕ → Verdict

-- The times of the publisher's impressions, this one's among them, in order.
pub times_of : StoredImpression → List StoredImpression → List ℕ
times_of imp siblings =
    sort_by (λ a b. ltb a b)
      (map (λ (s : StoredImpression). s.server_ts)
          (keep
            (λ (s : StoredImpression).
              same s.publisher_id imp.publisher_id && not (same s.id imp.id))
            siblings)
        ++ (imp.server_ts ∷ []))

-- `sameSession.slice(1).map((t, i) => t - sameSession[i])`
abbrev pub gaps_from : ℕ → List ℕ → List ℕ
gaps_from before [] = []
gaps_from before (t ∷ ts) = (t - before) ∷ gaps_from t ts

abbrev pub gaps : List ℕ → List ℕ
gaps [] = []
gaps (t ∷ ts) = gaps_from t ts

abbrev pub sum_of : List ℕ → ℕ
sum_of [] = 0
sum_of (n ∷ ns) = n + sum_of ns

-- The third rule: at least six impressions, a mean above zero, and little variation.
pub is_regular : Deps → StoredImpression → List StoredImpression → Bool
unfolding times_of
is_regular d imp siblings =
    let times = times_of imp siblings in
    leb 6 (length times) && ltb 0 (sum_of (gaps times)) && d.low_variation (gaps times)

-- `#anomaly`
unfoldable pub anomaly : Deps → StoredImpression → List StoredImpression → Option Reason
anomaly d imp siblings =
    if leb d.daily_cap (d.count_today imp.publisher_id imp.server_ts)
    then some (Reason.daily_cap_reached d.daily_cap)
    else if d.is_datacenter_ip imp.ip_hash
    then some Reason.datacenter_ip
    else if is_regular d imp siblings
    then some Reason.too_regular
    else none

abbrev pub verdict_of : Option Reason → Verdict
verdict_of none = is_verified
verdict_of (some reason) = is_rejected reason

-- `evaluate` of an impression in a state.
unfoldable pub evaluate_in :
    ImpressionState → Deps → StoredImpression → List StoredImpression → Verdict
unfolding anomaly
evaluate_in ImpressionState.verified d imp siblings = is_verified
evaluate_in ImpressionState.rejected d imp siblings =
    is_rejected (or_else imp.reject_reason Reason.already_rejected)
evaluate_in ImpressionState.pending d imp siblings =
    let ready_at = imp.server_ts + d.pending_ms in
    if d.is_banned imp.publisher_id
    then is_rejected Reason.banned
    else if ltb d.now ready_at
    then is_pending ready_at
    else verdict_of (anomaly d imp siblings)

unfoldable pub evaluate : Deps → StoredImpression → List StoredImpression → Verdict
unfolding evaluate_in
evaluate d imp siblings = evaluate_in imp.state d imp siblings

-- `totalValue`, from a sum so far.
pub total_value_from : ℤ → List StoredImpression → Result Thrown ℤ
total_value_from t [] = ok t
total_value_from t (i ∷ is) = do
  rate ← stroops i.rate_stroops
  t' ← add t rate
  total_value_from t' is

pub total_value : List StoredImpression → Result Thrown ℤ
unfolding total_value_from
total_value imps = total_value_from (pos 0) imps
