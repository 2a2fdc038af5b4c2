-- ===== src/Pipeline/Verification.antt =====
-- `runVerification`, and the bans. A throw of the ledger ends the run; what was written before it
-- stays.
use dwell.Base.{
  ℕ, suc, String, Bool, ◌&&◌, some, List, [], ◌∷◌, Result, ok, err, same, if◌then◌else◌,
}
use dwell.Base.Int.{ℤ}
use dwell.Base.Map.{set, delete, has}
use dwell.Thrown.{Thrown}
use dwell.Money.{stroops}
use dwell.Ledger.Entry.{Entry}
use dwell.Ledger.Store.{Env}
use dwell.Ledger.Operations.{Ledger, Impression, post_impression}
use dwell.Ingest.{ImpressionState, StoredImpression}
use dwell.Verify
use dwell.Verify.{Verdict, evaluate, is_verified, is_rejected, is_pending}
use dwell.Pipeline.{Options, Pipeline, Ban, is_waiting, is_billed, in_day, day_start, count_each}

-- `#countToday`
unfoldable pub count_today : List StoredImpression → String → ℕ → ℕ
unfolding count_each
count_today saved publisher_id at =
    count_each
      (λ (i : StoredImpression).
        same i.publisher_id publisher_id && is_billed i.state && in_day (day_start at) i.server_ts)
      saved 0

unfoldable pub verifier_deps : Options → Pipeline → dwell.Verify.Deps
unfolding count_today
verifier_deps o p = record {
  now = o.now;
  pending_ms = o.pending_ms;
  daily_cap = o.daily_cap;
  count_today = count_today p.intake.saved;
  is_datacenter_ip = o.is_datacenter_ip;
  is_banned = λ publisher_id. has publisher_id p.bans;
  low_variation = o.low_variation;
}

-- `#update`
unfoldable pub update : StoredImpression → List StoredImpression → List StoredImpression
update imp [] = imp ∷ []
update imp (i ∷ is) =
    if same i.publisher_id imp.publisher_id && same i.id imp.id then imp ∷ is else i ∷ update imp is

abbrev pub update_in : StoredImpression → Pipeline → Pipeline
update_in imp p = record p {
  intake = record { deliveries = p.intake.deliveries; saved = update imp p.intake.saved };
}

abbrev pub bill_of : StoredImpression → ℤ → Impression
bill_of imp rate = record {
  impression_id = imp.id;
  advertiser_id = imp.advertiser_id;
  publisher_id = imp.publisher_id;
  campaign_id = imp.campaign_id;
  rate = rate;
  rev_share_bps = imp.rev_share_bps;
}

abbrev pub environment : Options → Env
environment o = record { now = o.now; new_id = o.new_id }

-- The ledger's answer: the state of the impression comes after it.
abbrev pub settle_billed :
    StoredImpression
    → Pipeline
    → Result Thrown (List Entry) × Ledger
    → Result Thrown (Unit {0}) × Pipeline
settle_billed imp p (err t, l) = (err t, record p { ledger = l })
settle_billed imp p (ok entries, l) =
    (ok tt, update_in (record imp { state = ImpressionState.verified }) (record p { ledger = l }))

abbrev pub bill_at :
    Result Thrown ℤ → Options → StoredImpression → Pipeline → Result Thrown (Unit {0}) × Pipeline
bill_at (err t) o imp p = (err t, p)
bill_at (ok rate) o imp p =
    settle_billed imp p (post_impression (environment o) (bill_of imp rate) p.ledger)

unfoldable pub bill : Options → StoredImpression → Pipeline → Result Thrown (Unit {0}) × Pipeline
bill o imp p = bill_at (stroops imp.rate_stroops) o imp p

-- What one round of the loop does with a verdict.
unfoldable pub settle :
    Options → StoredImpression → Verdict → Pipeline → Result Thrown (Unit {0}) × Pipeline
unfolding bill update
settle o imp (is_pending ready_at) p = (ok tt, p)
settle o imp (is_rejected reason) p = (
  ok tt,
  update_in (record imp { state = ImpressionState.rejected; reject_reason = some reason }) p,
)
settle o imp is_verified p = bill o imp p

-- The three counters.
pub record Counts : Type 0 where
  pub verified : ℕ
  pub rejected : ℕ
  pub still_pending : ℕ

abbrev pub counted : Verdict → Counts → Counts
counted is_verified n = record n { verified = suc n.verified }
counted (is_rejected reason) n = record n { rejected = suc n.rejected }
counted (is_pending ready_at) n = record n { still_pending = suc n.still_pending }

abbrev pub Run : Type 0
Run = Result Thrown Counts × Pipeline

abbrev pub next_round : Result Thrown (Unit {0}) × Pipeline → (Pipeline → Run) → Run
next_round (err t, p) rest = (err t, p)
next_round (ok u, p) rest = rest p

-- The loop over the impressions that were there at its start, `all`.
unfoldable pub verify_each :
    Options → List StoredImpression → List StoredImpression → Counts → Pipeline → Run
unfolding settle verifier_deps
verify_each o all [] n p = (ok n, p)
verify_each o all (imp ∷ imps) n p =
    let verdict = evaluate (verifier_deps o p) imp all in
    let skipped = verify_each o all imps n p in
    let rest = verify_each o all imps (counted verdict n) in
    if is_waiting imp.state then next_round (settle o imp verdict p) rest else skipped

unfoldable pub run_verification : Options → Pipeline → Run
unfolding verify_each
run_verification o p =
    verify_each o p.intake.saved p.intake.saved
      (record { verified = 0; rejected = 0; still_pending = 0 }) p

unfoldable pub ban : ℕ → String → String → Pipeline → Ban × Pipeline
ban now publisher_id reason p =
    let b : Ban = record { publisher_id = publisher_id; reason = reason; at = now } in
    (b, record p { bans = set publisher_id b p.bans })

unfoldable pub unban : String → Pipeline → Bool × Pipeline
unban publisher_id p = (has publisher_id p.bans, record p { bans = delete publisher_id p.bans })
