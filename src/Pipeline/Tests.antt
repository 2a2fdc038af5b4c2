-- ===== src/Pipeline/Tests.antt =====
-- A run through the pipeline: a funded advertiser, an ad served, reported and billed.
use dwell.Base.{
  ℕ, ◌+◌, ◌-◌, ◌*◌, Bool, true, false, String, Option, none, some, List, [], ◌∷◌, ◌++◌, Result, ok,
  ◌≡◌, refl, All, find, same, if◌then◌else◌, ◌⊎◌, inl, inr,
}
use dwell.Base.Int.{ℤ, pos, ◌≤ℤ◌, ◌+ℤ◌}
use dwell.Base.Map.{get}
use dwell.Ledger.Accounts.{advertiser, owned_account}
use dwell.Ledger.Store.{Env, balance}
use dwell.Ledger.Operations.{Ledger, deposit, empty}
use dwell.Ingest
use dwell.Ingest.{ImpressionState, ImpressionEvent, StoredImpression, Intake, Surface, build}
use dwell.Selector.{CampaignStatus, Creative, Campaign, AdSelection, Selector}
use dwell.Pipeline.{Options, Pipeline}
use dwell.Pipeline.Serving.{serve_ad, delivery_of}
use dwell.Pipeline.Verification.{run_verification}
use dwell.Pipeline.Sums.{reserved}
use dwell.Pipeline.Reservations.{serve_ad_covered}
use dwell.Pipeline.Paid.{Paid, run_verification-Paid}
use dwell.Pipeline.Final.{stored, run_verification_final}

abbrev campaign : Campaign
campaign = record {
  id = "c-1";
  advertiser_id = "acme";
  bid_cpm = pos 4_000_000;
  rev_share_bps = pos 5000;
  creative = record { brand = "Acme"; text = "Ship it"; cta = some "acme.dev" };
  status = CampaignStatus.active;
  frequency_cap = 0;
  daily_budget_stroops = none;
  blocks = none;
  pool_id = none;
  submitted_by = none;
}

abbrev options : ℕ → Options
options now = record {
  now = now;
  random_hex = "nonce-1";
  tie = λ a b. true;
  new_id = λ n. "entry";
  campaigns = campaign ∷ [];
  reserve_cpm = none;
  pending_ms = 1_000;
  daily_cap = 10;
  is_datacenter_ip = λ ip. false;
  low_variation = λ gaps. true;
  pool_of = λ p. none;
  pool_allows = λ p pool rate. true;
  reserved_for_pools = λ a. pos 0;
}

abbrev environment : Env
environment = record { now = 0; new_id = λ n. "entry" }

abbrev funded : Ledger
funded =
    (deposit environment (record { advertiser_id = "acme"; amount = pos 5_000; topup_id = "t-1" })
      empty).1

abbrev start : Pipeline
start = record {
  intake = record { deliveries = []; saved = [] };
  returned = [];
  bans = [];
  selector = record { recent_by_publisher = []; tour_by_publisher = []; tour_store = none };
  ledger = funded;
}

abbrev selection : AdSelection
selection = record {
  campaign = campaign;
  nonce = "nonce-1";
  nonce_expires_at = 310_000;
  rate = pos 1_000;
  clearing_cpm = pos 1_000_000;
}

abbrev served : Pipeline
served = record {
  intake = record { deliveries = ("nonce-1", delivery_of "pub-1" selection) ∷ []; saved = [] };
  returned = [];
  bans = [];
  selector = record {
    recent_by_publisher = ("pub-1", "c-1" ∷ []) ∷ [];
    tour_by_publisher = ("pub-1", []) ∷ [];
    tour_store = none;
  };
  ledger = funded;
}

serve_first : serve_ad (options 10_000) "pub-1" start ≡ ok (some selection, served)
unfolding serve_ad dwell.Pipeline.Serving.selector_deps dwell.Pipeline.Serving.return_expired_slots
    dwell.Pipeline.Serving.gc_deliveries dwell.Pipeline.Serving.deliver dwell.Pipeline.spendable
    dwell.Pipeline.spent_today dwell.Pipeline.committed_impressions dwell.Pipeline.add_each
    dwell.Pipeline.count_each dwell.Selector.select dwell.Selector.eligible dwell.Selector.keep_each
    dwell.Selector.keep_checked dwell.Selector.tests dwell.Selector.pool_admits dwell.Selector.sells
    dwell.Selector.affords dwell.Selector.within_day dwell.Selector.spendable_for
    dwell.Selector.spendable_in dwell.Money.rate_from_cpm dwell.Money.stroops dwell.Money.add
    dwell.Money.sub dwell.Money.neg dwell.Money.sum dwell.Money.sum_from dwell.Base.Int.◌-ℤ◌
    dwell.Base.Int.◌+ℤ◌ dwell.Base.Int.negate dwell.Selector.select_among
    dwell.Selector.select_found dwell.Selector.select_chosen dwell.Selector.next_in_tour
    dwell.Selector.current_tour dwell.Selector.build_tour dwell.Selector.all_slots
    dwell.Selector.stage_slots dwell.Selector.tour_before dwell.Selector.index_from
    dwell.Selector.tour_of dwell.Selector.set_tour dwell.Selector.recent_of dwell.Selector.remember
    dwell.Selector.clearing_price dwell.Selector.rival_of dwell.Selector.return_slots
    dwell.Base.Sort.sort_by dwell.Base.Sort.insert_by dwell.Base.Map.get dwell.Base.Map.set
    dwell.Base.Map.values deposit dwell.Ledger.Operations.post dwell.Ledger.Operations.amounts
    dwell.Ledger.Operations.deposit_group dwell.Ledger.Operations.deposit_rows
    dwell.Ledger.Operations.key dwell.Ledger.Store.append dwell.Ledger.Store.write
    dwell.Ledger.Store.stamp dwell.Ledger.Store.index dwell.Ledger.Store.known balance
    dwell.Ledger.Store.balance_from owned_account dwell.Base.Text.cat dwell.Base.Text.colon
    dwell.Ledger.Accounts.single_account
serve_first = refl

serve_ad_covered_example :
    (account : String) × (held : ℤ) × (owned_account advertiser "acme" ≡ ok account)
    × (balance account served.ledger.store ≡ ok held)
    × (reserved 10_000 "acme" served.intake ≤ℤ held)
    × (reserved 10_000 "acme" served.intake ≡ reserved 10_000 "acme" start.intake +ℤ pos 1_000)
unfolding get
serve_ad_covered_example =
    serve_ad_covered (options 10_000) "pub-1" "acme" start serve_first refl refl

abbrev report : ImpressionEvent
report = record {
  id = "i-1";
  campaign_id = "c-1";
  nonce = "nonce-1";
  session_id = "s-1";
  surface = Surface.statusline;
  duration_ms = 6_000;
  client_ts = 16_000;
  client_version = "1.2.0";
  project_key = "key";
}

abbrev intake_deps : dwell.Ingest.Deps
intake_deps = record {
  now = 16_500;
  min_impression_ms = 5_000;
  min_client_version = "1.0.0";
  nonce_ttl_ms = 300_000;
}

abbrev pending_impression : StoredImpression
pending_impression =
    build intake_deps "pub-1" none report (some (delivery_of "pub-1" selection))
      ImpressionState.pending none

abbrev waiting : Pipeline
waiting = record served {
  intake = record { deliveries = served.intake.deliveries; saved = pending_impression ∷ [] };
}

abbrev refused : StoredImpression
refused = record pending_impression { id = "i-0"; state = ImpressionState.rejected }

abbrev two_stored : Pipeline
two_stored = record served {
  intake = record {
    deliveries = served.intake.deliveries;
    saved = refused ∷ pending_impression ∷ [];
  };
}

run_verification-Paid_example : Paid (run_verification (options 400_000) waiting).1
run_verification-Paid_example = run_verification-Paid (options 400_000) waiting (tt, tt)

run_verification_final_example :
    stored "pub-1" "i-0" (run_verification (options 400_000) two_stored).1
    ≡ stored "pub-1" "i-0" two_stored
run_verification_final_example =
    run_verification_final "pub-1" "i-0" (options 400_000) two_stored (inl refl, (inr refl, tt))
