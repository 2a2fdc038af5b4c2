-- ===== src/Ingest/Nonces.antt =====
-- How often a nonce is accepted.
use dwell.Base.{
  ℕ, ◌+◌, ◌≤◌, String, Bool, true, false, ◌&&◌, ◌≡◌, refl, sym, ap, ◌∙◌, Option, none, some, List,
  [], ◌∷◌, ◌++◌, length, keep, keep-append, length-append, is_some, same, same_iff, if◌then◌else◌,
  Bool-cases, inl, inr, arith, subst,
}
use dwell.Base.Map.{Map, get, set, get-set}
use dwell.Ingest.{
  ImpressionState, Reason, ImpressionEvent, StoredImpression, DeliveredAd, Deps, Intake, seen,
  validate_delivery, validate_found, validate, build, consume, ingest_checked, ingest_one, ingest,
  duration_slack_ms,
}

abbrev pub is_pending : ImpressionState → Bool
is_pending ImpressionState.pending = true
is_pending ImpressionState.verified = false
is_pending ImpressionState.rejected = false

abbrev pub of_nonce : String → StoredImpression → Bool
of_nonce nonce imp = same imp.nonce nonce && is_pending imp.state

-- How many impressions were accepted with a nonce.
pub uses : String → Intake → ℕ
uses nonce s = length (keep (of_nonce nonce) s.saved)

abbrev pub is_consumed : Option DeliveredAd → Bool
is_consumed none = false
is_consumed (some delivery) = delivery.consumed

-- No nonce was accepted twice, and one that was accepted is used up.
pub IsOnce : Intake → Type 0
IsOnce s =
    (nonce : String)
    → (uses nonce s ≤ 1) × (1 ≤ uses nonce s → is_consumed (get nonce s.deliveries) ≡ true)

-- What holds of an event that passes `#validate`.
pub record Passed (d : Deps) (publisher_id : String) (ev : ImpressionEvent) (s : Intake)
    : Type 0 where
  pub delivery : DeliveredAd
  pub found : get ev.nonce s.deliveries ≡ some delivery
  pub unused : delivery.consumed ≡ false
  pub publisher : same delivery.publisher_id publisher_id ≡ true
  pub campaign : same delivery.campaign_id ev.campaign_id ≡ true
  pub timely : d.now ≤ delivery.expires_at
  pub shown : ev.duration_ms + delivery.expires_at ≤ d.now + d.nonce_ttl_ms + duration_slack_ms
  pub not_ahead : ev.client_ts ≤ d.now + 86_400_000
  pub not_behind : d.now ≤ ev.client_ts + 86_400_000

found-Passed :
    (found : Option DeliveredAd) (d : Deps) (publisher_id : String) (ev : ImpressionEvent)
    (s : Intake)
    → get ev.nonce s.deliveries ≡ found
    → validate_found found d publisher_id ev ≡ none
    → Passed d publisher_id ev s
unfolding validate_delivery
found-Passed none d publisher_id ev s e h = cc
found-Passed (some delivery) d publisher_id ev s e h = record {
  delivery = delivery;
  found = e;
  unused = ground (arith, h);
  publisher = ground (arith, h);
  campaign = ground (arith, h);
  timely = ground (arith, h);
  shown = ground (arith, h);
  not_ahead = ground (arith, h);
  not_behind = ground (arith, h);
}

pub validate-Passed :
    (d : Deps) (publisher_id : String) (ev : ImpressionEvent) (s : Intake)
    → validate d publisher_id ev s ≡ none
    → Passed d publisher_id ev s
unfolding validate
validate-Passed d publisher_id ev s h =
    found-Passed (get ev.nonce s.deliveries) d publisher_id ev s refl (ground (arith, h))

uses-append :
    (nonce : String) (s : Intake) (m : Map DeliveredAd) (imp : StoredImpression)
    → uses nonce (record { deliveries = m; saved = s.saved ++ (imp ∷ []) })
      ≡ uses nonce s + (if of_nonce nonce imp then 1 else 0)
unfolding uses
uses-append nonce s m imp =
    let split = keep-append (of_nonce nonce) s.saved (imp ∷ []) in
    let sizes = length-append (keep (of_nonce nonce) s.saved) (keep (of_nonce nonce) (imp ∷ [])) in
    rw split (elim (Bool-cases (of_nonce nonce imp)) [
      | inl e ↦ rw e (rw e at sizes)
      | inr e ↦ rw e (rw e at sizes)
    ])

-- An impression that is saved as rejected uses no nonce.
rejected-IsOnce :
    (s : Intake) (imp : StoredImpression)
    → is_pending imp.state ≡ false
    → IsOnce s
    → IsOnce (record s { saved = s.saved ++ (imp ∷ []) })
unfolding IsOnce
rejected-IsOnce s imp refused once nonce =
    let grown = uses-append nonce s s.deliveries imp in
    let none_added : of_nonce nonce imp ≡ false = ground (arith, refused) in
    let same_uses : uses nonce (record s { saved = s.saved ++ (imp ∷ []) }) ≡ uses nonce s =
      grown ∙ rw none_added (omega arith) in
    rw same_uses (once nonce)

-- An impression that is accepted uses a nonce that was delivered and not used up.
accepted-IsOnce :
    (s : Intake) (imp : StoredImpression) (delivery : DeliveredAd)
    → is_pending imp.state ≡ true
    → get imp.nonce s.deliveries ≡ some delivery
    → delivery.consumed ≡ false
    → IsOnce s
    → IsOnce (record {
      deliveries = set imp.nonce (record delivery { consumed = true }) s.deliveries;
      saved = s.saved ++ (imp ∷ []);
    })
unfolding IsOnce
accepted-IsOnce s imp delivery held found unused once nonce =
    let used : DeliveredAd = record delivery { consumed = true } in
    let m = set imp.nonce used s.deliveries in
    let grown = uses-append nonce s m imp in
    let looked = get-set nonce imp.nonce used s.deliveries in
    elim (Bool-cases (same imp.nonce nonce)) [
      | inr other ↦
          let none_added : of_nonce nonce imp ≡ false = rw other refl in
          let kept : get nonce m ≡ get nonce s.deliveries =
            looked ∙ ap (λ c. if c then some used else get nonce s.deliveries) other in
          let same_uses : uses nonce (record { deliveries = m; saved = s.saved ++ (imp ∷ []) })
              ≡ uses nonce s =
            grown ∙ rw none_added (omega arith) in
          rw (same_uses, kept) (once nonce)
      | inl this ↦
          let one_added : of_nonce nonce imp ≡ true = rw (this, held) refl in
          let shows : get nonce m ≡ some used =
            looked ∙ ap (λ c. if c then some used else get nonce s.deliveries) this in
          let before : is_consumed (get nonce s.deliveries) ≡ false =
            subst (λ n. is_consumed (get n s.deliveries) ≡ false)
              ((same_iff imp.nonce nonce).0 this) (ap is_consumed found ∙ unused) in
          let count : uses nonce (record { deliveries = m; saved = s.saved ++ (imp ∷ []) })
              ≡ uses nonce s + 1 =
            grown ∙ rw one_added refl in
          (ground (arith, count, once nonce, before), λ some_use. ap is_consumed shows)
    ]

ingest_checked-IsOnce :
    (reason : Option Reason) (d : Deps) (publisher_id : String) (ip_hash : Option String)
    (ev : ImpressionEvent) (s : Intake)
    → validate d publisher_id ev s ≡ reason
    → IsOnce s
    → IsOnce (ingest_checked reason d publisher_id ip_hash ev s).1
ingest_checked-IsOnce (some reason) d publisher_id ip_hash ev s e once =
    rejected-IsOnce s
      (build d publisher_id ip_hash ev (get ev.nonce s.deliveries) ImpressionState.rejected
        (some reason))
      refl once
ingest_checked-IsOnce none d publisher_id ip_hash ev s e once =
    let p = validate-Passed d publisher_id ev s e in
    subst
      (λ found. IsOnce (record {
        deliveries = consume ev.nonce found s.deliveries;
        saved =
            s.saved ++ (build d publisher_id ip_hash ev found ImpressionState.pending none ∷ []);
      }))
      (sym p.found)
      (accepted-IsOnce s
        (build d publisher_id ip_hash ev (some p.delivery) ImpressionState.pending none) p.delivery
        refl p.found p.unused once)

ingest_one-IsOnce :
    (d : Deps) (publisher_id : String) (ip_hash : Option String) (ev : ImpressionEvent) (s : Intake)
    → IsOnce s
    → IsOnce (ingest_one d publisher_id ip_hash ev s).1
unfolding ingest_one
ingest_one-IsOnce d publisher_id ip_hash ev s once =
    elim (Bool-cases (is_some (seen publisher_id ev.id s))) [
      | inl known ↦ rw known once
      | inr fresh ↦ rw fresh (
          ingest_checked-IsOnce (validate d publisher_id ev s) d publisher_id ip_hash ev s refl
            once)
    ]

ingest-IsOnce :
    (d : Deps) (publisher_id : String) (ip_hash : Option String) (events : List ImpressionEvent)
    (s : Intake)
    → IsOnce s
    → IsOnce (ingest d publisher_id ip_hash events s).1
unfolding ingest
ingest-IsOnce d publisher_id ip_hash [] s once = once
ingest-IsOnce d publisher_id ip_hash (ev ∷ events) s once =
    ingest-IsOnce d publisher_id ip_hash events _
      (ingest_one-IsOnce d publisher_id ip_hash ev s once)

-- One call of `ingest`.
pub record Report : Type 0 where
  pub deps : Deps
  pub publisher_id : String
  pub ip_hash : Option String
  pub events : List ImpressionEvent

pub run : List Report → Intake → Intake
run [] s = s
run (r ∷ reports) s = run reports (ingest r.deps r.publisher_id r.ip_hash r.events s).1

run-IsOnce : (reports : List Report) (s : Intake) → IsOnce s → IsOnce (run reports s)
unfolding run
run-IsOnce [] s once = once
run-IsOnce (r ∷ reports) s once =
    run-IsOnce reports _ (ingest-IsOnce r.deps r.publisher_id r.ip_hash r.events s once)

-- Whatever publishers report, in however many calls, at whatever times: of the deliveries that the
-- server made, each nonce is accepted at most once.
pub run-uses :
    (reports : List Report) (deliveries : Map DeliveredAd) (nonce : String)
    → uses nonce (run reports (record { deliveries = deliveries; saved = [] })) ≤ 1
unfolding IsOnce uses
run-uses reports deliveries nonce =
    (run-IsOnce reports (record { deliveries = deliveries; saved = [] })
      (λ n. (omega arith, λ h. ground (arith, h))) nonce).0
