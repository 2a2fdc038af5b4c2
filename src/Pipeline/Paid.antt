-- ===== src/Pipeline/Paid.antt =====
-- `runVerification` and the ledger: the keys of the bills of verified impressions.
use dwell.Base.{
  suc, ◌≤◌, String, true, ◌&&◌, List, [], ◌∷◌, Result, ok, err, throw_if, >>=-eq-ok, Result-cases,
  same_refl, length, is_some, same, ◌==◌, ◌≡◌, refl, sym, subst, ap, ◌∙◌, inl, inr, Bool-cases,
  Option-cases, All, All-map, arith,
}
use dwell.Base.Int.{pos, ltb_ℤ}
use dwell.Base.Map.{Map, get, set, get-set}
use dwell.Thrown.{Thrown, negative_rate}
use dwell.Money.{stroops, neg, split_revenue}
use dwell.Ledger.Accounts.{advertiser, publisher, owned_account}
use dwell.Ledger.Entry.{Entry, NewEntry}
use dwell.Ledger.Store.{Env, Store, known, stamp, index, write, append}
use dwell.Ledger.Operations.{
  Ledger, Impression, post, key, impression_rows, impression_group, post_impression,
}
use dwell.Ledger.Validity.{post-cases}
use dwell.Ingest.{ImpressionState, StoredImpression}
use dwell.Verify.{Verdict, evaluate, is_verified, is_rejected, is_pending}
use dwell.Pipeline.{Options, Pipeline, is_waiting}
use dwell.Pipeline.Verification.{
  update, bill_of, environment, settle_billed, bill, settle, Counts, counted, next_round,
  verify_each, run_verification, verifier_deps,
}

-- The ledger knows an idempotency key.
abbrev pub Knows : Store → String → Type 0
Knows s k = is_some (get k s.by_key) ≡ true

index_keeps :
    (k : String) (es : List Entry) (m : Map Entry)
    → is_some (get k m) ≡ true
    → is_some (get k (index es m)) ≡ true
unfolding index
index_keeps k [] m h = h
index_keeps k (e ∷ es) m h = index_keeps k es (set e.idempotency_key e m) (
    ap is_some (get-set k e.idempotency_key e m)
    ∙ elim (Bool-cases (same e.idempotency_key k)) [ inl f ↦ rw f refl | inr f ↦ rw f h ])

known_le : (m : Map Entry) (es : List NewEntry) → length (known m es) ≤ length es
unfolding known
known_le m [] = omega arith
known_le m (e ∷ es) = elim (Option-cases (get e.idempotency_key m)) [
  | inl f ↦ rw (f, known) (omega (arith, known_le m es))
  | inr (x, f) ↦ rw (f, known) (omega (arith, known_le m es))
]

known_first :
    (m : Map Entry) (e : NewEntry) (es : List NewEntry)
    → (length (known m (e ∷ es)) == length (e ∷ es)) ≡ true
    → is_some (get e.idempotency_key m) ≡ true
unfolding known
known_first m e es h = elim (Option-cases (get e.idempotency_key m)) [
  | inl f ↦
      let k : (length (known m es) == suc (length es)) ≡ true = rw (f, known) at h in
      absurd (ground (arith, k, known_le m es))
  | inr (x, f) ↦ rw f refl
]

-- An append forgets no key, and one that returns knows the first key of its group.
append_keeps :
    (env : Env) (es : List NewEntry) (s : Store) (k : String)
    → Knows s k
    → Knows (append env es s).1 k
unfolding append write
append_keeps env es s k h = elim (Bool-cases (length (known s.by_key es) == 0)) [
  | inl e ↦ rw e (index_keeps k (stamp env s.issued es) s.by_key h)
  | inr e ↦ rw e (elim (Bool-cases (length (known s.by_key es) == length es)) [
    | inl f ↦ rw f h
    | inr f ↦ rw f h
  ])
]

append_first :
    (env : Env) (e : NewEntry) (es : List NewEntry) (s : Store) {written : List Entry}
    → (append env (e ∷ es) s).0 ≡ ok written
    → Knows (append env (e ∷ es) s).1 e.idempotency_key
unfolding append write stamp index
append_first env e es s {written} h = elim (Bool-cases (length (known s.by_key (e ∷ es)) == 0)) [
  | inl f ↦ rw f (
      index_keeps e.idempotency_key (stamp env (suc s.issued) es) _ (
        ap is_some (get-set e.idempotency_key e.idempotency_key _ s.by_key)
        ∙ rw (same_refl e.idempotency_key) refl))
  | inr f ↦ elim (Bool-cases (length (known s.by_key (e ∷ es)) == length (e ∷ es))) [
    | inl g ↦ rw (f, g) (known_first s.by_key e es g)
    | inr g ↦ absurd (let k = rw (f, g) at h in cc)
  ]
]

-- The key of an impression's first row.
abbrev pub bill_key : String → String
bill_key id = key "impression" id "advertiser"

impression_group-first :
    (i : Impression) {es : List NewEntry}
    → impression_group i ≡ ok es
    → (e : NewEntry) × (rest : List NewEntry) × (es ≡ e ∷ rest)
      × (e.idempotency_key ≡ bill_key i.impression_id)
unfolding impression_group impression_rows
impression_group-first i {es} h =
    let (_, _, h1) = >>=-eq-ok (throw_if (ltb_ℤ i.rate (pos 0)) negative_rate) _ h in
    let (split, _, h2) = >>=-eq-ok (split_revenue i.rate i.rev_share_bps) _ h1 in
    let (from, _, h3) = >>=-eq-ok (owned_account advertiser i.advertiser_id) _ h2 in
    let (minus, _, h4) = >>=-eq-ok (neg i.rate) _ h3 in
    let (to, _, h5) = >>=-eq-ok (owned_account publisher i.publisher_id) _ h4 in
    let it : impression_rows i from to minus split ≡ es = ground (arith, h5) in (_, _, sym it, refl)

post_keeps :
    (env : Env) (es : List NewEntry) (l : Ledger) (k : String)
    → Knows l.store k
    → Knows (post env es l).1.store k
post_keeps env es l k h = elim (post-cases es) [
  | inl (t, thrown) ↦ rw (thrown env l) h
  | inr (zero, goes) ↦ rw (goes env l) (append_keeps env es l.store k h)
]

post_first :
    (env : Env) (e : NewEntry) (es : List NewEntry) (l : Ledger) {written : List Entry}
    → (post env (e ∷ es) l).0 ≡ ok written
    → Knows (post env (e ∷ es) l).1.store e.idempotency_key
post_first env e es l h = elim (post-cases (e ∷ es)) [
  | inl (t, thrown) ↦ absurd (let k = rw (thrown env l) at h in cc)
  | inr (zero, goes) ↦
      let k = rw (goes env l) at h in rw (goes env l) (append_first env e es l.store k)
]

billing_keeps :
    (env : Env) (i : Impression) (l : Ledger) (k : String)
    → Knows l.store k
    → Knows (post_impression env i l).1.store k
unfolding post_impression
billing_keeps env i l k h = elim (Result-cases (impression_group i)) [
  | inr (t, e) ↦ rw e h
  | inl (es, e) ↦ rw e (post_keeps env es l k h)
]

billing_known :
    (env : Env) (i : Impression) (l : Ledger) {written : List Entry}
    → (post_impression env i l).0 ≡ ok written
    → Knows (post_impression env i l).1.store (bill_key i.impression_id)
unfolding post_impression
billing_known env i l {written} h = elim (Result-cases (impression_group i)) [
  | inr (t, e) ↦ absurd (let k = rw e at h in cc)
  | inl (es, e) ↦
      let (first, rest, it, named) = impression_group-first i e in
      let made : impression_group i ≡ ok (first ∷ rest) = e ∙ ap ok it in
      let k : (post env (first ∷ rest) l).0 ≡ ok written = rw made at h in
      rw made
        (subst (Knows (post env (first ∷ rest) l).1.store) named (post_first env first rest l k))
]

-- A verified impression is known to the ledger; the others need not be.
abbrev pub PaidIn : Store → String → ImpressionState → Type 0
PaidIn s id ImpressionState.pending = Unit
PaidIn s id ImpressionState.rejected = Unit
PaidIn s id ImpressionState.verified = Knows s (bill_key id)

abbrev pub Paid : Pipeline → Type 0
Paid p = All (λ (i : StoredImpression). PaidIn p.ledger.store i.id i.state) p.intake.saved

update-All :
    (P : StoredImpression → Type 0) (imp : StoredImpression) (is : List StoredImpression)
    → P imp
    → All P is
    → All P (update imp is)
unfolding update
update-All P imp [] p h = (p, tt)
update-All P imp (i ∷ is) p h =
    elim (Bool-cases (same i.publisher_id imp.publisher_id && same i.id imp.id)) [
      | inl e ↦ rw e (p, h.1)
      | inr e ↦ rw e (h.0, update-All P imp is p h.1)
    ]

paid_later :
    (s s' : Store) (id : String) (state : ImpressionState)
    → ((k : String) → Knows s k → Knows s' k)
    → PaidIn s id state
    → PaidIn s' id state
paid_later s s' id ImpressionState.pending keeps h = tt
paid_later s s' id ImpressionState.rejected keeps h = tt
paid_later s s' id ImpressionState.verified keeps h = keeps (bill_key id) h

settle_billed-Paid :
    (imp : StoredImpression) (p : Pipeline) (outcome : Result Thrown (List Entry) × Ledger)
    → ((k : String) → Knows p.ledger.store k → Knows outcome.1.store k)
    → ((written : List Entry) → outcome.0 ≡ ok written → Knows outcome.1.store (bill_key imp.id))
    → Paid p
    → Paid (settle_billed imp p outcome).1
settle_billed-Paid imp p (err t, l) keeps knows h =
    All-map (λ i k. paid_later p.ledger.store l.store i.id i.state keeps k) p.intake.saved h
settle_billed-Paid imp p (ok written, l) keeps knows h =
    update-All (λ (i : StoredImpression). PaidIn l.store i.id i.state)
      (record imp { state = ImpressionState.verified }) p.intake.saved (knows written refl)
      (All-map (λ i k. paid_later p.ledger.store l.store i.id i.state keeps k) p.intake.saved h)

settle-Paid :
    (o : Options) (imp : StoredImpression) (v : Verdict) (p : Pipeline)
    → Paid p
    → Paid (settle o imp v p).1
unfolding settle bill
settle-Paid o imp (is_pending ready_at) p h = h
settle-Paid o imp (is_rejected reason) p h =
    update-All (λ (i : StoredImpression). PaidIn p.ledger.store i.id i.state) _ p.intake.saved tt h
settle-Paid o imp is_verified p h = elim (Result-cases (stroops imp.rate_stroops)) [
  | inr (t, e) ↦ rw e h
  | inl (rate, e) ↦ rw e (
      settle_billed-Paid imp p (post_impression (environment o) (bill_of imp rate) p.ledger)
        (λ k. billing_keeps (environment o) (bill_of imp rate) p.ledger k)
        (λ written e'. billing_known (environment o) (bill_of imp rate) p.ledger e') h)
]

next_round-Paid :
    (r : Result Thrown (Unit {0}) × Pipeline) (rest : Pipeline → Result Thrown Counts × Pipeline)
    → Paid r.1
    → ((p : Pipeline) → Paid p → Paid (rest p).1)
    → Paid (next_round r rest).1
next_round-Paid (err t, p) rest h k = h
next_round-Paid (ok u, p) rest h k = k p h

verify_each-Paid :
    (o : Options) (all imps : List StoredImpression) (n : Counts) (p : Pipeline)
    → Paid p
    → Paid (verify_each o all imps n p).1
unfolding verify_each
verify_each-Paid o all [] n p h = h
verify_each-Paid o all (imp ∷ imps) n p h =
    let verdict = evaluate (verifier_deps o p) imp all in
    elim (Bool-cases (is_waiting imp.state)) [
      | inr e ↦ rw e (verify_each-Paid o all imps n p h)
      | inl e ↦ rw e (
          next_round-Paid (settle o imp verdict p) (verify_each o all imps (counted verdict n))
            (settle-Paid o imp verdict p h)
            (λ p' h'. verify_each-Paid o all imps (counted verdict n) p' h'))
    ]

-- A run of the verification, also one that the ledger ends by a throw, keeps every verified
-- impression known to the ledger by the key of its bill.
pub run_verification-Paid : (o : Options) (p : Pipeline) → Paid p → Paid (run_verification o p).1
unfolding run_verification
run_verification-Paid o p h = verify_each-Paid o p.intake.saved p.intake.saved _ p h
