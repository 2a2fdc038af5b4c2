-- ===== src/Pipeline/Sums.antt =====
-- The checked loops of the pipeline against exact sums.
use dwell.Base.{
  ℕ, String, Bool, List, [], ◌∷◌, ok, ◌>>=◌, >>=-eq-ok, if◌then◌else◌, ◌≡◌, sym, ap, ◌∙◌, inl, inr,
  Bool-cases, arith,
}
use dwell.Base.Int.{ℤ, pos, ◌+ℤ◌, ◌-ℤ◌, ltb_ℤ, int_laws, parts_of_eq}
use dwell.Base.Map.{values}
use dwell.Money.{stroops, add, sub}
use dwell.Money.Checked.{stroops-eq-ok, add-eq-ok, sub-eq-ok}
use dwell.Ledger.Accounts.{advertiser, owned_account}
use dwell.Ledger.Store.{balance}
use dwell.Ingest.{DeliveredAd, StoredImpression, Intake}
use dwell.Pipeline.{Pipeline, add_each, reserves, awaits, spendable}

-- The exact sum of the amounts of the elements that a test holds for.
unfoldable pub sum_where {ℓ} : {A : Type ℓ} → (A → Bool) → (A → ℤ) → List A → ℤ
sum_where test amount [] = pos 0
sum_where test amount (x ∷ xs) =
    if test x then amount x +ℤ sum_where test amount xs else sum_where test amount xs

pub add_each_lem {ℓ} :
    {A : Type ℓ} (test : A → Bool) (amount : A → ℤ) (xs : List A) (acc : ℤ) {v : ℤ}
    → add_each test amount xs acc ≡ ok v
    → v ≡ acc +ℤ sum_where test amount xs
unfolding add_each sum_where
add_each_lem test amount [] acc {v} h =
    let e : acc ≡ v = ground arith in omega (int_laws, parts_of_eq _ _ e)
add_each_lem test amount (x ∷ xs) acc {v} h = elim (Bool-cases (test x)) [
  | inr e ↦
      let k : add_each test amount xs acc ≡ ok v = rw e at h in
      rw e (add_each_lem test amount xs acc k)
  | inl e ↦
      let k : (stroops (amount x) >>= λ w. add acc w >>= λ acc'. add_each test amount xs acc')
          ≡ ok v =
        rw e at h in
      let (w, p, k1) = >>=-eq-ok (stroops (amount x)) _ k in
      let (acc', q, k2) = >>=-eq-ok (add acc w) _ k1 in
      let ih = add_each_lem test amount xs acc' k2 in
      let first = (stroops-eq-ok (amount x) p).0 in
      let second = (add-eq-ok acc w q).0 in
      rw e (omega (int_laws, parts_of_eq _ _ ih, parts_of_eq _ _ first, parts_of_eq _ _ second))
]

-- What an advertiser has reserved: the open deliveries and the pending impressions.
unfoldable pub reserved : ℕ → String → Intake → ℤ
unfolding sum_where
reserved now advertiser_id s =
    sum_where (reserves advertiser_id now) (λ (d : DeliveredAd). d.rate) (values s.deliveries)
    +ℤ sum_where (awaits advertiser_id) (λ (i : StoredImpression). i.rate_stroops) s.saved

-- `spendable`, where it returns, is the balance less what is reserved, or zero.
pub spendable_lem :
    (now : ℕ) (advertiser_id : String) (p : Pipeline) {v : ℤ}
    → spendable now advertiser_id p ≡ ok v
    → (account : String) × (held : ℤ) × (owned_account advertiser advertiser_id ≡ ok account)
      × (balance account p.ledger.store ≡ ok held)
      × (v ≡ (
          if ltb_ℤ (pos 0) (held -ℤ reserved now advertiser_id p.intake)
          then held -ℤ reserved now advertiser_id p.intake
          else pos 0))
unfolding spendable reserved
spendable_lem now advertiser_id p {v} h =
    let (account, a, h1) = >>=-eq-ok (owned_account advertiser advertiser_id) _ h in
    let (held, b, h2) = >>=-eq-ok (balance account p.ledger.store) _ h1 in
    let (delivered, c, h3) =
      >>=-eq-ok (add_each (reserves advertiser_id now) _ (values p.intake.deliveries) (pos 0)) _
        h2 in
    let (all, d, h4) =
      >>=-eq-ok (add_each (awaits advertiser_id) _ p.intake.saved delivered) _ h3 in
    let (left, e, h5) = >>=-eq-ok (sub held all) _ h4 in
    let first =
      add_each_lem (reserves advertiser_id now) _ (values p.intake.deliveries) (pos 0) c in
    let second = add_each_lem (awaits advertiser_id) _ p.intake.saved delivered d in
    let third = (sub-eq-ok held all e).0 in
    let r =
      sum_where (reserves advertiser_id now) (λ (d : DeliveredAd). d.rate)
        (values p.intake.deliveries)
      +ℤ sum_where (awaits advertiser_id) (λ (i : StoredImpression). i.rate_stroops)
          p.intake.saved in
    let it : left ≡ held -ℤ r =
      omega (int_laws, parts_of_eq _ _ first, parts_of_eq _ _ second, parts_of_eq _ _ third) in
    let returned : (if ltb_ℤ (pos 0) left then left else pos 0) ≡ v = ground (arith, h5) in
    (account, held, a, b, sym returned ∙ ap (λ x. if ltb_ℤ (pos 0) x then x else pos 0) it)
