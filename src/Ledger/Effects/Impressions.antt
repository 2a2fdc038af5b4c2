-- ===== src/Ledger/Effects/Impressions.antt =====
-- A verified impression in the ledger (ADR-011).
use dwell.Base.{
  String, ◌≡◌, ap, ◌∙◌, List, ok, ◌>>=◌, arith, length, same, ◌==◌, if◌then◌else◌, ℕ, ◌-◌, ◌*◌, ◌/◌,
  ◌≤◌, true, false,
}
use dwell.Base.Int.{ℤ, pos, ◌+ℤ◌, negate, ltb_ℤ, one_sided, int_laws}
use dwell.Money.{max_stroops, RevenueSplit, neg, split_revenue, sum}
use dwell.Money.Checked.{stroops_ok, neg_ok, InRange-negate, sum_three}
use dwell.Money.Split.{split_revenue_value, share-le}
use dwell.Ledger.Accounts.{advertiser, publisher, platform_revenue, owned_account, single_account}
use dwell.Ledger.Entry.{Entry, NewEntry, rows, tally, held}
use dwell.Ledger.Store.{Env, known}
use dwell.Ledger.Effects.{holding, post-Wrote}
use dwell.Ledger.Operations.{
  Ledger, amounts, Impression, impression_rows, impression_group, post_impression,
}

-- What an impression at a price gives account `a`: the publisher's share is the floor of
-- `price × bps / 10000`, and the rest is the platform's.
abbrev pub shared : String → String → ℕ → ℕ → String → ℤ
shared from to price bps a =
    let share = price * bps / 10_000 in
    (if same from a then negate (pos price) else pos 0)
    +ℤ ((if same to a then pos share else pos 0)
        +ℤ (if same (single_account platform_revenue) a then pos (price - share) else pos 0))

module _ (i : Impression) (from to : String) (price bps : ℕ) where
  abbrev pub the_split : RevenueSplit
  the_split =
      let share = price * bps / 10_000 in
      record { publisher = pos share; platform = pos (price - share) }

  -- The rows of the impression.
  abbrev pub priced_rows : List NewEntry
  priced_rows = impression_rows i from to (negate (pos price)) the_split

  rows-shared : (a : String) → held a priced_rows ≡ shared from to price bps a
  unfolding impression_rows tally
  rows-shared a = omega int_laws

  rows-sums : price ≤ max_stroops → bps ≤ 10_000 → (amounts priced_rows >>= sum) ≡ ok (pos 0)
  unfolding impression_rows amounts
  rows-sums fits share_fits =
      let share = price * bps / 10_000 in
      let below : share ≤ price = share-le price bps share_fits in
      let minus = InRange-negate (pos price) (omega arith) in
      rw
        (
          stroops_ok (negate (pos price)) minus,
          stroops_ok (pos share) (omega arith),
          stroops_ok (pos (price - share)) (omega arith),
        )
        (sum_three (negate (pos price)) (pos share) (pos (price - share)) minus
          (omega (int_laws, one_sided (negate (pos price) +ℤ pos share))) (omega int_laws))

  impression_group_ok :
      i.rate ≡ pos price
      → i.rev_share_bps ≡ pos bps
      → price ≤ max_stroops
      → bps ≤ 10_000
      → owned_account advertiser i.advertiser_id ≡ ok from
      → owned_account publisher i.publisher_id ≡ ok to
      → impression_group i ≡ ok priced_rows
  unfolding impression_group
  impression_group_ok rate share fits share_fits payer payee =
      let positive : ltb_ℤ i.rate (pos 0) ≡ false = ground arith in
      let split : split_revenue i.rate i.rev_share_bps ≡ ok the_split =
        ap (split_revenue i.rate) share
        ∙ ap (λ r. split_revenue r (pos bps)) rate
        ∙ split_revenue_value price bps fits share_fits in
      let minus : neg i.rate ≡ ok (negate (pos price)) =
        ap neg rate ∙ neg_ok (pos price) (omega arith) in
      rw (positive, split, payer, minus, payee)

  -- An impression at a price that fits an `int64` and a share from 0 to 10,000, of owners
  -- without a colon, none of its keys being known, returns three entries: the advertiser holds the price less, the publisher the floor
  -- of its share more, the platform the rest more, and no other account changes.
  pub post_impression_effect :
      (env : Env) (l : Ledger)
      → i.rate ≡ pos price
      → i.rev_share_bps ≡ pos bps
      → price ≤ max_stroops
      → bps ≤ 10_000
      → owned_account advertiser i.advertiser_id ≡ ok from
      → owned_account publisher i.publisher_id ≡ ok to
      → (length (known l.store.by_key priced_rows) == 0) ≡ true
      → ((ws : List Entry) × ((post_impression env i l).0 ≡ ok ws) × (rows ws ≡ priced_rows))
        × ((a : String)
            → holding a (post_impression env i l).1 ≡ holding a l +ℤ shared from to price bps a)
  unfolding post_impression
  post_impression_effect env l rate share fits share_fits payer payee fresh =
      let w = post-Wrote env priced_rows l (rows-sums fits share_fits) fresh in
      rw (impression_group_ok rate share fits share_fits payer payee)
        (w.0, λ a. w.1 a ∙ ap (◌+ℤ◌ (holding a l)) (rows-shared a))
