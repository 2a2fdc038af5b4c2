-- ===== src/Money/Split.antt =====
-- The revenue split (ADR-011) and the price per impression (ADR-009).
use dwell.Base.{ℕ, ◌+◌, ◌-◌, ◌*◌, ◌/◌, ◌≤◌, ◌<◌, ◌≡◌, ok, arith}
use dwell.Base.Int.{pos, ◌-ℤ◌}
use dwell.Money.{max_stroops, split_revenue, rate_from_cpm}

pub share-le : (rate bps : ℕ) → bps ≤ 10_000 → rate * bps / 10_000 ≤ rate
share-le rate bps h = grind arith

pub split_revenue_value :
    (rate bps : ℕ)
    → rate ≤ max_stroops
    → bps ≤ 10_000
    → split_revenue (pos rate) (pos bps)
      ≡ ok (record {
        publisher = pos (rate * bps / 10_000);
        platform = pos (rate - rate * bps / 10_000);
      })
unfolding split_revenue ◌-ℤ◌
split_revenue_value rate bps h k = ground (arith, share-le rate bps k)

-- For every price that fits an `int64` and every share from 0 to 10,000 the split returns: the two
-- shares are not below zero and add up to the price exactly, and the publisher's is the floor.
pub split_revenue_exact :
    (rate bps : ℕ)
    → rate ≤ max_stroops
    → bps ≤ 10_000
    → (publisher platform : ℕ) × (split_revenue (pos rate) (pos bps)
        ≡ ok (record { publisher = pos publisher; platform = pos platform }))
      × (publisher + platform ≡ rate)
      × (10_000 * publisher ≤ rate * bps)
      × (rate * bps < 10_000 * publisher + 10_000)
split_revenue_exact rate bps h k = (
  rate * bps / 10_000,
  rate - rate * bps / 10_000,
  split_revenue_value rate bps h k,
  omega (arith, share-le rate bps k),
  omega arith,
  omega arith,
)

-- The price of an impression: 1,000 of them never cost more than the bid, and less than 1,000
-- stroops are dropped.
pub rate_from_cpm_floor :
    (bid : ℕ)
    → bid ≤ max_stroops
    → (r : ℕ) × (rate_from_cpm (pos bid) ≡ ok (pos r)) × (1000 * r ≤ bid) × (bid < 1000 * r + 1000)
unfolding rate_from_cpm
rate_from_cpm_floor bid h = (bid / 1000, ground arith, omega arith, omega arith)
