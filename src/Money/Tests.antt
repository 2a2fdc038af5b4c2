-- ===== src/Money/Tests.antt =====
-- A price at which the split rounds.
use dwell.Base.{ℕ, ◌+◌, ◌*◌, ◌≤◌, ◌<◌, ◌≡◌, ok, arith}
use dwell.Base.Int.{pos}
use dwell.Money.{split_revenue}
use dwell.Money.Split.{split_revenue_exact}

split_revenue_exact_example :
    (publisher platform : ℕ) × (split_revenue (pos 7) (pos 5000)
      ≡ ok (record { publisher = pos publisher; platform = pos platform }))
    × (publisher + platform ≡ 7)
    × (10_000 * publisher ≤ 7 * 5000)
    × (7 * 5000 < 10_000 * publisher + 10_000)
split_revenue_exact_example = split_revenue_exact 7 5000 (omega arith) (omega arith)
