-- ===== src/Money.antt =====
-- packages/protocol/src/money.ts: amounts in stroops (1e-7 USDC). A `bigint` is ℤ, and `Stroops`
-- is a ℤ that `stroops` has let through.
pub mod Tests
pub mod Checked
pub mod Split
use dwell.Base.{
  ℕ, ◌*◌, ◌/◌, ◌||◌, Result, ok, err, ◌>>=◌, ◌>>◌, throw_if, List, [], ◌∷◌, if◌then◌else◌,
}
use dwell.Base.Int.{ℤ, pos, negsuc, pos_part, ◌+ℤ◌, ◌-ℤ◌, negate, ltb_ℤ}
use dwell.Thrown.{Thrown, int64_overflow, negative_split, bad_bps, negative_cpm}

-- 1 USDC.
abbrev pub scale : ℕ
scale = 10_000_000

abbrev pub max_stroops : ℕ
max_stroops = 9_223_372_036_854_775_807

abbrev pub min_stroops : ℤ
min_stroops = negsuc 9_223_372_036_854_775_806

unfoldable pub stroops : ℤ → Result Thrown ℤ
stroops v =
    if ltb_ℤ (pos max_stroops) v || ltb_ℤ v min_stroops then err (int64_overflow v) else ok v

abbrev pub zero_stroops : ℤ
zero_stroops = pos 0

unfoldable pub add : ℤ → ℤ → Result Thrown ℤ
add a b = stroops (a +ℤ b)

unfoldable pub sub : ℤ → ℤ → Result Thrown ℤ
sub a b = stroops (a -ℤ b)

unfoldable pub neg : ℤ → Result Thrown ℤ
neg a = stroops (negate a)

-- `xs.reduce(add, acc)`
unfoldable pub sum_from : ℤ → List ℤ → Result Thrown ℤ
sum_from acc [] = ok acc
sum_from acc (x ∷ xs) = add acc x >>= λ acc'. sum_from acc' xs

unfoldable pub sum : List ℤ → Result Thrown ℤ
unfolding sum_from
sum xs = sum_from zero_stroops xs

abbrev pub default_rev_share_bps : ℤ
default_rev_share_bps = pos 5000

pub record RevenueSplit : Type 0 where
  pub publisher : ℤ
  pub platform : ℤ

-- The product and the quotient are of numbers that the guards leave: none is below zero.
unfoldable pub split_revenue : ℤ → ℤ → Result Thrown RevenueSplit
unfolding stroops sub
split_revenue rate bps = do
  throw_if (ltb_ℤ rate (pos 0)) negative_split
  throw_if (ltb_ℤ bps (pos 0) || ltb_ℤ (pos 10_000) bps) (bad_bps bps)
  publisher ← stroops (pos (pos_part rate * pos_part bps / 10_000))
  platform ← sub rate publisher
  ok (record { publisher = publisher; platform = platform })

-- The price of one impression from a bid for 1,000.
unfoldable pub rate_from_cpm : ℤ → Result Thrown ℤ
unfolding stroops
rate_from_cpm bid_cpm = do
  throw_if (ltb_ℤ bid_cpm (pos 0)) negative_cpm
  stroops (pos (pos_part bid_cpm / 1000))
