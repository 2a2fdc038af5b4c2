-- ===== src/RateLimit.antt =====
-- packages/server/src/http/rate-limit.ts: a bucket of tokens for each key.
-- Times are milliseconds; a difference of times that the source takes as a signed number is written
-- so that a clock that runs back takes the same branches.
pub mod Tests
pub mod Bound
pub mod Waits
use dwell.Base.{
  ℕ, ◌+◌, ◌-◌, ◌*◌, ◌/◌, min, String, Bool, not, List, length, keep, or_else, ltb, leb, ◌==◌,
  if◌then◌else◌,
}
use dwell.Base.Map.{Map, get, set}

pub record Options : Type 0 where
  pub capacity : ℕ
  pub refill_ms : ℕ

pub record Bucket : Type 0 where
  pub tokens : ℕ
  pub at : ℕ

abbrev pub defaults : Options
defaults = record { capacity = 10; refill_ms = 10_000 }

-- The refill at the head of `take`.
pub refilled : Options → ℕ → Bucket → Bucket
refilled o now b =
    let filled = (now - b.at) / o.refill_ms in
    let tokens = min o.capacity (b.tokens + filled) in
    if ltb 0 filled
    then record {
      tokens = tokens;
      at = if tokens == o.capacity then now else b.at + filled * o.refill_ms;
    }
    else b

-- `#gc`: full buckets carry no information.
pub gc : Options → ℕ → Map Bucket → Map Bucket
gc o now m =
    if ltb (length m) 10_000
    then m
    else keep (λ entry. not (leb (entry.1.at + o.capacity * o.refill_ms) now)) m

pub bucket : Options → ℕ → String → Map Bucket → Bucket
bucket o now key m = or_else (get key m) (record { tokens = o.capacity; at = now })

-- Returns 0 where a token was spent, else the time to the next token.
pub take : Options → ℕ → String → Map Bucket → ℕ × Map Bucket
take o now key m =
    let b = refilled o now (bucket o now key m) in
    if ltb b.tokens 1
    then (o.refill_ms + b.at - now, set key b m)
    else (0, gc o now (set key (record { tokens = b.tokens - 1; at = b.at }) m))
