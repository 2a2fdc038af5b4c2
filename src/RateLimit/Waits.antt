-- ===== src/RateLimit/Waits.antt =====
-- A refused key: the time that `take` returns, and the next call.
use native.Mathlib.Nat.{div_self}
use dwell.Base.{
  ℕ, ◌+◌, ◌-◌, ◌/◌, ◌≤◌, ◌<◌, String, false, ◌≡◌, refl, ap, ◌∙◌, ltb, if◌then◌else◌, same_refl,
  arith, Bool-cases, inl, inr, ◌⊎◌, some,
}
use dwell.Base.Map.{Map, get, set, get-set}
use dwell.RateLimit.{Options, Bucket, refilled, bucket, take}
use dwell.RateLimit.Bound.{refilled-recent}

-- One refill time after the last refill a bucket has a token.
refilled-some :
    (o : Options) (b : Bucket)
    → 1 ≤ o.refill_ms
    → 1 ≤ o.capacity
    → 1 ≤ (refilled o (o.refill_ms + b.at) b).tokens
unfolding refilled
refilled-some o b some_refill some_room =
    let one : (o.refill_ms + b.at - b.at) / o.refill_ms ≡ 1 =
      ap (λ n. n / o.refill_ms) {y = o.refill_ms} (omega arith) ∙ div_self some_refill in
    rw one (ground arith)

stored-bucket :
    (o : Options) (now : ℕ) (key : String) (b : Bucket) (m : Map Bucket)
    → bucket o now key (set key b m) ≡ b
unfolding bucket
stored-bucket o now key b m =
    let stored : get key (set key b m) ≡ some b =
      get-set key key b m ∙ ap (λ c. if c then some b else get key m) (same_refl key) in
    rw stored refl

-- With a refill time above zero and room for a token, a call is granted, or it returns a time above
-- zero, and the same call after that time is granted.
pub take_wait :
    (o : Options) (now : ℕ) (key : String) (m : Map Bucket)
    → 1 ≤ o.refill_ms
    → 1 ≤ o.capacity
    → ((take o now key m).0 ≡ 0)
      ⊎ ((0 < (take o now key m).0)
          × ((take o (now + (take o now key m).0) key (take o now key m).1).0 ≡ 0))
unfolding take
take_wait o now key m some_refill some_room =
    let b = refilled o now (bucket o now key m) in
    let recent = refilled-recent o now (bucket o now key m) some_refill in
    elim (Bool-cases (ltb b.tokens 1)) [
      | inr some_token ↦ rw some_token (inl refl)
      | inl empty ↦
          let later : now + (o.refill_ms + b.at - now) ≡ o.refill_ms + b.at =
            omega (arith, recent) in
          let refills : ltb (refilled o (o.refill_ms + b.at) b).tokens 1 ≡ false =
            ground (arith, refilled-some o b some_refill some_room) in
          rw (empty, later, stored-bucket o (o.refill_ms + b.at) key b m, refills)
            (inr (omega (arith, recent), refl))
    ]
