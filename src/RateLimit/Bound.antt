-- ===== src/RateLimit/Bound.antt =====
-- How many tokens a key can take: the stock of its bucket, in milliseconds, against the clock.
use native.Mathlib.Nat.{
  add-mul-div_left, lt-div-mul-add, mul-le-mul_right, add-mul, div-mul-le_self, le-div_iff_mul-le,
}
use dwell.Base.{
  ℕ, ◌+◌, ◌-◌, ◌*◌, ◌/◌, ◌≤◌, ◌<◌, min, String, Bool, true, false, not, ◌&&◌, ◌≡◌, refl, ap, ◌∙◌,
  List, [], ◌∷◌, length, or_else, ltb, leb, ◌==◌, if◌then◌else◌, same, same_iff, arith, Bool-cases,
  inl, inr, none, some, Option, subst,
}
use dwell.Base.Map.{Map, get, set, get-set, Distinct, set-Distinct, get-keep, keep-Distinct}
use dwell.RateLimit.{Options, Bucket, refilled, gc, bucket, take}

-- The stock of a bucket in milliseconds: its tokens, and the time since its last refill.
unfoldable stock : Options → ℕ → Bucket → ℕ
stock o now b = b.tokens * o.refill_ms + (now - b.at)

-- A key without a bucket has a full one.
abbrev found_stock : Options → ℕ → Option Bucket → ℕ
found_stock o now none = o.capacity * o.refill_ms
found_stock o now (some b) = stock o now b

abbrev level : Options → ℕ → String → Map Bucket → ℕ
level o now key m = found_stock o now (get key m)

scale_le : (c t f r : ℕ) → c ≤ t + f → c * r ≤ t * r + f * r
scale_le c t f r h = omega (arith, mul-le-mul_right r h, add-mul t f r)

-- A refill adds no stock.
refilled-stock :
    (o : Options) (now : ℕ) (b : Bucket) → stock o now (refilled o now b) ≤ stock o now b
unfolding refilled stock
refilled-stock o now b =
    let filled = (now - b.at) / o.refill_ms in
    let fits : filled * o.refill_ms ≤ now - b.at = div-mul-le_self (now - b.at) o.refill_ms in
    let tokens = min o.capacity (b.tokens + filled) in
    let all_in = scale_le tokens b.tokens filled o.refill_ms (omega arith) in
    elim (Bool-cases (ltb 0 filled)) [
      | inr none_filled ↦ rw none_filled (omega arith)
      | inl some_filled ↦ elim (Bool-cases (tokens == o.capacity)) [
        | inl full ↦ rw (some_filled, full) (omega (arith, all_in, fits))
        | inr room ↦ rw (some_filled, room) (omega (arith, all_in, fits))
      ]
    ]

stock-grows : (o : Options) (s t : ℕ) (b : Bucket) → s ≤ t → stock o t b ≤ stock o s b + (t - s)
unfolding stock
stock-grows o s t b h = omega arith

found_stock-grows :
    (o : Options) (s t : ℕ) (b : Option Bucket)
    → s ≤ t
    → found_stock o t b ≤ found_stock o s b + (t - s)
found_stock-grows o s t none h = omega arith
found_stock-grows o s t (some b) h = stock-grows o s t b h

level-set :
    (o : Options) (now : ℕ) (j key : String) (b : Bucket) (m : Map Bucket)
    → level o now j (set key b m) ≡ (if same key j then stock o now b else level o now j m)
level-set o now j key b m = elim (Bool-cases (same key j)) [
  | inl e ↦
      rw e (ap (found_stock o now) (get-set j key b m ∙ ap (λ c. if c then some b else get j m) e))
  | inr e ↦
      rw e (ap (found_stock o now) (get-set j key b m ∙ ap (λ c. if c then some b else get j m) e))
]

bucket-stock :
    (o : Options) (now : ℕ) (key : String) (m : Map Bucket)
    → stock o now (bucket o now key m) ≡ level o now key m
unfolding bucket stock
bucket-stock o now key m = from_found (get key m)
  where
    from_found :
        (b : Option Bucket)
        → stock o now (or_else b (record { tokens = o.capacity; at = now })) ≡ found_stock o now b
    from_found none = omega arith
    from_found (some b) = refl

-- The buckets that `#gc` forgets were full.
gc-level :
    (o : Options) (now : ℕ) (key : String) (m : Map Bucket)
    → Distinct m
    → level o now key (gc o now m) ≤ level o now key m
unfolding gc stock
gc-level o now key m h = elim (Bool-cases (ltb (length m) 10_000)) [
  | inl small ↦ rw small (omega arith)
  | inr large ↦ rw large (rw (get-keep keeps key m h) (kept (get key m)))
]
  where
    keeps : String × Bucket → Bool
    keeps entry = not (leb (entry.1.at + o.capacity * o.refill_ms) now)

    kept :
        (b : Option Bucket)
        → found_stock o now
            (elim b [ none ↦ none | some v ↦ if keeps (key, v) then some v else none ])
          ≤ found_stock o now b
    kept none = omega arith
    kept (some b) = ground arith

gc-Distinct : (o : Options) (now : ℕ) (m : Map Bucket) → Distinct m → Distinct (gc o now m)
unfolding gc
gc-Distinct o now m h = elim (Bool-cases (ltb (length m) 10_000)) [
  | inl small ↦ rw small h
  | inr large ↦ rw large (keep-Distinct _ m h)
]

-- A call of `take`: the key's bucket, refilled, and what becomes of it.
take-Distinct :
    (o : Options) (now : ℕ) (key : String) (m : Map Bucket)
    → Distinct m
    → Distinct (take o now key m).1
unfolding take
take-Distinct o now key m h =
    let b = refilled o now (bucket o now key m) in
    elim (Bool-cases (ltb b.tokens 1)) [
      | inl empty ↦ rw empty (set-Distinct key b m h)
      | inr some_token ↦
          rw some_token (
            gc-Distinct o now _
              (set-Distinct key (record { tokens = b.tokens - 1; at = b.at }) m h))
    ]

-- 1 where a token of the key was spent.
abbrev spent : String → String → ℕ → ℕ
spent j key wait = if same key j && wait == 0 then 1 else 0

spend_one : (t u r d : ℕ) → t ≡ u + 1 → u * r + d + r ≡ t * r + d
spend_one t u r d h = omega (arith, ap (λ n. n * r) h, add-mul u 1 r)

spend-stock :
    (o : Options) (now : ℕ) (b : Bucket)
    → ltb b.tokens 1 ≡ false
    → stock o now (record { tokens = b.tokens - 1; at = b.at }) + o.refill_ms ≡ stock o now b
unfolding stock
spend-stock o now b h = spend_one b.tokens (b.tokens - 1) o.refill_ms (now - b.at) (ground arith)

-- After a refill less than a token's time has passed.
pub refilled-recent :
    (o : Options) (now : ℕ) (b : Bucket)
    → 1 ≤ o.refill_ms
    → now - (refilled o now b).at < o.refill_ms
unfolding refilled
refilled-recent o now b h =
    let filled = (now - b.at) / o.refill_ms in
    let rest : now - b.at < filled * o.refill_ms + o.refill_ms = lt-div-mul-add h in
    elim (Bool-cases (ltb 0 filled)) [
      | inr none_filled ↦
          let zero_filled : filled ≡ 0 = ground (arith, none_filled) in
          let short : now - b.at < 0 * o.refill_ms + o.refill_ms =
            subst (λ f. now - b.at < f * o.refill_ms + o.refill_ms) zero_filled rest in
          rw none_filled (omega (arith, short))
      | inl some_filled ↦ elim (Bool-cases (min o.capacity (b.tokens + filled) == o.capacity)) [
        | inl full ↦ rw (some_filled, full) (omega (arith, h))
        | inr room ↦ rw (some_filled, room) (omega (arith, rest))
      ]
    ]

-- A call takes a token's time from the stock of its key where it spends one, and adds stock nowhere.
weigh_refused :
    (c : Bool) (x y r : ℕ)
    → (c ≡ true → x ≤ y)
    → (if c then x else y) + (if c && false then 1 else 0) * r ≤ y
weigh_refused true x y r h = omega (arith, h refl)
weigh_refused false x y r h = omega arith

weigh_spent :
    (c : Bool) (v x y r : ℕ)
    → v ≤ (if c then x else y)
    → (c ≡ true → x + r ≤ y)
    → v + (if c && true then 1 else 0) * r ≤ y
weigh_spent true v x y r h k = omega (arith, h, k refl)
weigh_spent false v x y r h k = omega (arith, h)

take-level :
    (o : Options) (now : ℕ) (j key : String) (m : Map Bucket)
    → 1 ≤ o.refill_ms
    → Distinct m
    → level o now j (take o now key m).1 + spent j key (take o now key m).0 * o.refill_ms
      ≤ level o now j m
unfolding take
take-level o now j key m some_refill h =
    let b = refilled o now (bucket o now key m) in
    let low = refilled-stock o now (bucket o now key m) in
    let same_stock = bucket-stock o now key m in
    let less : Bucket = record { tokens = b.tokens - 1; at = b.at } in
    elim (Bool-cases (ltb b.tokens 1)) [
      | inl empty ↦
          let waits : ((o.refill_ms + b.at - now) == 0) ≡ false =
            ground (arith, refilled-recent o now (bucket o now key m) some_refill) in
          rw (empty, waits, level-set o now j key b m)
            (weigh_refused (same key j) _ _ o.refill_ms
              (λ e. rw (← (same_iff key j).0 e) (omega (arith, low, same_stock))))
      | inr some_token ↦
          let kept = gc-level o now j (set key less m) (set-Distinct key less m h) in
          let paid = spend-stock o now b some_token in
          rw some_token (
            weigh_spent (same key j) _ (stock o now less) _ o.refill_ms
              (subst (λ n. level o now j (gc o now (set key less m)) ≤ n)
                (level-set o now j key less m) kept)
              (λ e. rw (← (same_iff key j).0 e) (omega (arith, low, same_stock, paid))))
    ]

-- The calls of `take` in their order: the times and the keys.
abbrev pub Calls : Type 0
Calls = List (ℕ × String)

-- How many tokens a key spends.
unfoldable pub granted : Options → String → Calls → Map Bucket → ℕ
granted o j [] m = 0
granted o j ((now, key) ∷ calls) m =
    let (wait, m1) = take o now key m in
    (if same key j && wait == 0 then 1 else 0) + granted o j calls m1

-- The calls run from one time to another, and the clock never runs back.
abbrev pub Between : ℕ → ℕ → Calls → Type 0
Between s t [] = s ≤ t
Between s t ((now, key) ∷ calls) = (s ≤ now) × Between now t calls

Between-le : (s t : ℕ) (calls : Calls) → Between s t calls → s ≤ t
Between-le s t [] h = h
Between-le s t ((now, key) ∷ calls) h = omega (arith, h.0, Between-le now t calls h.1)

granted-level :
    (o : Options) (j : String) (s t : ℕ) (calls : Calls) (m : Map Bucket)
    → 1 ≤ o.refill_ms
    → Distinct m
    → Between s t calls
    → granted o j calls m * o.refill_ms ≤ level o s j m + (t - s)
unfolding granted
granted-level o j s t [] m some_refill h between = omega arith
granted-level o j s t ((now, key) ∷ calls) m some_refill h between =
    let m1 = (take o now key m).1 in
    let one = spent j key (take o now key m).0 in
    let ih = granted-level o j now t calls m1 some_refill (take-Distinct o now key m h) between.1 in
    let step = take-level o now j key m some_refill h in
    let grown = found_stock-grows o s now (get j m) between.0 in
    let late = Between-le now t calls between.1 in
    omega (arith, ih, step, grown, between.0, late, add-mul one (granted o j calls m1) o.refill_ms)

-- Whatever the other keys do, and whatever `#gc` forgets, a key that starts without a bucket
-- spends at most the capacity and one token for each full refill time that passes.
pub granted_bound :
    (o : Options) (j : String) (s t : ℕ) (calls : Calls)
    → 1 ≤ o.refill_ms
    → Between s t calls
    → granted o j calls [] ≤ o.capacity + (t - s) / o.refill_ms
unfolding get
granted_bound o j s t calls some_refill between =
    let fits = granted-level o j s t calls [] some_refill tt between in
    let below =
      (le-div_iff_mul-le {k = o.refill_ms} {x = granted o j calls []}
          {y = (t - s) + o.refill_ms * o.capacity} some_refill).1
        (omega (arith, fits)) in
    omega (arith, below, add-mul-div_left (t - s) o.capacity some_refill)
