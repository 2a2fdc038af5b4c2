-- ===== src/Base/Sort.antt =====
-- `xs.sort(compare)`: a stable insertion sort. `before x y` is `compare(x, y) < 0`.
use mathlib.Core.Path.{◌≡◌, refl}
use mathlib.Core.Bool.{Bool}
use mathlib.Core.List.{List, [], ◌∷◌}
use mathlib.Core.Logic.{inl, inr}
use Prim.Native.Nat.{ℕ, ◌+◌}
use native.Mathlib.Omega.{arith}
use dwell.Base.Tests.{if◌then◌else◌, Bool-cases}
use dwell.Base.Lists.{All}

module _ {ℓ} {A : Type ℓ} where
  unfoldable pub insert_by : (A → A → Bool) → A → List A → List A
  insert_by before x [] = x ∷ []
  insert_by before x (y ∷ ys) = if before y x then y ∷ insert_by before x ys else x ∷ y ∷ ys

  unfoldable pub sort_by : (A → A → Bool) → List A → List A
  unfolding insert_by
  sort_by before [] = []
  sort_by before (x ∷ xs) = insert_by before x (sort_by before xs)

  -- A measure of the elements, summed up.
  unfoldable pub weight : (A → ℕ) → List A → ℕ
  weight f [] = 0
  weight f (x ∷ xs) = f x + weight f xs

  insert_weight :
      (f : A → ℕ) (before : A → A → Bool) (x : A) (ys : List A)
      → weight f (insert_by before x ys) ≡ f x + weight f ys
  unfolding insert_by weight
  insert_weight f before x [] = refl
  insert_weight f before x (y ∷ ys) = ground (arith, insert_weight f before x ys)

  -- Sorting permutes: no measure changes.
  pub sort_weight :
      (f : A → ℕ) (before : A → A → Bool) (xs : List A) → weight f (sort_by before xs) ≡ weight f xs
  unfolding sort_by weight
  sort_weight f before [] = refl
  sort_weight f before (x ∷ xs) =
      omega (arith, insert_weight f before x (sort_by before xs), sort_weight f before xs)

module _ {ℓ κ} {A : Type ℓ} (P : A → Type κ) where
  insert-All :
      (before : A → A → Bool) (x : A) (ys : List A) → P x → All P ys → All P (insert_by before x ys)
  unfolding insert_by
  insert-All before x [] p h = (p, tt)
  insert-All before x (y ∷ ys) p h = elim (Bool-cases (before y x)) [
    | inl e ↦ rw e (h.0, insert-All before x ys p h.1)
    | inr e ↦ rw e (p, h)
  ]

  pub sort-All : (before : A → A → Bool) (xs : List A) → All P xs → All P (sort_by before xs)
  unfolding sort_by
  sort-All before [] h = tt
  sort-All before (x ∷ xs) h = insert-All before x (sort_by before xs) h.0 (sort-All before xs h.1)

module _ {ℓ κ} {A : Type ℓ} (P : A → Type κ) where
  All-insert :
      (before : A → A → Bool) (x : A) (ys : List A) → All P (insert_by before x ys) → P x × All P ys
  unfolding insert_by
  All-insert before x [] h = h
  All-insert before x (y ∷ ys) h = elim (Bool-cases (before y x)) [
    | inl e ↦
        let k : P y × All P (insert_by before x ys) = rw e at h in
        let (p, rest) = All-insert before x ys k.1 in (p, (k.0, rest))
    | inr e ↦ let k : P x × (P y × All P ys) = rw e at h in k
  ]

  -- A sorted list has no element less.
  pub All-sort : (before : A → A → Bool) (xs : List A) → All P (sort_by before xs) → All P xs
  unfolding sort_by
  All-sort before [] h = tt
  All-sort before (x ∷ xs) h =
      let (p, rest) = All-insert before x (sort_by before xs) h in (p, All-sort before xs rest)
