-- ===== src/Money/Checked.antt =====
-- The checked arithmetic of money.ts against the exact arithmetic of the integers.
use dwell.Base.{◌+◌, ◌≤◌, ◌≡◌, ok, List, [], ◌∷◌, >>=-eq-ok, arith}
use dwell.Base.Int.{ℤ, pos, pos_part, neg_part, ◌+ℤ◌, ◌-ℤ◌, negate, total, int_laws, parts_of_eq}
use dwell.Money.{max_stroops, stroops, add, sub, neg, sum_from, sum}

-- An amount that an `int64` holds, and its negation too.
abbrev pub InRange : ℤ → Type 0
InRange v = pos_part v + neg_part v ≤ max_stroops

-- `stroops` lets through exactly the amounts of the symmetric `int64` range, unchanged.
pub stroops_ok : (v : ℤ) → InRange v → stroops v ≡ ok v
unfolding stroops
stroops_ok v h = ground arith

pub stroops-eq-ok : (v : ℤ) {w : ℤ} → stroops v ≡ ok w → (w ≡ v) × InRange v
unfolding stroops
stroops-eq-ok v h = ground arith

pub add_ok : (a b : ℤ) → InRange (a +ℤ b) → add a b ≡ ok (a +ℤ b)
unfolding add
add_ok a b h = stroops_ok (a +ℤ b) h

pub add-eq-ok : (a b : ℤ) {w : ℤ} → add a b ≡ ok w → (w ≡ a +ℤ b) × InRange (a +ℤ b)
unfolding add
add-eq-ok a b h = stroops-eq-ok (a +ℤ b) h

pub InRange-negate : (a : ℤ) → InRange a → InRange (negate a)
unfolding negate
InRange-negate a h = ground arith

pub neg_ok : (a : ℤ) → InRange a → neg a ≡ ok (negate a)
unfolding neg
neg_ok a h = stroops_ok (negate a) (InRange-negate a h)

pub neg-eq-ok : (a : ℤ) {w : ℤ} → neg a ≡ ok w → w ≡ negate a
unfolding neg
neg-eq-ok a h = (stroops-eq-ok (negate a) h).0

pub neg_fits : (a : ℤ) {w : ℤ} → neg a ≡ ok w → InRange a
unfolding neg negate
neg_fits a h = let (_, fits) = stroops-eq-ok (negate a) h in ground (arith, fits)

pub sub_ok : (a b : ℤ) → InRange (a -ℤ b) → sub a b ≡ ok (a -ℤ b)
unfolding sub
sub_ok a b h = stroops_ok (a -ℤ b) h

pub sub-eq-ok : (a b : ℤ) {w : ℤ} → sub a b ≡ ok w → (w ≡ a -ℤ b) × InRange (a -ℤ b)
unfolding sub
sub-eq-ok a b h = stroops-eq-ok (a -ℤ b) h

pub sum_from-eq-total :
    (acc : ℤ) (xs : List ℤ) {t : ℤ} → sum_from acc xs ≡ ok t → t ≡ acc +ℤ total xs
unfolding sum_from total
sum_from-eq-total acc [] {t} h =
    let e : t ≡ acc = ground arith in omega (int_laws, parts_of_eq _ _ e)
sum_from-eq-total acc (x ∷ xs) {t} h =
    let (a, p, q) = >>=-eq-ok (add acc x) (λ acc'. sum_from acc' xs) h in
    let ih : t ≡ a +ℤ total xs = sum_from-eq-total a xs q in
    omega (int_laws, parts_of_eq _ _ ih, parts_of_eq _ _ (add-eq-ok acc x p).0)

-- A checked sum that returns is the exact sum: no wrap-around, whatever the order of signs.
pub sum-eq-total : (xs : List ℤ) {t : ℤ} → sum xs ≡ ok t → t ≡ total xs
unfolding sum
sum-eq-total xs h = omega (int_laws, parts_of_eq _ _ (sum_from-eq-total (pos 0) xs h))

zero_add : (x : ℤ) → pos 0 +ℤ x ≡ x
zero_add x = omega int_laws

-- Opposite amounts cancel in a checked sum, and so do three that cancel with their parts in range.
pub sum_two : (x y : ℤ) → InRange x → x +ℤ y ≡ pos 0 → sum (x ∷ y ∷ []) ≡ ok (pos 0)
unfolding sum
sum_two x y h zero =
    rw (add_ok (pos 0) x (rw zero_add h), zero_add x, add_ok x y (rw zero (omega arith)), zero)

pub sum_three :
    (x y z : ℤ)
    → InRange x
    → InRange (x +ℤ y)
    → x +ℤ y +ℤ z ≡ pos 0
    → sum (x ∷ y ∷ z ∷ []) ≡ ok (pos 0)
unfolding sum
sum_three x y z h k zero = rw (
  add_ok (pos 0) x (rw zero_add h),
  zero_add x,
  add_ok x y k,
  add_ok (x +ℤ y) z (rw zero (omega arith)),
  zero,
)
