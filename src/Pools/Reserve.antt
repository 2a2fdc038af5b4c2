-- ===== src/Pools/Reserve.antt =====
-- What is set aside for the open pools of a sponsor.
use dwell.Base.{
  String, List, [], ◌∷◌, Result, ok, >>=-eq-ok, if◌then◌else◌, ◌≡◌, refl, sym, subst, inl, inr,
  Bool-cases, arith,
}
use dwell.Base.Int.{
  ℤ, pos, pos_part, ◌+ℤ◌, ◌-ℤ◌, ◌≤ℤ◌, ltb_ℤ, int_laws, one_sided, eq_of_parts, parts_of_eq,
}
use dwell.Base.Map.{Map}
use dwell.Thrown.{Thrown}
use dwell.Money.Checked.{stroops-eq-ok}
use dwell.Selector.{Campaign}
use dwell.Pools.{Pool, PoolStore, open_for_sponsor, pool_spent, reserve_from, pool_reserve}

-- What is left of an amount, where nothing is left below zero.
abbrev pub left_of : ℤ → ℤ → ℤ
left_of budget used = pos (pos_part (budget -ℤ used))

-- An amount is the exact sum of what is left of the pools' budgets.
abbrev pub IsLeftOf : (Pool → Result Thrown ℤ) → List Pool → ℤ → Type 0
IsLeftOf spent [] v = v ≡ pos 0
IsLeftOf spent (p ∷ ps) v =
    (used : ℤ) × ((rest : ℤ) × ((spent p ≡ ok used)
        × (v ≡ left_of p.budget used +ℤ rest)
        × IsLeftOf spent ps rest))

left_added :
    (acc left : ℤ) → (if ltb_ℤ (pos 0) left then acc +ℤ left else acc) ≡ acc +ℤ pos (pos_part left)
left_added acc left = elim (Bool-cases (ltb_ℤ (pos 0) left)) [
  | inl e ↦
      let positive : pos 0 ≤ℤ left = ground (arith, e) in
      rw e (eq_of_parts _ _ (omega (int_laws, positive, one_sided left)))
  | inr e ↦
      let negative : left ≤ℤ pos 0 = ground (arith, e) in
      rw e (eq_of_parts _ _ (omega (int_laws, negative, one_sided left)))
]

reserve_from_lem :
    (spent : Pool → Result Thrown ℤ) (acc : ℤ) (ps : List Pool) {v : ℤ}
    → reserve_from spent acc ps ≡ ok v
    → (sum : ℤ) × ((v ≡ acc +ℤ sum) × (pos 0 ≤ℤ sum) × IsLeftOf spent ps sum)
unfolding reserve_from
reserve_from_lem spent acc [] {v} h =
    let it : acc ≡ v = ground arith in
    (pos 0, (omega (int_laws, parts_of_eq _ _ it), omega arith, refl))
reserve_from_lem spent acc (p ∷ ps) {v} h =
    let (used, a, b) = >>=-eq-ok (spent p) _ h in
    let left = p.budget -ℤ used in
    let (rest, (c, d, all)) =
      reserve_from_lem spent (if ltb_ℤ (pos 0) left then acc +ℤ left else acc) ps b in
    let grown = left_added acc left in
    (
      left_of p.budget used +ℤ rest,
      (
        omega (int_laws, parts_of_eq _ _ c, parts_of_eq _ _ grown),
        omega (int_laws, d),
        (used, (rest, (a, refl, all))),
      ),
    )

-- What is set aside, where it is returned, is the exact sum, over the open pools of the sponsor, of
-- what is left of the pool's budget after what was spent on it, where a pool that spent more than its
-- budget counts for nothing; and it is not below zero.
pub pool_reserve_covers :
    (spent_on : List String → Result Thrown ℤ) (campaigns : Map Campaign) (sponsor_id : String)
    (s : PoolStore) {v : ℤ}
    → pool_reserve spent_on campaigns sponsor_id s ≡ ok v
    → (pos 0 ≤ℤ v) × IsLeftOf (pool_spent spent_on campaigns) (open_for_sponsor sponsor_id s) v
unfolding pool_reserve
pool_reserve_covers spent_on campaigns sponsor_id s {v} h =
    let pools = open_for_sponsor sponsor_id s in
    let spent = pool_spent spent_on campaigns in
    let (summed, a, b) = >>=-eq-ok (reserve_from spent (pos 0) pools) _ h in
    let it : v ≡ summed = (stroops-eq-ok summed b).0 in
    let (sum, (c, d, all)) = reserve_from_lem spent (pos 0) pools a in
    let whole : v ≡ sum = omega (int_laws, parts_of_eq _ _ it, parts_of_eq _ _ c) in
    subst (λ x. (pos 0 ≤ℤ x) × IsLeftOf spent pools x) (sym whole) (d, all)
