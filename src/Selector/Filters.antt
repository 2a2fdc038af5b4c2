-- ===== src/Selector/Filters.antt =====
-- What the filters of `select` let through.
use dwell.Base.{
  Bool, true, List, [], ◌∷◌, Result, ok, ◌≡◌, subst, All, All-map, In, All-In, Bool-cases, inl, inr,
  >>=-eq-ok, arith, String,
}
use dwell.Thrown.{Thrown}
use dwell.Selector.{Campaign, Deps, keep_checked, keep_each, tests, eligible}

-- A campaign that every test of the list holds for.
abbrev pub Passes : List (Campaign → Result Thrown Bool) → Campaign → Type 0
Passes [] c = Unit
Passes (test ∷ tests) c = (test c ≡ ok true) × Passes tests c

module _ (P : Campaign → Type 0) where
  keep_checked-All :
      (test : Campaign → Result Thrown Bool) (cs : List Campaign) {ks : List Campaign}
      → keep_checked test cs ≡ ok ks
      → All P cs
      → All (λ c. P c × (test c ≡ ok true)) ks
  unfolding keep_checked
  keep_checked-All test [] {ks} e h =
      let kept : [] ≡ ks = ground arith in subst (All (λ c. P c × (test c ≡ ok true))) kept tt
  keep_checked-All test (c ∷ cs) {ks} e h =
      let (holds, p, q) = >>=-eq-ok (test c) _ e in
      let (rest, r, s) = >>=-eq-ok (keep_checked test cs) _ q in
      let ih : All (λ c. P c × (test c ≡ ok true)) rest = keep_checked-All test cs r h.1 in
      elim (Bool-cases holds) [
        | inl yes_kept ↦
            let kept : c ∷ rest ≡ ks = ground arith in
            subst (All (λ c. P c × (test c ≡ ok true))) kept ((h.0, cc), ih)
        | inr dropped ↦
            let kept : rest ≡ ks = ground arith in
            subst (All (λ c. P c × (test c ≡ ok true))) kept ih
      ]

keep_each-All :
    (P : Campaign → Type 0) (ts : List (Campaign → Result Thrown Bool)) (cs : List Campaign)
    {ks : List Campaign}
    → keep_each ts cs ≡ ok ks
    → All P cs
    → All (λ c. P c × Passes ts c) ks
unfolding keep_each
keep_each-All P [] cs {ks} e h =
    let same_list : cs ≡ ks = cc in
    subst (All (λ c. P c × Unit)) same_list (All-map (λ c p. (p, tt)) cs h)
keep_each-All P (t ∷ ts) cs {ks} e h =
    let (kept, p, q) = >>=-eq-ok (keep_checked t cs) _ e in
    All-map (λ c x. (x.0.0, (x.0.1, x.1))) ks
      (keep_each-All (λ c. P c × (t c ≡ ok true)) ts kept q (keep_checked-All P t cs p h))

pub eligible-All :
    (d : Deps) (publisher_id : String) {es : List Campaign}
    → eligible d publisher_id ≡ ok es
    → All (λ c. In c d.campaigns × Passes (tests d publisher_id) c) es
unfolding eligible
eligible-All d publisher_id e =
    keep_each-All (λ c. In c d.campaigns) (tests d publisher_id) d.campaigns e (All-In d.campaigns)
