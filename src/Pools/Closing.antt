-- ===== src/Pools/Closing.antt =====
-- What may become of a pool.
use dwell.Base.{
  ℕ, String, true, Option, none, some, Result, ok, err, same, same_iff, ◌≡◌, refl, sym, subst, ◌∙◌,
  inl, inr, Bool-cases, arith,
}
use dwell.Base.Int.{ℤ}
use dwell.Base.Map.{get, get-set}
use dwell.Base.Text.{cat}
use dwell.Pools.{
  Pool, PoolStatus, opened, closed, is_open, Refusal, PoolStore, Env, PoolInput, index, check,
  created, new_pool, create, allocate, close_found, close, set_budget_found, set_budget, join_found,
  join, leave, by_code, put, closed_pool,
}
use dwell.Pools.Codes.{Operation, creates, closes, sets_budget, joins, leaves, perform}

-- The id that a new pool draws is unused.
abbrev pub DrawsFresh : Operation → PoolStore → Type 0
DrawsFresh (creates env input) s = get (cat "pool-" env.new_id) s.by_id ≡ none
DrawsFresh (closes now id sponsor_id) s = Unit
DrawsFresh (sets_budget id sponsor_id budget) s = Unit
DrawsFresh (joins upper code publisher_id) s = Unit
DrawsFresh (leaves publisher_id) s = Unit

-- A closed pool does not change.
abbrev pub KeepsClosed : PoolStatus → Pool → Pool → Type 0
KeepsClosed opened p q = Unit
KeepsClosed closed p q = q ≡ p

-- What never changes of a pool, and that a closed one stays as it is.
pub record Evolves (p q : Pool) : Type 0 where
  pub same_id : q.id ≡ p.id
  pub same_sponsor : q.sponsor_id ≡ p.sponsor_id
  pub same_code : q.code ≡ p.code
  pub same_bid : q.bid_cpm ≡ p.bid_cpm
  pub same_cap : q.daily_cap_per_member ≡ p.daily_cap_per_member
  pub keeps_closed : KeepsClosed p.status p q

kept_closed : (s : PoolStatus) (p : Pool) → KeepsClosed s p p
kept_closed opened p = tt
kept_closed closed p = refl

stays : (p : Pool) → Evolves p p
stays p = record {
  same_id = refl;
  same_sponsor = refl;
  same_code = refl;
  same_bid = refl;
  same_cap = refl;
  keeps_closed = kept_closed p.status p;
}

-- A pool that is there is there afterwards, and has evolved.
abbrev pub Lasts : String → Pool → PoolStore → Type 0
Lasts j p s = (q : Pool) × (get j s.by_id ≡ some q) × Evolves p q

open_kept : (s : PoolStatus) (p q : Pool) → is_open s ≡ true → KeepsClosed s p q
open_kept opened p q h = tt
open_kept closed p q h = cc

put-Lasts :
    (id : String) (p q : Pool) (j : String) (r : Pool) (s : PoolStore)
    → get id s.by_id ≡ some p
    → Evolves p q
    → get j s.by_id ≡ some r
    → Lasts j r (put id q s)
put-Lasts id p q j r s found evolved there = elim (Bool-cases (same id j)) [
  | inl e ↦
      let at_id : get id s.by_id ≡ some r =
        subst (λ k. get k s.by_id ≡ some r) (sym ((same_iff id j).0 e)) there in
      let it : p ≡ r = let z = sym found ∙ at_id in ground (arith, z) in
      (q, get-set j id q s.by_id ∙ rw e refl, subst (λ x. Evolves x q) it evolved)
  | inr e ↦ (r, get-set j id q s.by_id ∙ rw e there, stays r)
]

close_found-Lasts :
    (found : Option Pool) (now : ℕ) (id sponsor_id : String) (s : PoolStore) (j : String) (r : Pool)
    → get id s.by_id ≡ found
    → get j s.by_id ≡ some r
    → Lasts j r (close_found found now id sponsor_id s).1
close_found-Lasts none now id sponsor_id s j r e there = (r, there, stays r)
close_found-Lasts (some p) now id sponsor_id s j r e there =
    elim (Bool-cases (same p.sponsor_id sponsor_id)) [
      | inr f ↦ rw f (r, there, stays r)
      | inl f ↦ rw f (elim (Bool-cases (is_open p.status)) [
        | inr g ↦ rw g (r, there, stays r)
        | inl g ↦ rw g (
            put-Lasts id p (closed_pool now p) j r s e
              (record {
                same_id = refl;
                same_sponsor = refl;
                same_code = refl;
                same_bid = refl;
                same_cap = refl;
                keeps_closed = open_kept p.status p (closed_pool now p) g;
              })
              there)
      ])
    ]

set_budget_found-Lasts :
    (found : Option Pool) (id sponsor_id : String) (budget : ℤ) (s : PoolStore) (j : String)
    (r : Pool)
    → get id s.by_id ≡ found
    → get j s.by_id ≡ some r
    → Lasts j r (set_budget_found found id sponsor_id budget s).1
set_budget_found-Lasts none id sponsor_id budget s j r e there = (r, there, stays r)
set_budget_found-Lasts (some p) id sponsor_id budget s j r e there =
    elim (Bool-cases (same p.sponsor_id sponsor_id)) [
      | inr f ↦ rw f (r, there, stays r)
      | inl f ↦ rw f (elim (Bool-cases (is_open p.status)) [
        | inr g ↦ rw g (r, there, stays r)
        | inl g ↦ rw g (
            put-Lasts id p (record p { budget = budget }) j r s e
              (record {
                same_id = refl;
                same_sponsor = refl;
                same_code = refl;
                same_bid = refl;
                same_cap = refl;
                keeps_closed = open_kept p.status p (record p { budget = budget }) g;
              })
              there)
      ])
    ]

created-Lasts :
    (outcome : Result Refusal (Unit {0})) (env : Env) (input : PoolInput) (code : String)
    (s : PoolStore) (j : String) (r : Pool)
    → get (cat "pool-" env.new_id) s.by_id ≡ none
    → get j s.by_id ≡ some r
    → Lasts j r (created outcome (new_pool env input code) s).1
unfolding index
created-Lasts (err e) env input code s j r fresh there = (r, there, stays r)
created-Lasts (ok u) env input code s j r fresh there =
    let id = cat "pool-" env.new_id in
    let pool = new_pool env input code in
    elim (Bool-cases (same id j)) [
      | inl e ↦
          let gone : get j s.by_id ≡ none =
            subst (λ k. get k s.by_id ≡ none) ((same_iff id j).0 e) fresh in
          absurd (cc)
      | inr e ↦ (r, get-set j id pool s.by_id ∙ rw e there, stays r)
    ]

join_found-Lasts :
    (found : Option Pool) (publisher_id : String) (s : PoolStore) (j : String) (r : Pool)
    → get j s.by_id ≡ some r
    → Lasts j r (join_found found publisher_id s).1
join_found-Lasts none publisher_id s j r there = (r, there, stays r)
join_found-Lasts (some p) publisher_id s j r there = elim (Bool-cases (is_open p.status)) [
  | inl g ↦ rw g (r, there, stays r)
  | inr g ↦ rw g (r, there, stays r)
]

-- Under an operation that draws an unused id for a new pool, no pool goes, none changes its id, its
-- sponsor, its code, its bid or its cap, and a closed pool changes in nothing.
pub perform-Lasts :
    (op : Operation) (s : PoolStore) (j : String) (p : Pool)
    → DrawsFresh op s
    → get j s.by_id ≡ some p
    → Lasts j p (perform op s)
unfolding perform create close set_budget join leave
perform-Lasts (creates env input) s j p fresh there =
    let code = allocate 5 0 env.new_code "" s.by_code in
    created-Lasts (check env input code s) env input code s j p fresh there
perform-Lasts (closes now id sponsor_id) s j p fresh there =
    close_found-Lasts (get id s.by_id) now id sponsor_id s j p refl there
perform-Lasts (sets_budget id sponsor_id budget) s j p fresh there =
    set_budget_found-Lasts (get id s.by_id) id sponsor_id budget s j p refl there
perform-Lasts (joins upper code publisher_id) s j p fresh there =
    join_found-Lasts (by_code upper code s) publisher_id s j p there
perform-Lasts (leaves publisher_id) s j p fresh there = (p, there, stays p)
