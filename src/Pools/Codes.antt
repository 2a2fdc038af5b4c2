-- ===== src/Pools/Codes.antt =====
-- The indices of the pools, by id and by code, under the operations of pool-store.ts.
use dwell.Base.{
  ℕ, String, false, Option, none, some, [], ◌∷◌, Result, ok, err, same, same_iff, same_refl, ◌≡◌,
  refl, subst, ap, ◌∙◌, inl, inr, All, All-map, Bool-cases, Option-cases, arith,
}
use dwell.Base.Int.{ℤ}
use dwell.Base.Map.{Map, get, set, has, get-set}
use dwell.Pools.{
  Pool, is_open, Refusal, PoolStore, Env, PoolInput, index, check, created, new_pool, create,
  allocate, close_found, close, set_budget_found, set_budget, join_found, join, leave, by_code, put,
  closed_pool,
}

-- The operations of the store.
pub data Operation : Type 0 where
  creates : Env → PoolInput → Operation
  closes : ℕ → String → String → Operation
  sets_budget : String → String → ℤ → Operation
  joins : (String → String) → String → String → Operation
  leaves : String → Operation

unfoldable pub perform : Operation → PoolStore → PoolStore
unfolding create close set_budget join leave
perform (creates env input) s = (create env input s).1
perform (closes now id sponsor_id) s = (close now id sponsor_id s).1
perform (sets_budget id sponsor_id budget) s = (set_budget id sponsor_id budget s).1
perform (joins upper code publisher_id) s = (join upper code publisher_id s).1
perform (leaves publisher_id) s = leave publisher_id s

-- A pool stands under its id, and its code names it.
abbrev pub IsEntry : Map String → String × Pool → Type 0
IsEntry codes (id, p) = (p.id ≡ id) × (get p.code codes ≡ some id)

abbrev pub IsIndexed : PoolStore → Type 0
IsIndexed s = All (IsEntry s.by_code) s.by_id

set-All :
    {V : Type 0} (P : String × V → Type 0) (k : String) (v : V) (m : Map V)
    → P (k, v)
    → All P m
    → All P (set k v m)
unfolding set
set-All P k v [] p h = (p, tt)
set-All P k v ((j, w) ∷ m) p h = elim (Bool-cases (same j k)) [
  | inl e ↦ rw e (p, h.1)
  | inr e ↦ rw e (h.0, set-All P k v m p h.1)
]

pub All-get :
    {V : Type 0} (P : String × V → Type 0) (k : String) (m : Map V) {v : V}
    → All P m
    → get k m ≡ some v
    → P (k, v)
unfolding get
All-get P k [] h e = absurd (let z : none ≡ some _ = e in cc)
All-get P k ((j, w) ∷ m) {v} h e = elim (Bool-cases (same j k)) [
  | inl f ↦
      let it : w ≡ v = let z = rw f at e in ground (arith, z) in
      subst (λ x. P (k, x)) it (subst (λ i. P (i, w)) ((same_iff j k).0 f) h.0)
  | inr f ↦ All-get P k m h.1 (rw f at e)
]

-- A code that no pool has can be given to a new one.
index-IsIndexed :
    (p : Pool) (s : PoolStore) → get p.code s.by_code ≡ none → IsIndexed s → IsIndexed (index p s)
unfolding index
index-IsIndexed p s free h =
    set-All (IsEntry (set p.code p.id s.by_code)) p.id p s.by_id
      (refl, get-set p.code p.code p.id s.by_code ∙ rw (same_refl p.code) refl)
      (All-map {P = IsEntry s.by_code} {Q = IsEntry (set p.code p.id s.by_code)} (λ e k. other e k)
        s.by_id h)
  where
    other : (e : String × Pool) → IsEntry s.by_code e → IsEntry (set p.code p.id s.by_code) e
    other (id, q) k = (
      k.0,
      get-set q.code p.code p.id s.by_code ∙ elim (Bool-cases (same p.code q.code)) [
        | inl f ↦ absurd (
            let z : get q.code s.by_code ≡ none =
              subst (λ c. get c s.by_code ≡ none) ((same_iff p.code q.code).0 f) free in
            let y = k.1 in cc)
        | inr f ↦ rw f k.1
      ],
    )

not-has : {V : Type 0} (k : String) (m : Map V) → has k m ≡ false → get k m ≡ none
not-has k m h = elim (Option-cases (get k m)) [
  | inl e ↦ e
  | inr (v, e) ↦ absurd (let z = rw e at h in cc)
]

last_check :
    (env : Env) (input : PoolInput) (code : String) (s : PoolStore) {u : Unit {0}}
    → check env input code s ≡ ok u
    → has code s.by_code ≡ false
unfolding check
last_check env input code s h = ground (arith, h)

created-IsIndexed :
    (r : Result Refusal (Unit {0})) (env : Env) (input : PoolInput) (code : String) (s : PoolStore)
    → check env input code s ≡ r
    → IsIndexed s
    → IsIndexed (created r (new_pool env input code) s).1
created-IsIndexed (err e) env input code s passed h = h
created-IsIndexed (ok u) env input code s passed h =
    index-IsIndexed (new_pool env input code) s
      (not-has code s.by_code (last_check env input code s passed)) h

put-IsIndexed :
    (id : String) (p q : Pool) (s : PoolStore)
    → get id s.by_id ≡ some p
    → q.id ≡ p.id
    → q.code ≡ p.code
    → IsIndexed s
    → IsIndexed (put id q s)
put-IsIndexed id p q s found same_id same_code h =
    let k = All-get (IsEntry s.by_code) id s.by_id h found in
    set-All (IsEntry s.by_code) id q s.by_id
      (same_id ∙ k.0, ap (λ c. get c s.by_code) same_code ∙ k.1) h

close_found-IsIndexed :
    (found : Option Pool) (now : ℕ) (id sponsor_id : String) (s : PoolStore)
    → get id s.by_id ≡ found
    → IsIndexed s
    → IsIndexed (close_found found now id sponsor_id s).1
close_found-IsIndexed none now id sponsor_id s e h = h
close_found-IsIndexed (some p) now id sponsor_id s e h =
    elim (Bool-cases (same p.sponsor_id sponsor_id)) [
      | inr f ↦ rw f h
      | inl f ↦ rw f (elim (Bool-cases (is_open p.status)) [
        | inl g ↦ rw g (put-IsIndexed id p (closed_pool now p) s e refl refl h)
        | inr g ↦ rw g h
      ])
    ]

set_budget_found-IsIndexed :
    (found : Option Pool) (id sponsor_id : String) (budget : ℤ) (s : PoolStore)
    → get id s.by_id ≡ found
    → IsIndexed s
    → IsIndexed (set_budget_found found id sponsor_id budget s).1
set_budget_found-IsIndexed none id sponsor_id budget s e h = h
set_budget_found-IsIndexed (some p) id sponsor_id budget s e h =
    elim (Bool-cases (same p.sponsor_id sponsor_id)) [
      | inr f ↦ rw f h
      | inl f ↦ rw f (elim (Bool-cases (is_open p.status)) [
        | inl g ↦ rw g (put-IsIndexed id p (record p { budget = budget }) s e refl refl h)
        | inr g ↦ rw g h
      ])
    ]

join_found-IsIndexed :
    (found : Option Pool) (publisher_id : String) (s : PoolStore)
    → IsIndexed s
    → IsIndexed (join_found found publisher_id s).1
join_found-IsIndexed none publisher_id s h = h
join_found-IsIndexed (some p) publisher_id s h = elim (Bool-cases (is_open p.status)) [
  | inl g ↦ rw g h
  | inr g ↦ rw g h
]

-- Every operation, refused or not, keeps the index: each pool stands under its id and is the one that
-- its code names.
pub perform-IsIndexed : (op : Operation) (s : PoolStore) → IsIndexed s → IsIndexed (perform op s)
unfolding perform create close set_budget join leave
perform-IsIndexed (creates env input) s h =
    let code = allocate 5 0 env.new_code "" s.by_code in
    created-IsIndexed (check env input code s) env input code s refl h
perform-IsIndexed (closes now id sponsor_id) s h =
    close_found-IsIndexed (get id s.by_id) now id sponsor_id s refl h
perform-IsIndexed (sets_budget id sponsor_id budget) s h =
    set_budget_found-IsIndexed (get id s.by_id) id sponsor_id budget s refl h
perform-IsIndexed (joins upper code publisher_id) s h =
    join_found-IsIndexed (by_code upper code s) publisher_id s h
perform-IsIndexed (leaves publisher_id) s h = h
