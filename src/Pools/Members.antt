-- ===== src/Pools/Members.antt =====
-- What the operations answer, and who is a member of which open pool.
use dwell.Base.{
  ℕ, String, true, Option, none, some, Result, ok, err, same, same_iff, same_refl, if◌then◌else◌,
  ◌≡◌, refl, sym, subst, ap, ◌∙◌, inl, inr, Bool-cases, Option-cases, arith,
}
use dwell.Base.Int.{ℤ}
use dwell.Base.Map.{get, set, get-set}
use dwell.Sanitize.{trim}
use dwell.Pools.{
  Pool, is_open, Refusal, PoolStore, Env, PoolInput, index, check, created, new_pool, create,
  allocate, close_found, close, set_budget_found, set_budget, join_found, join, by_code, put,
  closed_pool, pool_of, open_pool_at,
}
use dwell.Pools.Codes.{IsIndexed, IsEntry, All-get}

-- A refusal leaves the store as it was; a pool that is returned is the one stored under its id.
abbrev pub Answers : PoolStore → Result Refusal Pool × PoolStore → Type 0
Answers s (err e, s') = s' ≡ s
Answers s (ok p, s') = get p.id s'.by_id ≡ some p

created-Answers :
    (r : Result Refusal (Unit {0})) (p : Pool) (s : PoolStore) → Answers s (created r p s)
unfolding index
created-Answers (err e) p s = refl
created-Answers (ok u) p s = get-set p.id p.id p s.by_id ∙ rw (same_refl p.id) refl

at_own_id :
    (id : String) (p : Pool) (s : PoolStore) → IsIndexed s → get id s.by_id ≡ some p → p.id ≡ id
at_own_id id p s h found = (All-get (IsEntry s.by_code) id s.by_id h found).0

put-get :
    (id : String) (p q : Pool) (s : PoolStore)
    → IsIndexed s
    → get id s.by_id ≡ some p
    → q.id ≡ p.id
    → get q.id (put id q s).by_id ≡ some q
put-get id p q s h found named =
    let own : id ≡ q.id = sym (named ∙ at_own_id id p s h found) in
    get-set q.id id q s.by_id ∙ rw ((same_iff id q.id).1 own) refl

close_found-Answers :
    (found : Option Pool) (now : ℕ) (id sponsor_id : String) (s : PoolStore)
    → get id s.by_id ≡ found
    → IsIndexed s
    → Answers s (close_found found now id sponsor_id s)
close_found-Answers none now id sponsor_id s e h = refl
close_found-Answers (some p) now id sponsor_id s e h =
    elim (Bool-cases (same p.sponsor_id sponsor_id)) [
      | inr f ↦ rw f refl
      | inl f ↦ rw f (elim (Bool-cases (is_open p.status)) [
        | inl g ↦ rw g (put-get id p (closed_pool now p) s h e refl)
        | inr g ↦ rw g (subst (λ k. get k s.by_id ≡ some p) (sym (at_own_id id p s h e)) e)
      ])
    ]

set_budget_found-Answers :
    (found : Option Pool) (id sponsor_id : String) (budget : ℤ) (s : PoolStore)
    → get id s.by_id ≡ found
    → IsIndexed s
    → Answers s (set_budget_found found id sponsor_id budget s)
set_budget_found-Answers none id sponsor_id budget s e h = refl
set_budget_found-Answers (some p) id sponsor_id budget s e h =
    elim (Bool-cases (same p.sponsor_id sponsor_id)) [
      | inr f ↦ rw f refl
      | inl f ↦ rw f (elim (Bool-cases (is_open p.status)) [
        | inl g ↦ rw g (put-get id p (record p { budget = budget }) s h e refl)
        | inr g ↦ rw g refl
      ])
    ]

by_code-get :
    (upper : String → String) (code : String) (s : PoolStore) {p : Pool}
    → IsIndexed s
    → by_code upper code s ≡ some p
    → get p.id s.by_id ≡ some p
unfolding by_code
by_code-get upper code s {p} h found = elim (Option-cases (get (upper (trim code)) s.by_code)) [
  | inl e ↦ absurd (let z = rw e at found in cc)
  | inr (id, e) ↦
      let at_id : get id s.by_id ≡ some p = rw e at found in
      subst (λ k. get k s.by_id ≡ some p) (sym (at_own_id id p s h at_id)) at_id
]

join_found-Answers :
    (found : Option Pool) (publisher_id : String) (s : PoolStore)
    → ((p : Pool) → found ≡ some p → get p.id s.by_id ≡ some p)
    → Answers s (join_found found publisher_id s)
join_found-Answers none publisher_id s h = refl
join_found-Answers (some p) publisher_id s h = elim (Bool-cases (is_open p.status)) [
  | inl g ↦ rw g (h p refl)
  | inr g ↦ rw g refl
]

-- On an indexed store, a refused `create`, `close`, `setBudget` or `join` leaves the store as it was,
-- and the pool that one returns is the one that the store then holds under its id.
pub operations-Answers :
    (env : Env) (input : PoolInput) (now : ℕ) (id sponsor_id : String) (budget : ℤ)
    (upper : String → String) (code publisher_id : String) (s : PoolStore)
    → IsIndexed s
    → Answers s (create env input s)
      × Answers s (close now id sponsor_id s)
      × Answers s (set_budget id sponsor_id budget s)
      × Answers s (join upper code publisher_id s)
unfolding create close set_budget join
operations-Answers env input now id sponsor_id budget upper code publisher_id s h = (
  created-Answers (check env input (allocate 5 0 env.new_code "" s.by_code) s)
      (new_pool env input (allocate 5 0 env.new_code "" s.by_code)) s,
  close_found-Answers (get id s.by_id) now id sponsor_id s refl h,
  set_budget_found-Answers (get id s.by_id) id sponsor_id budget s refl h,
  join_found-Answers (by_code upper code s) publisher_id s
      (λ p found. by_code-get upper code s h found),
)

joined :
    (found : Option Pool) (publisher_id other : String) (s : PoolStore) {p : Pool} {s' : PoolStore}
    → join_found found publisher_id s ≡ (ok p, s')
    → ((q : Pool) → found ≡ some q → get q.id s.by_id ≡ some q)
    → (is_open p.status ≡ true)
      × (get p.id s.by_id ≡ some p)
      × (s' ≡ record s { member_of = set publisher_id p.id s.member_of })
joined none publisher_id other s h k =
    absurd (let z : ◌≡◌ {A = Result Refusal Pool} (err _) (ok _) = ap (λ x. x.0) h in cc)
joined (some q) publisher_id other s {p} {s'} h k = elim (Bool-cases (is_open q.status)) [
  | inr g ↦ absurd (
      let z = rw g at h in
      let y : ◌≡◌ {A = Result Refusal Pool} (err _) (ok _) = ap (λ x. x.0) z in cc)
  | inl g ↦
      let z : ◌≡◌ {A = Result Refusal Pool × PoolStore}
          (ok q, record s { member_of = set publisher_id q.id s.member_of }) (ok p, s') =
        rw g at h in
      let it : q ≡ p =
        let y : ◌≡◌ {A = Result Refusal Pool} (ok q) (ok p) = ap (λ x. x.0) z in
        ground (arith, y) in
      (
        subst (λ (x : Pool). is_open x.status ≡ true) it g,
        subst (λ (x : Pool). get x.id s.by_id ≡ some x) it (k q refl),
        sym (ap (λ x. x.1) z)
            ∙ ap (λ (x : Pool). record s { member_of = set publisher_id x.id s.member_of }) it,
      )
]

-- On an indexed store, who joins a pool is a member of that open pool and of no other, whatever pool
-- he was in, and nobody else's pool changes.
pub join_lem :
    (upper : String → String) (code publisher_id other : String) (s : PoolStore) {p : Pool}
    {s' : PoolStore}
    → IsIndexed s
    → join upper code publisher_id s ≡ (ok p, s')
    → pool_of other s' ≡ (if same publisher_id other then some p.id else pool_of other s)
unfolding join pool_of
join_lem upper code publisher_id other s {p} {s'} h e =
    let (open_pool, there, it) =
      joined (by_code upper code s) publisher_id other s e
        (λ q found. by_code-get upper code s h found) in
    let member : get other s'.member_of
        ≡ (if same publisher_id other then some p.id else get other s.member_of) =
      ap (λ (x : PoolStore). get other x.member_of) it
      ∙ get-set other publisher_id p.id s.member_of in
    ap (open_pool_at (get other s'.member_of)) it
    ∙ ap (λ m. open_pool_at m (record s { member_of = set publisher_id p.id s.member_of })) member
    ∙ elim (Bool-cases (same publisher_id other)) [
      | inl f ↦ rw (f, there, open_pool) refl
      | inr f ↦ rw f (at_members (get other s.member_of))
    ]
  where
    at_members :
        (m : Option String)
        → open_pool_at m (record s { member_of = set publisher_id p.id s.member_of })
          ≡ open_pool_at m s
    at_members none = refl
    at_members (some id) = refl
