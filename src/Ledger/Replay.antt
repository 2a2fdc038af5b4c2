-- ===== src/Ledger/Replay.antt =====
-- Rule 3 of ledger.ts: a second write under the same idempotency keys.
use dwell.Base.{
  ℕ, suc, ◌≡◌, refl, sym, ap, ◌∙◌, true, false, inl, inr, some, List, [], ◌∷◌, ok, err, arith, All,
  length, same_comm, same_refl, ◌==◌, Bool-cases, subst,
}
use dwell.Base.Map.{Map, get}
use dwell.Thrown.{partial_idempotency}
use dwell.Ledger.Entry.{Entry, NewEntry, rows}
use dwell.Ledger.Store.{Env, Store, known, stamp, index, write, append}
use dwell.Ledger.Store.Index.{Unique, Lacks, find_key, get-index, rows-stamp}
use dwell.Ledger.Validity.{post-cases}
use dwell.Ledger.Operations.{Ledger, post}

-- Every listed entry is the one that its key finds.
abbrev Found : Map Entry → List Entry → Type 0
Found m = All λ w. get w.idempotency_key m ≡ some w

find-All :
    (ws : List Entry) → Unique (rows ws) → All (λ w. find_key w.idempotency_key ws ≡ some w) ws
find-All [] u = tt
find-All (w ∷ ws) u = (rw (same_refl w.idempotency_key), skip ws u.0 (find-All ws u.1))
  where
    skip :
        (vs : List Entry)
        → Lacks w.idempotency_key (rows vs)
        → All (λ v. find_key v.idempotency_key ws ≡ some v) vs
        → All (λ v. find_key v.idempotency_key (w ∷ ws) ≡ some v) vs
    skip [] lacks found = tt
    skip (v ∷ vs) lacks found = (
      rw (same_comm w.idempotency_key v.idempotency_key, lacks.0) found.0,
      skip vs lacks.1 found.1,
    )

Found-index : (ws : List Entry) (m : Map Entry) → Unique (rows ws) → Found (index ws m) ws
Found-index ws m u = lift ws (find-All ws u)
  where
    lift :
        (vs : List Entry)
        → All (λ v. find_key v.idempotency_key ws ≡ some v) vs
        → Found (index ws m) vs
    lift [] found = tt
    lift (v ∷ vs) found = (rw (get-index v.idempotency_key ws m u, found.0), lift vs found.1)

known-stamp :
    (env : Env) (n : ℕ) (es : List NewEntry) (m : Map Entry)
    → Found m (stamp env n es)
    → known m es ≡ stamp env n es
unfolding known stamp
known-stamp env n [] m found = refl
known-stamp env n (e ∷ es) m found = ground (arith, known-stamp env (suc n) es m found.1)

length-stamp : (env : Env) (n : ℕ) (es : List NewEntry) → length (stamp env n es) ≡ length es
unfolding stamp
length-stamp env n [] = refl
length-stamp env n (e ∷ es) = ap suc (length-stamp env (suc n) es)

-- After a write the index knows the whole group, as it was written.
known-write :
    (env : Env) (es : List NewEntry) (s : Store)
    → Unique es
    → known (write env es s).1.by_key es ≡ (write env es s).0
unfolding write
known-write env es s u =
    known-stamp env s.issued es (index (stamp env s.issued es) s.by_key)
      (Found-index (stamp env s.issued es) s.by_key (rw (rows-stamp env s.issued es) u))

-- After a write the first key of the group is known.
pub get-write_head :
    (env : Env) (e : NewEntry) (es : List NewEntry) (s : Store)
    → Unique (e ∷ es)
    → (w : Entry) × (get e.idempotency_key (write env (e ∷ es) s).1.by_key ≡ some w)
get-write_head env e es s u =
    unfold write stamp in
    (
      _,
      (Found-index (stamp env s.issued (e ∷ es)) s.by_key
          (subst Unique (sym (rows-stamp env s.issued (e ∷ es))) u)).0,
    )

pub append_fresh :
    (env : Env) (es : List NewEntry) (s : Store)
    → (length (known s.by_key es) == 0) ≡ true
    → append env es s ≡ (ok (write env es s).0, (write env es s).1)
unfolding append
append_fresh env es s fresh = rw fresh

append-known :
    (env : Env) (es : List NewEntry) (s : Store)
    → (length (known s.by_key es) == 0) ≡ false
    → (length (known s.by_key es) == length es) ≡ true
    → append env es s ≡ (ok (known s.by_key es), s)
unfolding append
append-known env es s stale whole = rw (stale, whole)

append_torn :
    (env : Env) (es : List NewEntry) (s : Store)
    → (length (known s.by_key es) == 0) ≡ false
    → (length (known s.by_key es) == length es) ≡ false
    → append env es s ≡ (err (partial_idempotency (length (known s.by_key es)) (length es)), s)
unfolding append
append_torn env es s stale torn = rw (stale, torn)

module _ (env env' : Env) (e : NewEntry) (es : List NewEntry) (u : Unique (e ∷ es)) where
  write-again :
      (s : Store)
      → append env' (e ∷ es) (write env (e ∷ es) s).1
        ≡ (ok (write env (e ∷ es) s).0, (write env (e ∷ es) s).1)
  write-again s =
      append-known env' (e ∷ es) (write env (e ∷ es) s).1
        (rw (known-write env (e ∷ es) s u) (stamped s))
        (rw (known-write env (e ∷ es) s u) (stamped_all s))
      ∙ ap (λ ws. (ok ws, (write env (e ∷ es) s).1)) (known-write env (e ∷ es) s u)
    where
      stamped : (s : Store) → (length (write env (e ∷ es) s).0 == 0) ≡ false
      stamped s = unfold write stamp in ground arith

      stamped_all : (s : Store) → (length (write env (e ∷ es) s).0 == length (e ∷ es)) ≡ true
      stamped_all s = unfold write in ground (arith, length-stamp env s.issued (e ∷ es))

  -- A second append of the group returns the first one's entries and writes nothing.
  pub append-again :
      (s : Store) {ws : List Entry}
      → (append env (e ∷ es) s).0 ≡ ok ws
      → append env' (e ∷ es) (append env (e ∷ es) s).1 ≡ (ok ws, (append env (e ∷ es) s).1)
  append-again s {ws} h = elim (Bool-cases (length (known s.by_key (e ∷ es)) == 0)) [
    | inl fresh ↦ cc (append_fresh env (e ∷ es) s fresh, write-again s)
    | inr stale ↦ elim (Bool-cases (length (known s.by_key (e ∷ es)) == length (e ∷ es))) [
      | inl whole ↦
          cc (append-known env (e ∷ es) s stale whole, append-known env' (e ∷ es) s stale whole)
      | inr torn ↦ cc (append_torn env (e ∷ es) s stale torn)
    ]
  ]

  -- The same of `#post`: a group that was posted, or that was known, is not written again.
  pub post-again :
      (l : Ledger) {ws : List Entry}
      → (post env (e ∷ es) l).0 ≡ ok ws
      → ((post env' (e ∷ es) (post env (e ∷ es) l).1).0 ≡ ok ws)
        × ((post env' (e ∷ es) (post env (e ∷ es) l).1).1.store ≡ (post env (e ∷ es) l).1.store)
  post-again l {ws} h = elim (post-cases (e ∷ es)) [
    | inl (t, thrown) ↦ cc (thrown env l)
    | inr (_, goes) ↦
        let l1 : Ledger = (post env (e ∷ es) l).1 in
        let written : (append env (e ∷ es) l.store).0 ≡ ok ws =
          sym (ap (λ o. o.0) (goes env l)) ∙ h in
        let again = append-again l.store written in
        let kept : l1.store ≡ (append env (e ∷ es) l.store).1 = ap (λ o. o.1.store) (goes env l) in
        rw (goes env' l1, kept, again) (refl, refl)
  ]
