-- ===== src/Ledger/Retry/Reverse.antt =====
-- A retried reversal, and the theorem for every operation.
use dwell.Base.{
  ℕ, suc, String, ◌≡◌, ◌≢◌, refl, sym, ap, ◌∙◌, true, false, ◌⊎◌, inl, inr, List, [], ◌∷◌, Result,
  ok, err, arith, length, length-append, same_refl, ◌==◌, Bool-cases, Result-cases, returns,
  Holds-ok, keep, keep-append,
}
use dwell.Thrown.{Thrown}
use dwell.Ledger.Entry.{Entry, NewEntry, RefType, in_ref, same_ref_type_refl}
use dwell.Ledger.Store.{Env, Store, known, stamp, write, append, by_ref}
use dwell.Ledger.Validity.{IsValid, InRef, post-cases, append-Written, kept, wrote}
use dwell.Ledger.Replay.{append_fresh}
use dwell.Ledger.History.{
  IsGroup, Operation, deposits, bills, submits, settles, reverses, perform, deposit_group-Holds,
  impression_group-Holds, payout_settled_group-Holds, reversal_group-Holds, by_ref-Unique,
  reverse_nothing, reverse_done, reverse_new,
}
use dwell.Ledger.Keys.{reversal_group-eq-ok, reversal_rows-InRef}
use dwell.Ledger.Retry.{Retried, submit-Retried, payout_submit-Retried}
use dwell.Ledger.Operations.{
  Ledger, post, submit, deposit, post_impression, payout_settled, reversal_ref, reversal_group,
  reverse,
}

in_ref-true :
    (t : RefType) (ref : String) (e : NewEntry)
    → (e.ref_type ≡ t) × (e.ref_id ≡ ref)
    → in_ref t ref e ≡ true
in_ref-true t ref e h = rw (h.0, h.1, same_ref_type_refl t, same_refl ref)

keep-stamp :
    (t : RefType) (ref : String) (env : Env) (n : ℕ) (es : List NewEntry)
    → InRef t ref es
    → keep (λ e. in_ref t ref e.row) (stamp env n es) ≡ stamp env n es
unfolding stamp
keep-stamp t ref env n [] h = refl
keep-stamp t ref env n (e ∷ es) h =
    rw (in_ref-true t ref e h.0, keep-stamp t ref env (suc n) es h.1)

nil-of-length {ℓ} : {A : Type ℓ} (xs : List A) → (length xs == 0) ≡ true → xs ≡ []
nil-of-length [] h = refl
nil-of-length (x ∷ xs) h = ground arith

-- Where a reference has no rows, a write of some rows of it shows exactly those.
pub by_ref-write :
    (t : RefType) (ref : String) (env : Env) (es : List NewEntry) (s : Store)
    → InRef t ref es
    → (length (by_ref t ref s) == 0) ≡ true
    → by_ref t ref (write env es s).1 ≡ (write env es s).0
unfolding by_ref write
by_ref-write t ref env es s h none_yet = rw (
  keep-append (λ (e : Entry). in_ref t ref e.row) s.entries (stamp env s.issued es),
  nil-of-length (by_ref t ref s) none_yet,
  keep-stamp t ref env s.issued es h,
)

-- A write takes no row away from a reference.
by_ref-grows :
    (t : RefType) (ref : String) (env : Env) (es : List NewEntry) (s : Store)
    → (length (by_ref t ref s) == 0) ≡ false
    → (length (by_ref t ref (write env es s).1) == 0) ≡ false
unfolding by_ref write
by_ref-grows t ref env es s some_row =
    rw (keep-append (λ (e : Entry). in_ref t ref e.row) s.entries (stamp env s.issued es)) (
      ground (
        arith,
        length-append (keep (λ (e : Entry). in_ref t ref e.row) s.entries)
            (keep (λ (e : Entry). in_ref t ref e.row) (stamp env s.issued es)),
      ))

stamp-some :
    (env : Env) (n : ℕ) (es : List NewEntry) → es ≢ [] → (length (stamp env n es) == 0) ≡ false
unfolding stamp
stamp-some env n [] h = absurd (h refl)
stamp-some env n (e ∷ es) h = ground arith

module _ (env' : Env) (t : RefType) (ref : String) (l : Ledger)
    (some_row : (length (by_ref t ref l.store) == 0) ≡ false)
    (fresh : (length (by_ref RefType.reversal (reversal_ref ref) l.store) == 0) ≡ true) where
  -- A retry at a ledger with the same store posts the same group.
  retry_kept :
      (l1 : Ledger)
      → l1.store ≡ l.store
      → reverse env' t ref l1
        ≡ submit env' (reversal_group (reversal_ref ref) (by_ref t ref l.store)) l1
  retry_kept l1 e =
      reverse_new env' t ref l1 (rw e some_row) (rw e fresh)
      ∙ ap (λ s. submit env' (reversal_group (reversal_ref ref) (by_ref t ref s)) l1) e

  -- A retry at a ledger that has the group finds it.
  retry_wrote :
      (env : Env) (es : List NewEntry) (l1 : Ledger)
      → InRef RefType.reversal (reversal_ref ref) es
      → es ≢ []
      → l1.store ≡ (write env es l.store).1
      → reverse env' t ref l1 ≡ (ok (write env es l.store).0, l1)
  retry_wrote env es l1 inside some e =
      let shows : by_ref RefType.reversal (reversal_ref ref) l1.store ≡ (write env es l.store).0 =
        rw e (by_ref-write RefType.reversal (reversal_ref ref) env es l.store inside fresh) in
      reverse_done env' t ref l1 (rw e (by_ref-grows t ref env es l.store some_row))
        (rw shows (unfold write in stamp-some env l.store.issued es some))
      ∙ ap (λ ws. (ok ws, l1)) shows

-- How a post of a built group ends, if it returns: the store is as it was, or no key of the group
-- was known, and the store holds the group now.
pub post-ends :
    (env : Env) (es : List NewEntry) (l : Ledger) {ws : List Entry}
    → (post env es l).0 ≡ ok ws
    → ((post env es l).1.store ≡ l.store)
      ⊎ (((length (known l.store.by_key es) == 0) ≡ true)
          × (ws ≡ (write env es l.store).0)
          × ((post env es l).1.store ≡ (write env es l.store).1))
post-ends env es l {ws} h = elim (post-cases es) [
  | inl (t, thrown) ↦ inl (ap (λ o. o.1.store) (thrown env l))
  | inr (_, goes) ↦ elim (append-Written env es l.store) [
    | kept same_store ↦ inl (ap (λ o. o.1.store) (goes env l) ∙ same_store)
    | wrote fresh new_store ↦
        let first : (append env es l.store).0 ≡ ok (write env es l.store).0 =
          ap (λ o. o.0) (append_fresh env es l.store fresh) in
        inr (fresh, cc (goes env l, first), ap (λ o. o.1.store) (goes env l) ∙ new_store)
  ]
]

-- A reversal that was posted is found by the retry, or the retry posts the same group.
posted-Retried :
    (env env' : Env) (t : RefType) (ref : String) (l : Ledger) {ws : List Entry}
    → IsValid l.store
    → (some_row : (length (by_ref t ref l.store) == 0) ≡ false)
    → (fresh : (length (by_ref RefType.reversal (reversal_ref ref) l.store) == 0) ≡ true)
    → (es : List NewEntry) → reversal_group (reversal_ref ref) (by_ref t ref l.store) ≡ ok es
    → (post env es l).0 ≡ ok ws
    → ((reverse env' t ref (post env es l).1).0 ≡ ok ws)
      × ((reverse env' t ref (post env es l).1).1.store ≡ (post env es l).1.store)
posted-Retried env env' t ref l {ws} v some_row fresh es built h = elim (post-ends env es l h) [
  | inl same_store ↦
      rw (retry_kept env' t ref l some_row fresh (post env es l).1 same_store, built)
        (submit-Retried env env' l (returns {a = es} group) h)
  | inr (_, first, new_store) ↦
      rw (retry_wrote env' t ref l some_row fresh env es (post env es l).1 inside group.4 new_store)
        (ap ok (sym first), refl)
]
  where
    inside : InRef RefType.reversal (reversal_ref ref) es
    inside =
        rw (reversal_group-eq-ok (reversal_ref ref) (by_ref t ref l.store) built)
          (reversal_rows-InRef (reversal_ref ref) (by_ref t ref l.store))

    group : IsGroup es
    group =
        Holds-ok
          (reversal_group-Holds (reversal_ref ref) (by_ref t ref l.store)
            (by_ref-Unique t ref l.store v) some_row)
          built

reverse-Retried :
    (env env' : Env) (t : RefType) (ref : String) (l : Ledger) {ws : List Entry}
    → IsValid l.store
    → (reverse env t ref l).0 ≡ ok ws
    → Retried (λ e. reverse e t ref) env env' l ws
reverse-Retried env env' t ref l {ws} v h = elim (Bool-cases (length (by_ref t ref l.store) == 0)) [
  | inl none_there ↦ cc (reverse_nothing env t ref l none_there)
  | inr some_row ↦
      elim (Bool-cases (length (by_ref RefType.reversal (reversal_ref ref) l.store) == 0)) [
        | inr done ↦
            rw (reverse_done env t ref l some_row done, reverse_done env' t ref l some_row done)
              (cc (reverse_done env t ref l some_row done), refl)
        | inl fresh ↦ posted some_row fresh (Result-cases group)
      ]
]
  where
    group : Result Thrown (List NewEntry)
    group = reversal_group (reversal_ref ref) (by_ref t ref l.store)

    posted :
        (some_row : (length (by_ref t ref l.store) == 0) ≡ false)
        → (fresh : (length (by_ref RefType.reversal (reversal_ref ref) l.store) == 0) ≡ true)
        → ((es : List NewEntry) × (group ≡ ok es)) ⊎ ((e : Thrown) × (group ≡ err e))
        → Retried (λ e. reverse e t ref) env env' l ws
    posted some_row fresh (inr (e, thrown)) =
        let first : reverse env t ref l ≡ (err e, l) =
          reverse_new env t ref l some_row fresh ∙ ap (λ r. submit env r l) thrown in
        cc first
    posted some_row fresh (inl (es, built)) =
        let first : reverse env t ref l ≡ post env es l =
          reverse_new env t ref l some_row fresh ∙ ap (λ r. submit env r l) built in
        rw first (
          posted-Retried env env' t ref l v some_row fresh es built (ap (λ o. o.0) (sym first) ∙ h))

-- Called again, whatever the clock says by then, an operation that has returned returns the same
-- entries, and neither the entries nor the index change: deposits, impressions, payouts and
-- reversals can all be retried. (The store is a valid one.)
pub perform-Retried :
    (env env' : Env) (op : Operation) (l : Ledger) {ws : List Entry}
    → IsValid l.store
    → (perform env op l).0 ≡ ok ws
    → Retried (λ e. perform e op) env env' l ws
unfolding perform deposit post_impression payout_settled
perform-Retried env env' (deposits i) l v h = submit-Retried env env' l (deposit_group-Holds i) h
perform-Retried env env' (bills i) l v h = submit-Retried env env' l (impression_group-Holds i) h
perform-Retried env env' (submits i) l v h = payout_submit-Retried env env' i l h
perform-Retried env env' (settles i) l v h =
    submit-Retried env env' l (payout_settled_group-Holds i) h
perform-Retried env env' (reverses t ref) l v h = reverse-Retried env env' t ref l v h
