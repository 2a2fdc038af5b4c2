-- ===== src/Ledger/History.antt =====
-- Histories of the ledger's operations, failed ones included, and the validity of the store.
use dwell.Base.{
  String, ◌≡◌, ◌≢◌, refl, Bool, true, false, List, [], ◌∷◌, keep, length, Result, ok, err, arith,
  ◌==◌, Bool-cases, Result-cases, inl, inr, throw_if, Holds, returns, throws, >>=-Holds,
}
use dwell.Base.Int.{ℤ}
use dwell.Money.{neg, RevenueSplit, split_revenue}
use dwell.Thrown.{Thrown, nothing_to_reverse}
use dwell.Ledger.Accounts.{owned_account}
use dwell.Base.Map.{get}
use dwell.Ledger.Entry.{tally, Entry, NewEntry, RefType, rows}
use dwell.Ledger.Store.{Env, Store, by_ref}
use dwell.Ledger.Store.Index.{Unique, Lacks}
use dwell.Ledger.Validity.{IsValid, InRef, post-IsValid}
use dwell.Ledger.Keys.{
  deposit_rows-Unique, impression_rows-Unique, submit_rows-Unique, settled_rows-Unique,
  reversal_group-eq-ok, reversal_rows-Unique, reversal_rows-InRef, reversal_rows-ne-nil,
}
use dwell.Ledger.Operations.{
  Ledger, empty, Outcome, submit, Deposit, deposit_rows, deposit_group, deposit, Impression,
  impression_rows, impression_group, post_impression, Payout, payout_ref, from_account, covered,
  submit_rows, payout_submit_group, payout_submit, settled_rows, payout_settled_group,
  payout_settled, reversal_ref, reversal_group, reverse,
}

pub data Operation : Type 0 where
  deposits : Deposit → Operation
  bills : Impression → Operation
  submits settles : Payout → Operation
  reverses : RefType → String → Operation

unfoldable pub perform : Env → Operation → Ledger → Outcome
unfolding deposit post_impression payout_submit payout_settled reverse
perform env (deposits i) = deposit env i
perform env (bills i) = post_impression env i
perform env (submits i) = payout_submit env i
perform env (settles i) = payout_settled env i
perform env (reverses t ref) = reverse env t ref

-- A history: each call with the clock and the id generator of its moment. A throw ends that call only.
unfoldable pub run : List (Env × Operation) → Ledger → Ledger
unfolding perform
run [] l = l
run ((env, op) ∷ ops) l = run ops (perform env op l).1

-- Rows of one reference, one at least, with distinct keys.
abbrev pub IsGroup : List NewEntry → Type 0
IsGroup es = (t : RefType) × (ref : String) × InRef t ref es × Unique es × (es ≢ [])

submit-IsValid :
    (env : Env) {r : Result Thrown (List NewEntry)} (l : Ledger)
    → Holds IsGroup r
    → IsValid l.store
    → IsValid (submit env r l).1.store
submit-IsValid env l throws v = v
submit-IsValid env l (returns {a = es} (t, ref, inside, distinct, _)) v =
    post-IsValid env t ref es inside distinct l v

deposit_rows-IsGroup :
    (i : Deposit) (account : String) (minus : ℤ) → IsGroup (deposit_rows i account minus)
unfolding deposit_rows
deposit_rows-IsGroup i account minus = (
  RefType.topup,
  i.topup_id,
  ((refl, refl), ((refl, refl), tt)),
  deposit_rows-Unique i account minus,
  λ e. cc,
)

impression_rows-IsGroup :
    (i : Impression) (from to : String) (minus : ℤ) (split : RevenueSplit)
    → IsGroup (impression_rows i from to minus split)
unfolding impression_rows
impression_rows-IsGroup i from to minus split = (
  RefType.impression,
  i.impression_id,
  ((refl, refl), ((refl, refl), ((refl, refl), tt))),
  impression_rows-Unique i from to minus split,
  λ e. cc,
)

submit_rows-IsGroup : (i : Payout) (from : String) (minus : ℤ) → IsGroup (submit_rows i from minus)
unfolding submit_rows
submit_rows-IsGroup i from minus = (
  RefType.payout_batch,
  payout_ref i,
  ((refl, refl), ((refl, refl), tt)),
  submit_rows-Unique i from minus,
  λ e. cc,
)

settled_rows-IsGroup : (i : Payout) (minus : ℤ) → IsGroup (settled_rows i minus)
unfolding settled_rows
settled_rows-IsGroup i minus = (
  RefType.payout_batch,
  payout_ref i,
  ((refl, refl), ((refl, refl), tt)),
  settled_rows-Unique i minus,
  λ e. cc,
)

-- A group is built by checks and then rows: what it returns is rows of one reference.
pub deposit_group-Holds : (i : Deposit) → Holds IsGroup (deposit_group i)
unfolding deposit_group
deposit_group-Holds i = >>=-Holds (throw_if _ _) λ _.
    >>=-Holds (owned_account _ _)
      λ account. >>=-Holds (neg _) λ minus. returns (deposit_rows-IsGroup i account minus)

pub impression_group-Holds : (i : Impression) → Holds IsGroup (impression_group i)
unfolding impression_group
impression_group-Holds i = >>=-Holds (throw_if _ _) λ _. >>=-Holds (split_revenue _ _) λ split.
    >>=-Holds (owned_account _ _) λ from. >>=-Holds (neg _) λ minus.
      >>=-Holds (owned_account _ _) λ to. returns (impression_rows-IsGroup i from to minus split)

pub payout_submit_group-Holds : (i : Payout) (s : Store) → Holds IsGroup (payout_submit_group i s)
unfolding payout_submit_group
payout_submit_group-Holds i s = >>=-Holds (throw_if _ _) λ _. >>=-Holds (from_account _ _) λ from.
    >>=-Holds (covered _ _ _)
      λ _. >>=-Holds (neg _) λ minus. returns (submit_rows-IsGroup i from minus)

pub payout_settled_group-Holds : (i : Payout) → Holds IsGroup (payout_settled_group i)
unfolding payout_settled_group
payout_settled_group-Holds i = >>=-Holds (neg _) λ minus. returns (settled_rows-IsGroup i minus)

keep-Lacks :
    (key : String) (p : Entry → Bool) (es : List Entry)
    → Lacks key (rows es)
    → Lacks key (rows (keep p es))
keep-Lacks key p [] h = tt
keep-Lacks key p (e ∷ es) h = ground (arith, keep-Lacks key p es h.1)

pub keep-Unique :
    (p : Entry → Bool) (es : List Entry) → Unique (rows es) → Unique (rows (keep p es))
keep-Unique p [] u = tt
keep-Unique p (e ∷ es) u =
    ground (arith, keep-Unique p es u.1, keep-Lacks e.idempotency_key p es u.0)

pub reversal_group-Holds :
    (ref : String) (es : List Entry)
    → Unique (rows es)
    → (length es == 0) ≡ false
    → Holds IsGroup (reversal_group ref es)
reversal_group-Holds ref es u some_row = elim (Result-cases (reversal_group ref es)) [
  | inr (t, e) ↦ rw e throws
  | inl (rs, e) ↦
      rw (e, reversal_group-eq-ok ref es e)
        (returns (
          RefType.reversal,
          ref,
          reversal_rows-InRef ref es,
          reversal_rows-Unique ref es u,
          reversal_rows-ne-nil ref es some_row,
        ))
]

pub by_ref-Unique :
    (t : RefType) (ref : String) (s : Store) → IsValid s → Unique (rows (by_ref t ref s))
unfolding by_ref
by_ref-Unique t ref s v = keep-Unique _ s.entries v.unique

-- How `reverse` ends: it throws, returns the reversal that is there, or posts a new one.
pub reverse_nothing :
    (env : Env) (t : RefType) (ref : String) (l : Ledger)
    → (length (by_ref t ref l.store) == 0) ≡ true
    → reverse env t ref l ≡ (err nothing_to_reverse, l)
unfolding reverse
reverse_nothing env t ref l none_there = rw none_there

pub reverse_done :
    (env : Env) (t : RefType) (ref : String) (l : Ledger)
    → (length (by_ref t ref l.store) == 0) ≡ false
    → (length (by_ref RefType.reversal (reversal_ref ref) l.store) == 0) ≡ false
    → reverse env t ref l ≡ (ok (by_ref RefType.reversal (reversal_ref ref) l.store), l)
unfolding reverse
reverse_done env t ref l some_row done = rw (some_row, done)

pub reverse_new :
    (env : Env) (t : RefType) (ref : String) (l : Ledger)
    → (length (by_ref t ref l.store) == 0) ≡ false
    → (length (by_ref RefType.reversal (reversal_ref ref) l.store) == 0) ≡ true
    → reverse env t ref l ≡ submit env (reversal_group (reversal_ref ref) (by_ref t ref l.store)) l
unfolding reverse
reverse_new env t ref l some_row fresh = rw (some_row, fresh)

reverse-IsValid :
    (env : Env) (t : RefType) (ref : String) (l : Ledger)
    → IsValid l.store
    → IsValid (reverse env t ref l).1.store
reverse-IsValid env t ref l v = elim (Bool-cases (length (by_ref t ref l.store) == 0)) [
  | inl none_there ↦ rw (reverse_nothing env t ref l none_there) v
  | inr some_row ↦
      elim (Bool-cases (length (by_ref RefType.reversal (reversal_ref ref) l.store) == 0)) [
        | inr done ↦ rw (reverse_done env t ref l some_row done) v
        | inl fresh ↦ rw (reverse_new env t ref l some_row fresh) (
            submit-IsValid env l
              (reversal_group-Holds (reversal_ref ref) (by_ref t ref l.store)
                (by_ref-Unique t ref l.store v) some_row)
              v)
      ]
]

-- One operation, with whatever input and outcome, keeps the store valid.
pub perform-IsValid :
    (env : Env) (op : Operation) (l : Ledger) → IsValid l.store → IsValid (perform env op l).1.store
unfolding perform
perform-IsValid env (deposits i) l v = submit-IsValid env l (deposit_group-Holds i) v
perform-IsValid env (bills i) l v = submit-IsValid env l (impression_group-Holds i) v
perform-IsValid env (submits i) l v = submit-IsValid env l (payout_submit_group-Holds i l.store) v
perform-IsValid env (settles i) l v = submit-IsValid env l (payout_settled_group-Holds i) v
perform-IsValid env (reverses t ref) l v = reverse-IsValid env t ref l v

run-IsValid :
    (ops : List (Env × Operation)) (l : Ledger) → IsValid l.store → IsValid (run ops l).store
unfolding run
run-IsValid [] l v = v
run-IsValid ((env, op) ∷ ops) l v =
    run-IsValid ops (perform env op l).1 (perform-IsValid env op l v)

-- After any history from the empty ledger, failed calls included, every reference sums to zero, no
-- idempotency key stands twice, and the index by key finds what a search of the entries finds.
pub run-empty-IsValid : (ops : List (Env × Operation)) → IsValid (run ops empty).store
unfolding tally get
run-empty-IsValid ops =
    run-IsValid ops empty (record { balanced = λ t ref. refl; unique = tt; indexed = λ key. refl })
