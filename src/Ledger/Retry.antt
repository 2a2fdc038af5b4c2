-- ===== src/Ledger/Retry.antt =====
-- A retried operation: the same call again, after it has returned once.
pub mod Reverse
use mathlib.Core.List.{append-nil}
use dwell.Base.{
  ℕ, suc, String, ◌≡◌, ◌≢◌, refl, sym, ap, ◌∙◌, Bool, true, false, not, ◌&&◌, ◌⊎◌, inl, inr, Option,
  none, some, List, [], ◌∷◌, ◌++◌, Result, ok, err, ◌>>=◌, ◌>>◌, throw_if, arith, All, length, same,
  same_iff, same_comm, same_refl, ◌==◌, Bool-cases, if◌then◌else◌, Result-cases, >>=-eq-ok, subst,
  Holds, returns, throws, Holds-ok, keep, keep-append, >>=-Holds, Option-cases,
}
use dwell.Base.Int.{ℤ, pos, leb_ℤ}
use dwell.Base.Map.{get}
use dwell.Money.{neg}
use dwell.Thrown.{Thrown, payout_not_positive}
use dwell.Ledger.Entry.{Entry, NewEntry, RefType, in_ref, same_ref_type_refl, rows}
use dwell.Ledger.Store.{Env, Store, known, stamp, index, write, append, by_ref, by_idempotency_key}
use dwell.Ledger.Store.Index.{Unique}
use dwell.Ledger.Validity.{IsValid, InRef, post-cases, append-Written, kept, wrote}
use dwell.Ledger.Replay.{post-again, append_fresh, get-write_head}
use dwell.Ledger.Keys.{submit_rows-Unique}
use dwell.Ledger.History.{
  IsGroup, Operation, deposits, bills, submits, settles, reverses, perform, deposit_group-Holds,
  impression_group-Holds, payout_submit_group-Holds, payout_settled_group-Holds,
  reversal_group-Holds, keep-Unique,
}
use dwell.Ledger.Operations.{
  Ledger, Outcome, post, submit, deposit, post_impression, Payout, key, payout_ref, from_account,
  covered, submit_rows, payout_submit_group, payout_submit, payout_settled, reversal_ref,
  reversal_group, reverse,
}

-- What a retry gives: the entries of the first call, and no change to the entries or the index.
abbrev pub Retried : (Env → Ledger → Outcome) → Env → Env → Ledger → List Entry → Type 0
Retried call env env' l ws =
    ((call env' (call env l).1).0 ≡ ok ws)
    × ((call env' (call env l).1).1.store ≡ (call env l).1.store)

submit-Retried :
    (env env' : Env) {r : Result Thrown (List NewEntry)} (l : Ledger) {ws : List Entry}
    → Holds IsGroup r
    → (submit env r l).0 ≡ ok ws
    → Retried (λ e m. submit e r m) env env' l ws
submit-Retried env env' l throws h = cc
submit-Retried env env' l (returns {a = []} (_, _, _, _, some_row)) h = absurd (some_row refl)
submit-Retried env env' l (returns {a = e ∷ es} (_, _, _, distinct, _)) h =
    post-again env env' e es distinct l h

-- Either a post leaves the store as it was, or afterwards the first key of the group is known.
post-known :
    (env : Env) (e : NewEntry) (es : List NewEntry) (l : Ledger)
    → Unique (e ∷ es)
    → ((post env (e ∷ es) l).1.store ≡ l.store)
      ⊎ ((w : Entry) × (by_idempotency_key e.idempotency_key (post env (e ∷ es) l).1.store
            ≡ some w))
unfolding by_idempotency_key
post-known env e es l u = elim (post-cases (e ∷ es)) [
  | inl (t, thrown) ↦ rw (thrown env l) (inl refl)
  | inr (_, goes) ↦ rw (goes env l) (elim (append-Written env (e ∷ es) l.store) [
    | kept same_store ↦ inl same_store
    | wrote fresh new_store ↦ rw new_store (inr (get-write_head env e es l.store u))
  ])
]

-- What a payout that passes its checks has found, and the rows that it builds.
pub record Passed (i : Payout) (s : Store) (es : List NewEntry) : Type 0 where
  pub from : String
  pub minus : ℤ
  pub positive : leb_ℤ i.amount (pos 0) ≡ false
  pub account : from_account i.kind i.publisher_id ≡ ok from
  pub enough : covered i from s ≡ ok tt
  pub negated : neg i.amount ≡ ok minus
  pub built : es ≡ submit_rows i from minus

pub payout_submit_group-eq-ok :
    (i : Payout) (s : Store) {es : List NewEntry} → payout_submit_group i s ≡ ok es → Passed i s es
unfolding payout_submit_group
payout_submit_group-eq-ok i s h =
    let (_, positive, h1) = >>=-eq-ok (throw_if (leb_ℤ i.amount (pos 0)) payout_not_positive) _ h in
    let (from, account, h2) = >>=-eq-ok (from_account i.kind i.publisher_id) _ h1 in
    let (_, enough, h3) = >>=-eq-ok (covered i from s) _ h2 in
    let (minus, negated, h4) = >>=-eq-ok (neg i.amount) _ h3 in
    record {
      from = from;
      minus = minus;
      positive = ground arith;
      account = account;
      enough = ground arith;
      negated = negated;
      built = ground arith;
    }

covered_known :
    (i : Payout) (from : String) (s : Store) {w : Entry}
    → by_idempotency_key (key "payout_submit" (payout_ref i) "publisher") s ≡ some w
    → covered i from s ≡ ok tt
unfolding covered
covered_known i from s known_key = rw (known_key, covered)

-- A payout that went through builds the same rows again, since its key is known by then.
payout_submit_group-again :
    (i : Payout) (s s' : Store) {es : List NewEntry} {w : Entry}
    → payout_submit_group i s ≡ ok es
    → by_idempotency_key (key "payout_submit" (payout_ref i) "publisher") s' ≡ some w
    → payout_submit_group i s' ≡ ok es
payout_submit_group-again i s s' {es} h known_key = build (payout_submit_group-eq-ok i s h)
  where
    build : Passed i s es → payout_submit_group i s' ≡ ok es
    build p =
        unfold payout_submit_group in
        rw (p.positive, p.account, covered_known i p.from s' known_key, p.negated)
          (ap ok (sym p.built))

-- So the check gives the same answer on a retry, whatever the first call did.
payout_submit_group-stable :
    (env : Env) (i : Payout) (l : Ledger)
    → payout_submit_group i (payout_submit env i l).1.store ≡ payout_submit_group i l.store
unfolding payout_submit
payout_submit_group-stable env i l = elim (Result-cases (payout_submit_group i l.store)) [
  | inr (t, thrown) ↦
      subst (λ r. payout_submit_group i (submit env r l).1.store ≡ payout_submit_group i l.store)
        (sym thrown) refl
  | inl (es, built) ↦
      subst (λ r. payout_submit_group i (submit env r l).1.store ≡ payout_submit_group i l.store)
        (sym built) (after es built (payout_submit_group-eq-ok i l.store built))
]
  where
    after :
        (es : List NewEntry)
        → payout_submit_group i l.store ≡ ok es
        → Passed i l.store es
        → payout_submit_group i (post env es l).1.store ≡ payout_submit_group i l.store
    after es built p =
        subst (λ rs. payout_submit_group i (post env rs l).1.store ≡ payout_submit_group i l.store)
          (sym p.built)
          (unfold submit_rows in
            elim (post-known env _ _ l (submit_rows-Unique i p.from p.minus)) [
              | inl same_store ↦ ap (payout_submit_group i) same_store
              | inr (w, known_key) ↦
                  payout_submit_group-again i l.store _ built known_key ∙ sym built
            ])

payout_submit-Retried :
    (env env' : Env) (i : Payout) (l : Ledger) {ws : List Entry}
    → (payout_submit env i l).0 ≡ ok ws
    → Retried (λ e. payout_submit e i) env env' l ws
unfolding payout_submit
payout_submit-Retried env env' i l {ws} h =
    subst
      (λ r.
        ((submit env' r (payout_submit env i l).1).0 ≡ ok ws)
        × ((submit env' r (payout_submit env i l).1).1.store ≡ (payout_submit env i l).1.store))
      (sym (payout_submit_group-stable env i l))
      (submit-Retried env env' l (payout_submit_group-Holds i l.store) h)
