-- ===== src/Ledger/Effects/Payouts.antt =====
-- Submitted payouts, and what they take from an account.
use dwell.Base.{
  String, ◌≡◌, ap, ◌∙◌, List, ◌∷◌, ok, ◌>>=◌, throw_if, arith, length, ◌==◌, true, false, inl, inr,
  ◌⊎◌, none, >>=-eq-ok, Result-cases,
}
use dwell.Base.Int.{ℤ, pos, ◌+ℤ◌, ◌≤ℤ◌, ◌<ℤ◌, negate, ltb_ℤ, leb_ℤ, int_laws}
use dwell.Base.Map.{Map, get}
use dwell.Thrown.{would_go_negative}
use dwell.Money.Checked.{InRange, neg-eq-ok, neg_fits}
use dwell.Ledger.Accounts.{payouts_in_flight, single_account}
use dwell.Ledger.Entry.{Entry, NewEntry, rows, tally, held}
use dwell.Ledger.Store.{Env, Store, known, write, balance, by_idempotency_key}
use dwell.Ledger.Retry.{Passed, payout_submit_group-eq-ok}
use dwell.Ledger.Retry.Reverse.{post-ends}
use dwell.Ledger.Effects.{holding, moved, held-write, balance-eq-held}
use dwell.Ledger.Operations.{
  Ledger, post, key, Payout, payout_ref, from_account, covered, submit_rows, payout_submit_group,
  payout_submit,
}

known_head :
    (m : Map Entry) (e : NewEntry) (es : List NewEntry)
    → (length (known m (e ∷ es)) == 0) ≡ true
    → get e.idempotency_key m ≡ none
unfolding known
known_head m e es h = ground arith

pub submit_unknown :
    (i : Payout) (from : String) (minus : ℤ) (m : Map Entry)
    → (length (known m (submit_rows i from minus)) == 0) ≡ true
    → get (key "payout_submit" (payout_ref i) "publisher") m ≡ none
unfolding submit_rows
submit_unknown i from minus m h = known_head m _ _ h

pub submit_rows-moved :
    (i : Payout) (from a : String)
    → held a (submit_rows i from (negate i.amount))
      ≡ moved from (single_account payouts_in_flight) i.amount a
unfolding submit_rows tally
submit_rows-moved i from a = omega int_laws

-- A payout that the check lets through, and that is not a repeated one, is covered.
covered-le :
    (i : Payout) (from : String) (s : Store)
    → by_idempotency_key (key "payout_submit" (payout_ref i) "publisher") s ≡ none
    → covered i from s ≡ ok tt
    → i.amount ≤ℤ held from (rows s.entries)
unfolding covered
covered-le i from s unknown h =
    let h' : (balance from s >>= λ b. throw_if (ltb_ℤ b i.amount) would_go_negative) ≡ ok tt =
      rw (unknown, covered) at h in
    let (b, returned, enough) =
      >>=-eq-ok (balance from s) (λ b. throw_if (ltb_ℤ b i.amount) would_go_negative) h' in
    rw (← balance-eq-held from s returned) (ground arith)

leb_false-lt : (x : ℤ) → leb_ℤ x (pos 0) ≡ false → pos 0 <ℤ x
leb_false-lt x h = ground arith

-- A payout that wrote: no key of it was known, it was covered, and its rows are in the store.
pub record Sent (i : Payout) (l l1 : Ledger) : Type 0 where
  pub from : String
  pub account : from_account i.kind i.publisher_id ≡ ok from
  pub positive : leb_ℤ i.amount (pos 0) ≡ false
  pub range : InRange i.amount
  pub enough : i.amount ≤ℤ held from (rows l.store.entries)
  pub env : Env
  pub holds : l1.store ≡ (write env (submit_rows i from (negate i.amount)) l.store).1

sent :
    (env : Env) (i : Payout) (l : Ledger) (es : List NewEntry) {ws : List Entry}
    → (post env es l).0 ≡ ok ws
    → Passed i l.store es
    → ((post env es l).1.store ≡ l.store) ⊎ Sent i l (post env es l).1
unfolding by_idempotency_key
sent env i l es h p = elim (post-ends env es l h) [
  | inl same_store ↦ inl same_store
  | inr (fresh, _, new_store) ↦
      let built : es ≡ submit_rows i p.from (negate i.amount) =
        p.built ∙ ap (submit_rows i p.from) (neg-eq-ok i.amount p.negated) in
      inr (record {
        from = p.from;
        account = p.account;
        positive = p.positive;
        range = neg_fits i.amount p.negated;
        enough =
            covered-le i p.from l.store
              (submit_unknown i p.from (negate i.amount) l.store.by_key (rw built at fresh))
              p.enough;
        env = env;
        holds = new_store ∙ ap (λ rs. (write env rs l.store).1) built;
      })
]

pub payout_submit-Sent :
    (env : Env) (i : Payout) (l : Ledger) {ws : List Entry}
    → (payout_submit env i l).0 ≡ ok ws
    → ((payout_submit env i l).1.store ≡ l.store) ⊎ Sent i l (payout_submit env i l).1
unfolding payout_submit
payout_submit-Sent env i l {ws} h = elim (Result-cases (payout_submit_group i l.store)) [
  | inr (t, thrown) ↦ inl (cc thrown)
  | inl (es, built) ↦
      let posted : (post env es l).0 ≡ ok ws = rw built at h in
      rw built (sent env i l es posted (payout_submit_group-eq-ok i l.store built))
]

-- A payout that returns has changed nothing in the store (it was a repeated one), or its amount is
-- positive and was covered by what the account held, which moves into the box of payouts in
-- flight, and no other account changes: no payout overdraws an account.
pub payout_submit_no_overdraft :
    (env : Env) (i : Payout) (l : Ledger) (from : String) {ws : List Entry}
    → from_account i.kind i.publisher_id ≡ ok from
    → (payout_submit env i l).0 ≡ ok ws
    → ((payout_submit env i l).1.store ≡ l.store)
      ⊎ ((pos 0 <ℤ i.amount)
          × (i.amount ≤ℤ holding from l)
          × ((a : String)
              → holding a (payout_submit env i l).1
                ≡ holding a l +ℤ moved from (single_account payouts_in_flight) i.amount a))
payout_submit_no_overdraft env i l from account h = elim (payout_submit-Sent env i l h) [
  | inl same_store ↦ inl same_store
  | inr s ↦
      let e : s.from ≡ from = ground (arith, s.account, account) in
      inr (
        leb_false-lt i.amount s.positive,
        rw (← e) s.enough,
        λ a. rw (← e) (
            ap (λ st. held a (rows st.entries)) s.holds
            ∙ held-write a s.env (submit_rows i s.from (negate i.amount)) l.store
            ∙ ap (◌+ℤ◌ (holding a l)) (submit_rows-moved i s.from a)),
      )
]
