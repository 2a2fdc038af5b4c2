-- ===== src/Ledger/Effects/Refunds.antt =====
-- A payout that goes through, and its reversal (payouts/withdraw.ts reverses a payout whose
-- transfer never landed).
use mathlib.Core.List.{append-nil}
use dwell.Base.{
  String, Bool, ◌≡◌, refl, sym, ap, ◌∙◌, List, [], ◌∷◌, ok, ◌>>=◌, arith, length, same, ◌==◌,
  if◌then◌else◌, true, false, none, keep-append,
}
use dwell.Base.Int.{ℤ, pos, ◌+ℤ◌, ◌≤ℤ◌, ◌<ℤ◌, negate, ltb_ℤ, int_laws, parts_of_eq}
use dwell.Money.{sum}
use dwell.Money.Checked.{InRange, InRange-negate, neg_ok}
use dwell.Ledger.Accounts.{payouts_in_flight, single_account}
use dwell.Ledger.Entry.{Entry, NewEntry, RefType, rows, tally, held, same_ref_type, in_ref}
use dwell.Ledger.Store.{Env, Store, known, stamp, write, balance, by_ref, by_idempotency_key}
use dwell.Ledger.Keys.{reversal_rows}
use dwell.Ledger.Store.Index.{rows-stamp}
use dwell.Ledger.History.{reverse_new}
use dwell.Ledger.Retry.Reverse.{by_ref-write}
use dwell.Ledger.Effects.{
  holding, moved, Moves, post-Wrote, Wrote-Moves, sums_two, not_positive_false, post_fresh,
  held-write,
}
use dwell.Ledger.Effects.Payouts.{submit_unknown, submit_rows-moved}
use dwell.Ledger.Operations.{
  Ledger, post, submit, amounts, Payout, payout_ref, from_account, covered, submit_rows, payout_row,
  payout_submit_group, payout_submit, reverse, reversal_ref, reversal_group,
}

submit_rows-sums :
    (i : Payout) (from : String)
    → InRange i.amount
    → (amounts (submit_rows i from (negate i.amount)) >>= sum) ≡ ok (pos 0)
unfolding submit_rows
submit_rows-sums i from range = sums_two _ _ (InRange-negate i.amount range) range (omega int_laws)

-- The rows of a payout under a reference that has none.
rows_of :
    (env : Env) (i : Payout) (from : String) (s : Store)
    → (length (by_ref RefType.payout_batch (payout_ref i) s) == 0) ≡ true
    → by_ref RefType.payout_batch
        (payout_ref i)
        (write env (submit_rows i from (negate i.amount)) s).1
      ≡ (write env (submit_rows i from (negate i.amount)) s).0
rows_of env i from s none_yet =
    by_ref-write RefType.payout_batch (payout_ref i) env (submit_rows i from (negate i.amount)) s
      (unfold submit_rows payout_row in ((refl, refl), ((refl, refl), tt))) none_yet

-- A payout adds no row to a reversal.
no_reversal :
    (env : Env) (i : Payout) (from ref : String) (s : Store)
    → by_ref RefType.reversal ref (write env (submit_rows i from (negate i.amount)) s).1
      ≡ by_ref RefType.reversal ref s
unfolding by_ref write submit_rows payout_row stamp same_ref_type
no_reversal env i from ref s =
    keep-append (λ (e : Entry). in_ref RefType.reversal ref e.row) s.entries
      (stamp env s.issued (submit_rows i from (negate i.amount)))
    ∙ append-nil _

-- The reversal of a payout, as rows.
abbrev pub refund_rows : Env → Payout → String → Store → List NewEntry
refund_rows env i from s =
    reversal_rows (reversal_ref (payout_ref i))
      (write env (submit_rows i from (negate i.amount)) s).0

refund_group_ok :
    (env : Env) (i : Payout) (from : String) (s : Store)
    → InRange i.amount
    → reversal_group
        (reversal_ref (payout_ref i))
        (write env (submit_rows i from (negate i.amount)) s).0
      ≡ ok (refund_rows env i from s)
unfolding reversal_group write stamp submit_rows payout_row
refund_group_ok env i from s range =
    rw (neg_ok (negate i.amount) (InRange-negate i.amount range), neg_ok i.amount range)

refund_rows-sums :
    (env : Env) (i : Payout) (from : String) (s : Store)
    → InRange i.amount
    → (amounts (refund_rows env i from s) >>= sum) ≡ ok (pos 0)
unfolding write stamp submit_rows payout_row
refund_rows-sums env i from s range =
    let minus = InRange-negate i.amount range in
    sums_two _ _ (InRange-negate (negate i.amount) minus) minus (omega int_laws)

if_negate : (b : Bool) (v : ℤ) → (if b then negate v else pos 0) ≡ negate (if b then v else pos 0)
if_negate true v = refl
if_negate false v = omega int_laws

-- A reversal gives every account the negation of what the entries gave it.
reversal_rows-held :
    (ref : String) (es : List Entry) (a : String)
    → held a (reversal_rows ref es) ≡ negate (held a (rows es))
unfolding tally
reversal_rows-held ref [] a = omega int_laws
reversal_rows-held ref (e ∷ es) a = omega (
  int_laws,
  parts_of_eq _ _ (reversal_rows-held ref es a),
  parts_of_eq _ _ (if_negate (same e.account_id a) e.amount),
)

negate-moved :
    (b c : Bool) (v : ℤ)
    → negate ((if b then negate v else pos 0) +ℤ (if c then v else pos 0))
      ≡ (if c then negate v else pos 0) +ℤ (if b then v else pos 0)
negate-moved true true v = omega int_laws
negate-moved true false v = omega int_laws
negate-moved false true v = omega int_laws
negate-moved false false v = omega int_laws

refund_rows-held :
    (env : Env) (i : Payout) (from : String) (s : Store) (a : String)
    → held a (refund_rows env i from s) ≡ moved (single_account payouts_in_flight) from i.amount a
refund_rows-held env i from s a =
    let same_rows : rows (write env (submit_rows i from (negate i.amount)) s).0
        ≡ submit_rows i from (negate i.amount) =
      unfold write in rows-stamp env s.issued (submit_rows i from (negate i.amount)) in
    reversal_rows-held (reversal_ref (payout_ref i)) _ a
    ∙ ap (λ es. negate (held a es)) same_rows
    ∙ ap negate (submit_rows-moved i from a)
    ∙ negate-moved (same from a) (same (single_account payouts_in_flight) a) i.amount

module _ (env : Env) (i : Payout) (from : String) (l : Ledger) {b : ℤ}
    (account : from_account i.kind i.publisher_id ≡ ok from) (positive : pos 0 <ℤ i.amount)
    (range : InRange i.amount) (returned : balance from l.store ≡ ok b) (enough : i.amount ≤ℤ b)
    (fresh : (length (known l.store.by_key (submit_rows i from (negate i.amount))) == 0)
      ≡ true) where
  covered_ok : covered i from l.store ≡ ok tt
  unfolding covered by_idempotency_key
  covered_ok =
      let unknown = submit_unknown i from (negate i.amount) l.store.by_key fresh in
      let low : ltb_ℤ b i.amount ≡ false = ground arith in rw (unknown, returned, low, covered)

  group_ok : payout_submit_group i l.store ≡ ok (submit_rows i from (negate i.amount))
  unfolding payout_submit_group
  group_ok = rw (not_positive_false i.amount positive, account, covered_ok, neg_ok i.amount range)

  -- A payout of a positive amount in range, from an account whose balance is returned and covers it,
  -- none of whose keys is known, returns its two entries and moves the amount into the payouts in
  -- flight; no other account changes.
  pub payout_submit_effect :
      Moves
        (submit_rows i from (negate i.amount))
        from
        (single_account payouts_in_flight)
        i.amount
        l
        (payout_submit env i l)
  unfolding payout_submit
  payout_submit_effect = rw group_ok (
      Wrote-Moves _ _ _ i.amount l (post env _ l) (submit_rows-moved i from)
        (post-Wrote env _ l (submit_rows-sums i from range) fresh))

  payout_submit_value : payout_submit env i l ≡ (
    ok (write env (submit_rows i from (negate i.amount)) l.store).0,
    record { store = (write env (submit_rows i from (negate i.amount)) l.store).1; billed = none },
  )
  unfolding payout_submit
  payout_submit_value = rw group_ok (
      post_fresh env (submit_rows i from (negate i.amount)) l (submit_rows-sums i from range) fresh)

  -- Such a payout, under a reference that has no rows and no reversal, is then reversed, none of the
  -- keys of its reversal being known: the reversal returns its entries and moves the amount back,
  -- and every account holds what it held before the payout.
  pub payout_refund :
      (env' : Env)
      → (length (by_ref RefType.payout_batch (payout_ref i) l.store) == 0) ≡ true
      → (length (by_ref RefType.reversal (reversal_ref (payout_ref i)) l.store) == 0) ≡ true
      → (length (
            known
              (write env (submit_rows i from (negate i.amount)) l.store).1.by_key
              (refund_rows env i from l.store))
          == 0)
        ≡ true
      → Moves
          (refund_rows env i from l.store)
          (single_account payouts_in_flight)
          from
          i.amount
          (payout_submit env i l).1
          (reverse env' RefType.payout_batch (payout_ref i) (payout_submit env i l).1)
        × ((a : String)
            → holding a
                (reverse env' RefType.payout_batch (payout_ref i) (payout_submit env i l).1).1
              ≡ holding a l)
  payout_refund env' none_yet never unknown =
      rw payout_submit_value (rw reversed (back, λ a. back.1 a ∙ restored a))
    where
      l1 : Ledger
      l1 = record {
        store = (write env (submit_rows i from (negate i.amount)) l.store).1;
        billed = none;
      }

      shows :
          by_ref RefType.payout_batch (payout_ref i) l1.store
          ≡ (write env (submit_rows i from (negate i.amount)) l.store).0
      shows = rows_of env i from l.store none_yet

      reversed :
          reverse env' RefType.payout_batch (payout_ref i) l1
          ≡ post env' (refund_rows env i from l.store) l1
      reversed =
          reverse_new env' RefType.payout_batch (payout_ref i) l1
            (rw shows (unfold write submit_rows stamp in refl))
            (rw (no_reversal env i from (reversal_ref (payout_ref i)) l.store) never)
          ∙ ap (λ es. submit env' (reversal_group (reversal_ref (payout_ref i)) es) l1) shows
          ∙ ap (λ r. submit env' r l1) (refund_group_ok env i from l.store range)

      back :
          Moves
            (refund_rows env i from l.store)
            (single_account payouts_in_flight)
            from
            i.amount
            l1
            (post env' (refund_rows env i from l.store) l1)
      back =
          Wrote-Moves _ _ _ i.amount l1 (post env' _ l1) (refund_rows-held env i from l.store)
            (post-Wrote env' _ l1 (refund_rows-sums env i from l.store range) unknown)

      restored :
          (a : String)
          → holding a l1 +ℤ moved (single_account payouts_in_flight) from i.amount a ≡ holding a l
      restored a = omega (
        int_laws,
        parts_of_eq _ _ (held-write a env (submit_rows i from (negate i.amount)) l.store),
        parts_of_eq _ _ (submit_rows-moved i from a),
        parts_of_eq _ _
            (sym (negate-moved (same from a) (same (single_account payouts_in_flight) a) i.amount)),
      )
