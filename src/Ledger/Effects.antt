-- ===== src/Ledger/Effects.antt =====
-- What each operation does to what the accounts hold.
pub mod Impressions
pub mod Payouts
pub mod Refunds
use mathlib.Core.List.{map-append}
use dwell.Base.{
  String, ◌≡◌, ◌≢◌, refl, sym, ap, ◌∙◌, Bool, true, false, ◌⊎◌, inl, inr, List, [], ◌∷◌, ◌++◌, map,
  Result, ok, err, ◌>>=◌, ◌>>◌, throw_if, arith, All, length, same, ◌==◌, Bool-cases, if◌then◌else◌,
  Result-cases, >>=-eq-ok, none, ℕ, ◌+◌, ◌≤◌,
}
use dwell.Base.Int.{
  ℤ, pos, ◌+ℤ◌, ◌≤ℤ◌, ◌<ℤ◌, negate, leb_ℤ, total, pos_part, neg_part, int_laws, parts_of_eq,
}
use dwell.Money.{max_stroops, stroops, add, neg, sum, zero_stroops, RevenueSplit, split_revenue}
use dwell.Money.Checked.{
  InRange, stroops_ok, stroops-eq-ok, add_ok, add-eq-ok, neg_ok, InRange-negate, sum_two, sum_three,
}
use dwell.Ledger.Accounts.{
  advertiser, publisher, platform_revenue, payouts_in_flight, external_cash, external_settlement,
  owned_account, single_account,
}
use dwell.Ledger.Entry.{Entry, NewEntry, rows, tally, tally-append, held}
use dwell.Ledger.Store.{Env, Store, known, stamp, write, append, balance_from, balance}
use dwell.Ledger.Store.Index.{rows-stamp}
use dwell.Ledger.Validity.{amount_list, post-cases}
use dwell.Ledger.Replay.{append_fresh}
use dwell.Ledger.Operations.{
  Ledger, Outcome, amounts, post, submit, Deposit, deposit_rows, deposit_group, deposit, Impression,
  impression_rows, impression_group, post_impression, Payout, settled_rows, payout_settled_group,
  payout_settled,
}

-- What an account holds in a ledger.
abbrev pub holding : String → Ledger → ℤ
holding a l = held a (rows l.store.entries)

step-eq-ok :
    (b : Bool) (acc x : ℤ) {acc' : ℤ}
    → (if b then stroops x >>= add acc else ok acc) ≡ ok acc'
    → acc' ≡ acc +ℤ (if b then x else pos 0)
step-eq-ok false acc x {acc'} h = let e : acc' ≡ acc = cc h in omega (int_laws, parts_of_eq _ _ e)
step-eq-ok true acc x h =
    let (y, p, q) = >>=-eq-ok (stroops x) (add acc) h in
    (add-eq-ok acc y q).0 ∙ ap (◌+ℤ◌ acc) (stroops-eq-ok x p).0

-- The checked loop of `balance` returns the exact sum, if it returns.
balance_from-eq-held :
    (a : String) (acc : ℤ) (es : List Entry) {b : ℤ}
    → balance_from a acc es ≡ ok b
    → b ≡ acc +ℤ held a (rows es)
unfolding balance_from tally
balance_from-eq-held a acc [] {b} h = let e : b ≡ acc = cc h in omega (int_laws, parts_of_eq _ _ e)
balance_from-eq-held a acc (e ∷ es) {b} h =
    let (acc', p, q) =
      >>=-eq-ok (if same e.account_id a then stroops e.amount >>= add acc else ok acc)
        (λ acc'. balance_from a acc' es) h in
    let step : acc' ≡ acc +ℤ (if same e.account_id a then e.amount else pos 0) =
      step-eq-ok (same e.account_id a) acc e.amount p in
    let ih : b ≡ acc' +ℤ held a (rows es) = balance_from-eq-held a acc' es q in
    omega (int_laws, parts_of_eq _ _ step, parts_of_eq _ _ ih)

-- A balance that `balance` returns is the exact sum of the account's amounts.
pub balance-eq-held :
    (a : String) (s : Store) {b : ℤ} → balance a s ≡ ok b → b ≡ held a (rows s.entries)
unfolding balance
balance-eq-held a s {b} h =
    let e : b ≡ pos 0 +ℤ held a (rows s.entries) = balance_from-eq-held a (pos 0) s.entries h in
    omega (int_laws, parts_of_eq _ _ e)

pub held-write :
    (a : String) (env : Env) (es : List NewEntry) (s : Store)
    → held a (rows (write env es s).1.entries) ≡ held a (rows s.entries) +ℤ held a es
unfolding write
held-write a env es s = rw (
  map-append (λ (e : Entry). e.row) s.entries (stamp env s.issued es),
  rows-stamp env s.issued es,
  tally-append (λ e. same e.account_id a) (rows s.entries) es,
)

-- A group with known amounts that sum to zero, none of whose keys is known, is written.
pub post_fresh :
    (env : Env) (es : List NewEntry) (l : Ledger)
    → (amounts es >>= sum) ≡ ok (pos 0)
    → (length (known l.store.by_key es) == 0) ≡ true
    → post env es l
      ≡ (ok (write env es l.store).0, record { store = (write env es l.store).1; billed = none })
unfolding post
post_fresh env es l sums fresh = rw (sums, post) (rw (append_fresh env es l.store fresh))

-- What a move of `x` from one account to another gives account `a`.
abbrev pub moved : String → String → ℤ → String → ℤ
moved from to x a = (if same from a then negate x else pos 0) +ℤ (if same to a then x else pos 0)

pub sums_two :
    (e d : NewEntry)
    → InRange e.amount
    → InRange d.amount
    → e.amount +ℤ d.amount ≡ pos 0
    → (amounts (e ∷ d ∷ []) >>= sum) ≡ ok (pos 0)
unfolding amounts
sums_two e d he hd zero =
    rw (stroops_ok e.amount he, stroops_ok d.amount hd) (sum_two e.amount d.amount he zero)

-- What a call that wrote a group has done: it returned, and every account moved by the group.
abbrev pub Wrote : List NewEntry → Ledger → Outcome → Type 0
Wrote es l o =
    ((ws : List Entry) × (o.0 ≡ ok ws) × (rows ws ≡ es))
    × ((a : String) → holding a o.1 ≡ holding a l +ℤ held a es)

pub post-Wrote :
    (env : Env) (es : List NewEntry) (l : Ledger)
    → (amounts es >>= sum) ≡ ok (pos 0)
    → (length (known l.store.by_key es) == 0) ≡ true
    → Wrote es l (post env es l)
post-Wrote env es l sums fresh = rw (post_fresh env es l sums fresh) (
  ((write env es l.store).0, refl, unfold write in rows-stamp env l.store.issued es),
  λ a. held-write a env es l.store,
)

pub not_positive_false : (x : ℤ) → pos 0 <ℤ x → leb_ℤ x (pos 0) ≡ false
not_positive_false x h = ground arith

-- A call that returned the entries of a group and moved `x` from one account to another: every
-- account, those two included, holds what it held and its part of the move.
abbrev pub Moves : List NewEntry → String → String → ℤ → Ledger → Outcome → Type 0
Moves es from to x l o =
    ((ws : List Entry) × (o.0 ≡ ok ws) × (rows ws ≡ es))
    × ((a : String) → holding a o.1 ≡ holding a l +ℤ moved from to x a)

pub Wrote-Moves :
    (es : List NewEntry) (from to : String) (x : ℤ) (l : Ledger) (o : Outcome)
    → ((a : String) → held a es ≡ moved from to x a)
    → Wrote es l o
    → Moves es from to x l o
Wrote-Moves es from to x l o same_move w = (w.0, λ a. w.1 a ∙ ap (◌+ℤ◌ (holding a l)) (same_move a))

deposit_rows-moved :
    (i : Deposit) (account a : String)
    → held a (deposit_rows i account (negate i.amount))
      ≡ moved (single_account external_cash) account i.amount a
unfolding deposit_rows tally
deposit_rows-moved i account a = omega int_laws

deposit_rows-sums :
    (i : Deposit) (account : String)
    → InRange i.amount
    → (amounts (deposit_rows i account (negate i.amount)) >>= sum) ≡ ok (pos 0)
unfolding deposit_rows
deposit_rows-sums i account range =
    sums_two _ _ range (InRange-negate i.amount range) (omega int_laws)

-- A deposit of a positive amount in range by an owner without a colon, none of whose keys is known,
-- returns its two entries: the advertiser holds the amount more, the outside cash the
-- amount less, and no other account changes.
pub deposit_effect :
    (env : Env) (i : Deposit) (account : String) (l : Ledger)
    → owned_account advertiser i.advertiser_id ≡ ok account
    → pos 0 <ℤ i.amount
    → InRange i.amount
    → (length (known l.store.by_key (deposit_rows i account (negate i.amount))) == 0) ≡ true
    → Moves
        (deposit_rows i account (negate i.amount))
        (single_account external_cash)
        account
        i.amount
        l
        (deposit env i l)
unfolding deposit deposit_group
deposit_effect env i account l owner positive range fresh =
    rw (not_positive_false i.amount positive, owner, neg_ok i.amount range)
      (Wrote-Moves _ _ account i.amount l (post env _ l) (deposit_rows-moved i account)
        (post-Wrote env _ l (deposit_rows-sums i account range) fresh))

settled_rows-moved :
    (i : Payout) (a : String)
    → held a (settled_rows i (negate i.amount))
      ≡ moved (single_account payouts_in_flight) (single_account external_settlement) i.amount a
unfolding settled_rows tally
settled_rows-moved i a = omega int_laws

settled_rows-sums :
    (i : Payout)
    → InRange i.amount
    → (amounts (settled_rows i (negate i.amount)) >>= sum) ≡ ok (pos 0)
unfolding settled_rows
settled_rows-sums i range = sums_two _ _ (InRange-negate i.amount range) range (omega int_laws)

-- A payout that is settled with an amount in range, none of whose keys is known, returns its two
-- entries: the amount leaves the payouts in flight for the outside settlement, and no other account
-- changes.
pub payout_settled_effect :
    (env : Env) (i : Payout) (l : Ledger)
    → InRange i.amount
    → (length (known l.store.by_key (settled_rows i (negate i.amount))) == 0) ≡ true
    → Moves
        (settled_rows i (negate i.amount))
        (single_account payouts_in_flight)
        (single_account external_settlement)
        i.amount
        l
        (payout_settled env i l)
unfolding payout_settled payout_settled_group
payout_settled_effect env i l range fresh = rw (neg_ok i.amount range) (
    Wrote-Moves _ _ _ i.amount l (post env _ l) (settled_rows-moved i)
      (post-Wrote env _ l (settled_rows-sums i range) fresh))
