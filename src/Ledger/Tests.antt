-- ===== src/Ledger/Tests.antt =====
-- A ledger with a deposit, an impression, a payout and its reversal.
use dwell.Base.{
  ℕ, ◌+◌, String, ◌≡◌, refl, ◌⊎◌, Option, none, some, List, [], ◌∷◌, Result, ok, arith, length,
  ◌==◌, true,
}
use dwell.Base.Int.{ℤ, pos, negsuc, ◌+ℤ◌, ◌≤ℤ◌, ◌<ℤ◌, negate}
use dwell.Base.Map.{get, set}
use dwell.Base.Text.{colon}
use dwell.Money.{stroops, add, sub, neg, sum, sum_from, split_revenue}
use dwell.Ledger.Accounts.{
  payouts_in_flight, external_cash, external_settlement, kind_name, split_colon, owned_account,
  single_account,
}
use dwell.Ledger.Entry.{Entry, NewEntry, RefType, rows, tally, held, same_ref_type}
use dwell.Ledger.Store.{
  Env, known, stamp, index, write, append, by_ref, by_idempotency_key, balance, balance_from,
}
use dwell.Ledger.Operations.{
  Ledger, empty, amounts, post, Deposit, deposit, deposit_rows, deposit_group, Impression,
  impression_rows, impression_group, post_impression, Payout, PayoutKind, payout_ref, payout_row,
  key, from_account, covered, submit_rows, payout_submit_group, payout_submit, settled_rows,
  payout_settled, reverse,
}
use dwell.Ledger.Billed.{
  Call, writes, reads, run_calls, billed_impressions, counted, count_billed, billed_fresh,
}
use dwell.Ledger.Validity.{IsValid}
use dwell.Ledger.Retry.{Retried}
use dwell.Ledger.Retry.Reverse.{perform-Retried}
use dwell.Ledger.Effects.{holding, moved, Moves, deposit_effect, payout_settled_effect}
use dwell.Ledger.Effects.Impressions.{shared, priced_rows, post_impression_effect}
use dwell.Ledger.Effects.Payouts.{payout_submit_no_overdraft}
use dwell.Ledger.Effects.Refunds.{refund_rows, payout_submit_effect, payout_refund}
use dwell.Ledger.History.{Operation, deposits, bills, submits, perform, run, run-empty-IsValid}

abbrev env : Env
env = record { now = 1; new_id = λ n. "id" }

abbrev topup : Deposit
topup = record { advertiser_id = "acme"; amount = pos 5000; topup_id = "t1" }

abbrev view : Impression
view = record {
  impression_id = "i1";
  advertiser_id = "acme";
  publisher_id = "bob";
  campaign_id = "c1";
  rate = pos 7;
  rev_share_bps = pos 5000;
}

abbrev payout : Payout
payout = record {
  batch_id = "b1";
  publisher_id = "acme";
  amount = pos 2000;
  kind = PayoutKind.of_advertiser;
}

abbrev history : List (Env × Operation)
history = (env, deposits topup) ∷ (env, bills view) ∷ (env, submits payout) ∷ []

run-empty-IsValid_example : IsValid (run history empty).store
run-empty-IsValid_example = run-empty-IsValid history

in_flight :
    held (single_account payouts_in_flight) (rows (run history empty).store.entries) ≡ pos 2000
unfolding run perform deposit deposit_group deposit_rows post_impression impression_group
    impression_rows payout_submit payout_submit_group submit_rows payout_row payout_ref key colon
    dwell.Base.Text.cat from_account covered owned_account single_account kind_name split_colon post
    amounts stroops add sub neg sum sum_from split_revenue append known write stamp index get set
    by_idempotency_key balance balance_from tally negate ◌+ℤ◌ dwell.Base.Int.◌-ℤ◌ by_ref
    same_ref_type settled_rows
in_flight = refl

abbrev later : Env
later = record { now = 2; new_id = λ n. "later" }

-- The ledger after the deposit, and the rows of each call after it.
abbrev funded : Ledger
funded = run ((env, deposits topup) ∷ []) empty

abbrev payer : String
payer = "advertiser:acme"

abbrev payout_rows : List NewEntry
payout_rows = submit_rows payout payer (negate payout.amount)

perform-Retried_example :
    Retried
      (λ e. perform e (submits payout))
      env
      later
      funded
      (write env payout_rows funded.store).0
unfolding run perform deposit deposit_group deposit_rows post_impression impression_group
    impression_rows payout_submit payout_submit_group submit_rows payout_row payout_ref key colon
    dwell.Base.Text.cat from_account covered owned_account single_account kind_name split_colon post
    amounts stroops add sub neg sum sum_from split_revenue append known write stamp index get set
    by_idempotency_key balance balance_from tally negate ◌+ℤ◌ dwell.Base.Int.◌-ℤ◌ by_ref
    same_ref_type settled_rows
perform-Retried_example =
    perform-Retried env later (submits payout) funded
      (run-empty-IsValid ((env, deposits topup) ∷ [])) refl

payout_submit_no_overdraft_example :
    ((payout_submit env payout funded).1.store ≡ funded.store)
    ⊎ ((pos 0 <ℤ pos 2000)
        × (pos 2000 ≤ℤ holding payer funded)
        × ((a : String)
            → holding a (payout_submit env payout funded).1
              ≡ holding a funded +ℤ moved payer (single_account payouts_in_flight) (pos 2000) a))
unfolding run perform deposit deposit_group deposit_rows post_impression impression_group
    impression_rows payout_submit payout_submit_group submit_rows payout_row payout_ref key colon
    dwell.Base.Text.cat from_account covered owned_account single_account kind_name split_colon post
    amounts stroops add sub neg sum sum_from split_revenue append known write stamp index get set
    by_idempotency_key balance balance_from tally negate ◌+ℤ◌ dwell.Base.Int.◌-ℤ◌ by_ref
    same_ref_type settled_rows
payout_submit_no_overdraft_example = payout_submit_no_overdraft env payout funded payer refl refl

payout_submit_effect_example :
    Moves payout_rows payer
      (single_account payouts_in_flight)
      (pos 2000)
      funded
      (payout_submit env payout funded)
unfolding run perform deposit deposit_group deposit_rows post_impression impression_group
    impression_rows payout_submit payout_submit_group submit_rows payout_row payout_ref key colon
    dwell.Base.Text.cat from_account covered owned_account single_account kind_name split_colon post
    amounts stroops add sub neg sum sum_from split_revenue append known write stamp index get set
    by_idempotency_key balance balance_from tally negate ◌+ℤ◌ dwell.Base.Int.◌-ℤ◌ by_ref
    same_ref_type settled_rows
payout_submit_effect_example =
    payout_submit_effect env payout payer funded refl (omega arith) (omega arith) refl (omega arith)
      refl

payout_refund_example :
    Moves
      (refund_rows env payout payer funded.store)
      (single_account payouts_in_flight)
      payer
      (pos 2000)
      (payout_submit env payout funded).1
      (reverse later RefType.payout_batch (payout_ref payout) (payout_submit env payout funded).1)
    × ((a : String)
        → holding a
            (reverse later RefType.payout_batch
              (payout_ref payout)
              (payout_submit env payout funded).1).1
          ≡ holding a funded)
unfolding run perform deposit deposit_group deposit_rows post_impression impression_group
    impression_rows payout_submit payout_submit_group submit_rows payout_row payout_ref key colon
    dwell.Base.Text.cat from_account covered owned_account single_account kind_name split_colon post
    amounts stroops add sub neg sum sum_from split_revenue append known write stamp index get set
    by_idempotency_key balance balance_from tally negate ◌+ℤ◌ dwell.Base.Int.◌-ℤ◌ by_ref
    same_ref_type settled_rows
payout_refund_example =
    payout_refund env payout payer funded refl (omega arith) (omega arith) refl (omega arith) refl
      later refl refl refl

deposit_effect_example :
    Moves
      (deposit_rows topup payer (negate (pos 5000)))
      (single_account external_cash)
      payer
      (pos 5000)
      empty
      (deposit env topup empty)
unfolding run perform deposit deposit_group deposit_rows post_impression impression_group
    impression_rows payout_submit payout_submit_group submit_rows payout_row payout_ref key colon
    dwell.Base.Text.cat from_account covered owned_account single_account kind_name split_colon post
    amounts stroops add sub neg sum sum_from split_revenue append known write stamp index get set
    by_idempotency_key balance balance_from tally negate ◌+ℤ◌ dwell.Base.Int.◌-ℤ◌ by_ref
    same_ref_type settled_rows
deposit_effect_example = deposit_effect env topup payer empty refl (omega arith) (omega arith) refl

payout_settled_effect_example :
    Moves
      (settled_rows payout (negate (pos 2000)))
      (single_account payouts_in_flight)
      (single_account external_settlement)
      (pos 2000)
      funded
      (payout_settled env payout funded)
unfolding run perform deposit deposit_group deposit_rows post_impression impression_group
    impression_rows payout_submit payout_submit_group submit_rows payout_row payout_ref key colon
    dwell.Base.Text.cat from_account covered owned_account single_account kind_name split_colon post
    amounts stroops add sub neg sum sum_from split_revenue append known write stamp index get set
    by_idempotency_key balance balance_from tally negate ◌+ℤ◌ dwell.Base.Int.◌-ℤ◌ by_ref
    same_ref_type settled_rows
payout_settled_effect_example = payout_settled_effect env payout funded (omega arith) refl

post_impression_effect_example :
    ((ws : List Entry) × ((post_impression env view funded).0 ≡ ok ws)
      × (rows ws ≡ priced_rows view payer "publisher:bob" 7 5000))
    × ((a : String)
        → holding a (post_impression env view funded).1
          ≡ holding a funded +ℤ shared payer "publisher:bob" 7 5000 a)
unfolding run perform deposit deposit_group deposit_rows post_impression impression_group
    impression_rows payout_submit payout_submit_group submit_rows payout_row payout_ref key colon
    dwell.Base.Text.cat from_account covered owned_account single_account kind_name split_colon post
    amounts stroops add sub neg sum sum_from split_revenue append known write stamp index get set
    by_idempotency_key balance balance_from tally negate ◌+ℤ◌ dwell.Base.Int.◌-ℤ◌ by_ref
    same_ref_type settled_rows
post_impression_effect_example =
    post_impression_effect view payer "publisher:bob" 7 5000 env funded refl refl (omega arith)
      (omega arith) refl refl refl

-- A read before the impression, and one after it.
abbrev calls : List Call
calls = writes env (deposits topup) ∷ reads "c1" ∷ writes env (bills view) ∷ reads "c1" ∷ []

billed_fresh_example :
    (billed_impressions "c1" (run_calls calls empty)).0
    ≡ counted (get "c1" (count_billed (run_calls calls empty).store.entries []))
billed_fresh_example = billed_fresh calls "c1"
