-- ===== src/Ledger/Operations.antt =====
-- packages/server/src/ledger/ledger.ts: the operations of `Ledger` that write.
-- An operation builds a group of rows and posts it. What it throws comes back beside the ledger,
-- since a throw does not undo what was written before it.
use dwell.Base.{
  String, not, Option, none, some, List, [], ◌∷◌, Result, ok, err, ◌>>=◌, ◌>>◌, throw_if, length,
  ◌==◌, if◌then◌else◌,
}
use dwell.Base.Int.{ℤ, pos, eqb_ℤ, leb_ℤ, ltb_ℤ}
use dwell.Base.Map.{Map}
use dwell.Base.Text.{cat, colon}
use dwell.Thrown.{
  Thrown, deposit_not_positive, negative_rate, payout_not_positive, would_go_negative,
  nothing_to_reverse, unbalanced_group,
}
use dwell.Money.{RevenueSplit, stroops, neg, sum, split_revenue}
use dwell.Ledger.Accounts.{
  publisher, advertiser, platform_revenue, payouts_in_flight, external_cash, external_settlement,
  owned_account, single_account,
}
use dwell.Ledger.Entry.{Entry, NewEntry, EntryType, RefType, usdc}
use dwell.Ledger.Store.{Env, Store, append, balance, by_idempotency_key, by_ref}
use dwell.Ledger.Store

-- `billed` is the cache of `billedImpressions`.
pub record Ledger : Type 0 where
  pub store : Store
  pub billed : Option (Map ℤ)

abbrev pub empty : Ledger
empty = record { store = Store.empty; billed = none }

abbrev pub Outcome : Type 0
Outcome = Result Thrown (List Entry) × Ledger

-- `entries.map((e) => stroops(e.amount))`
unfoldable pub amounts : List NewEntry → Result Thrown (List ℤ)
amounts [] = ok []
amounts (e ∷ es) = do x ← stroops e.amount; xs ← amounts es; ok (x ∷ xs)

-- `#post`: an unbalanced group never reaches the store.
unfoldable pub post : Env → List NewEntry → Ledger → Outcome
post env es l = elim (amounts es >>= sum) [
  | err t ↦ (err t, l)
  | ok t ↦
      let (written, s) = append env es l.store in
      if eqb_ℤ t (pos 0)
      then (written, record { store = s; billed = none })
      else (err (unbalanced_group t), l)
]

-- Posts a group that is built first, and may throw on the way.
abbrev pub submit : Env → Result Thrown (List NewEntry) → Ledger → Outcome
submit env (err t) l = (err t, l)
submit env (ok es) l = post env es l

pub record Deposit : Type 0 where
  pub advertiser_id : String
  pub amount : ℤ
  pub topup_id : String

-- `#entry`, with the fields that a row may leave out.
abbrev pub entry :
    String
    → ℤ
    → EntryType
    → RefType
    → String
    → String
    → Option String
    → Option String
    → Option ℤ
    → NewEntry
entry account amount type ref_type ref_id key campaign publisher_id rate = record {
  account_id = account;
  amount = amount;
  asset = usdc;
  type = type;
  ref_type = ref_type;
  ref_id = ref_id;
  idempotency_key = key;
  campaign_id = campaign;
  publisher_id = publisher_id;
  rate_stroops = rate;
}

-- `${kind}:${ref}:${role}`
unfoldable pub key : String → String → String → String
key kind ref role = colon kind (colon ref role)

-- The two rows of a deposit, once its account is known.
unfoldable pub deposit_rows : Deposit → String → ℤ → List NewEntry
deposit_rows i account minus =
    row account i.amount "advertiser"
    ∷ row (single_account external_cash) minus "external_cash"
    ∷ []
  where
    row : String → ℤ → String → NewEntry
    row account amount role =
        entry account amount EntryType.deposit RefType.topup i.topup_id
          (key "topup" i.topup_id role) none none none

unfoldable pub deposit_group : Deposit → Result Thrown (List NewEntry)
deposit_group i = do
  throw_if (leb_ℤ i.amount (pos 0)) deposit_not_positive
  account ← owned_account advertiser i.advertiser_id
  minus ← neg i.amount
  ok (deposit_rows i account minus)

unfoldable pub deposit : Env → Deposit → Ledger → Outcome
deposit env i l = submit env (deposit_group i) l

pub record Impression : Type 0 where
  pub impression_id : String
  pub advertiser_id : String
  pub publisher_id : String
  pub campaign_id : String
  pub rate : ℤ
  pub rev_share_bps : ℤ

-- The three rows of an impression, once its accounts and shares are known.
unfoldable pub impression_rows : Impression → String → String → ℤ → RevenueSplit → List NewEntry
impression_rows i from to minus split =
    row from minus "advertiser"
    ∷ row to split.publisher "publisher"
    ∷ row (single_account platform_revenue) split.platform "platform"
    ∷ []
  where
    row : String → ℤ → String → NewEntry
    row account amount role =
        entry account amount EntryType.impression RefType.impression i.impression_id
          (key "impression" i.impression_id role) (some i.campaign_id) (some i.publisher_id)
          (some i.rate)

unfoldable pub impression_group : Impression → Result Thrown (List NewEntry)
impression_group i = do
  throw_if (ltb_ℤ i.rate (pos 0)) negative_rate
  split ← split_revenue i.rate i.rev_share_bps
  from ← owned_account advertiser i.advertiser_id
  minus ← neg i.rate
  to ← owned_account publisher i.publisher_id
  ok (impression_rows i from to minus split)

unfoldable pub post_impression : Env → Impression → Ledger → Outcome
post_impression env i l = submit env (impression_group i) l

-- The kinds of account that a payout leaves.
pub data PayoutKind : Type 0 where
  of_publisher of_advertiser of_platform : PayoutKind

pub record Payout : Type 0 where
  pub batch_id : String
  pub publisher_id : String
  pub amount : ℤ
  pub kind : PayoutKind

unfoldable pub payout_ref : Payout → String
payout_ref i = colon i.batch_id i.publisher_id

unfoldable pub from_account : PayoutKind → String → Result Thrown String
from_account of_publisher owner = owned_account publisher owner
from_account of_advertiser owner = owned_account advertiser owner
from_account of_platform owner = ok (single_account platform_revenue)

-- The check against an overdraft, which a repeated payout passes by.
unfoldable pub covered : Payout → String → Store → Result Thrown (Unit {0})
covered i from s = elim (by_idempotency_key (key "payout_submit" (payout_ref i) "publisher") s) [
  | some old ↦ ok tt
  | none ↦ balance from s >>= λ b. throw_if (ltb_ℤ b i.amount) would_go_negative
]

unfoldable pub payout_row : Payout → EntryType → String → ℤ → String → String → NewEntry
unfolding payout_ref
payout_row i type account amount kind role =
    entry account amount type RefType.payout_batch (payout_ref i) (key kind (payout_ref i) role)
      none (some i.publisher_id) none

unfoldable pub submit_rows : Payout → String → ℤ → List NewEntry
unfolding payout_row
submit_rows i from minus =
    payout_row i EntryType.payout_submit from minus "payout_submit" "publisher"
    ∷ payout_row i EntryType.payout_submit (single_account payouts_in_flight) i.amount
        "payout_submit" "in_flight"
    ∷ []

unfoldable pub payout_submit_group : Payout → Store → Result Thrown (List NewEntry)
payout_submit_group i s = do
  throw_if (leb_ℤ i.amount (pos 0)) payout_not_positive
  from ← from_account i.kind i.publisher_id
  covered i from s
  minus ← neg i.amount
  ok (submit_rows i from minus)

unfoldable pub payout_submit : Env → Payout → Ledger → Outcome
payout_submit env i l = submit env (payout_submit_group i l.store) l

unfoldable pub settled_rows : Payout → ℤ → List NewEntry
unfolding payout_row
settled_rows i minus =
    payout_row i EntryType.payout_settled (single_account payouts_in_flight) minus "payout_settled"
      "in_flight"
    ∷ payout_row i EntryType.payout_settled (single_account external_settlement) i.amount
        "payout_settled" "external"
    ∷ []

unfoldable pub payout_settled_group : Payout → Result Thrown (List NewEntry)
payout_settled_group i = neg i.amount >>= λ minus. ok (settled_rows i minus)

unfoldable pub payout_settled : Env → Payout → Ledger → Outcome
payout_settled env i l = submit env (payout_settled_group i) l

unfoldable pub reversal_ref : String → String
reversal_ref ref_id = cat ref_id ":reversal"

abbrev pub reversal_row : String → Entry → ℤ → NewEntry
reversal_row ref e minus =
    entry e.account_id minus EntryType.reversal RefType.reversal ref
      (colon "reversal" e.idempotency_key) e.campaign_id e.publisher_id e.rate_stroops

unfoldable pub reversal_group : String → List Entry → Result Thrown (List NewEntry)
reversal_group ref [] = ok []
reversal_group ref (e ∷ es) = do
  minus ← neg e.amount
  rest ← reversal_group ref es
  ok (reversal_row ref e minus ∷ rest)

unfoldable pub reverse : Env → RefType → String → Ledger → Outcome
reverse env ref_type ref_id l =
    let original = by_ref ref_type ref_id l.store in
    let ref = reversal_ref ref_id in
    let done = by_ref RefType.reversal ref l.store in
    if length original == 0
    then (err nothing_to_reverse, l)
    else if not (length done == 0)
    then (ok done, l)
    else submit env (reversal_group ref original) l
