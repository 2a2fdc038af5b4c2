-- ===== src/PayoutRecords.antt =====
-- packages/server/src/payouts/store.ts: which payment went where, in which operation of which
-- transaction. The store keeps the records in order, and the receipt of each batch.
pub mod Evolution
pub mod Batches
pub mod Tests
use dwell.Base.{
  ℕ, suc, String, Bool, true, false, not, ◌||◌, Option, none, some, List, [], ◌∷◌, ◌++◌, Result, ok,
  err, ◌>>=◌, length, keep, any, take, same, ltb, leb, ◌==◌, if◌then◌else◌,
}
use dwell.Base.Int.{ℤ}
use dwell.Base.Map.{Map, get, set}
use dwell.Thrown.{Thrown, op_index_missing}

pub data PayoutItemState : Type 0 where
  submitted settled failed : PayoutItemState

abbrev pub is_settled : PayoutItemState → Bool
is_settled PayoutItemState.submitted = false
is_settled PayoutItemState.settled = true
is_settled PayoutItemState.failed = false

abbrev pub is_submitted : PayoutItemState → Bool
is_submitted PayoutItemState.submitted = true
is_submitted PayoutItemState.settled = false
is_submitted PayoutItemState.failed = false

-- `SubmissionReceipt` of the payment rail.
pub record Receipt : Type 0 where
  pub batch_id : String
  pub tx_hash : String
  pub envelope_xdr : String
  pub source_seq : String
  pub max_time : ℕ
  pub fee_bid : ℤ
  pub op_index : List (String × ℕ)

-- One item of `recordSubmit`.
pub record Item : Type 0 where
  pub publisher_id : String
  pub address : String
  pub amount : ℤ

pub record PayoutItemRecord : Type 0 where
  pub batch_id : String
  pub publisher_id : String
  pub destination_address : String
  pub amount : ℤ
  pub op_index : ℕ
  pub tx_hash : String
  pub envelope_xdr : String
  pub source_seq : String
  pub max_time : ℕ
  pub state : PayoutItemState
  pub submitted_at : ℕ
  pub settled_at : Option ℕ
  pub failure_reason : Option String

pub record Records : Type 0 where
  pub items : List PayoutItemRecord
  pub receipts : Map Receipt

abbrev pub empty : Records
empty = record { items = []; receipts = [] }

abbrev pub in_batch : String → PayoutItemRecord → Bool
in_batch batch_id r = same r.batch_id batch_id

-- `byBatch`
pub by_batch : String → Records → List PayoutItemRecord
by_batch batch_id s = keep (in_batch batch_id) s.items

-- `new Map(receipt.opIndex.map(...))`: the last index of a publisher counts.
pub index_of : List (String × ℕ) → Map ℕ → Map ℕ
index_of [] m = m
index_of ((publisher, n) ∷ ops) m = index_of ops (set publisher n m)

abbrev pub submitted_record : Receipt → ℕ → Item → ℕ → PayoutItemRecord
submitted_record receipt at it n = record {
  batch_id = receipt.batch_id;
  publisher_id = it.publisher_id;
  destination_address = it.address;
  amount = it.amount;
  op_index = n;
  tx_hash = receipt.tx_hash;
  envelope_xdr = receipt.envelope_xdr;
  source_seq = receipt.source_seq;
  max_time = receipt.max_time;
  state = PayoutItemState.submitted;
  submitted_at = at;
  settled_at = none;
  failure_reason = none;
}

abbrev pub found_index : Option ℕ → Result Thrown ℕ
found_index none = err op_index_missing
found_index (some n) = ok n

-- `input.items.map(...)`, which throws at an item without an operation.
pub new_records : Receipt → ℕ → Map ℕ → List Item → Result Thrown (List PayoutItemRecord)
new_records receipt at indices [] = ok []
new_records receipt at indices (it ∷ items) = do
  n ← found_index (get it.publisher_id indices)
  rest ← new_records receipt at indices items
  ok (submitted_record receipt at it n ∷ rest)

-- The end of `recordSubmit`: the receipt is kept by then, also where an item makes it throw.
abbrev pub pushed :
    Result Thrown (List PayoutItemRecord)
    → Records
    → Result Thrown (List PayoutItemRecord) × Records
pushed (err e) s = (err e, s)
pushed (ok rs) s = (ok rs, record s { items = s.items ++ rs })

-- `recordSubmit`
pub record_submit :
    Receipt → List Item → ℕ → Records → Result Thrown (List PayoutItemRecord) × Records
record_submit receipt items at s =
    let existing = by_batch receipt.batch_id s in
    if ltb 0 (length existing)
    then (ok existing, s)
    else pushed (new_records receipt at (index_of receipt.op_index []) items)
        (record s { receipts = set receipt.batch_id receipt s.receipts })

-- `#transition`: the settled ones are left as they are.
pub transition :
    String
    → (PayoutItemRecord → PayoutItemRecord)
    → List PayoutItemRecord
    → ℕ × List PayoutItemRecord
transition batch_id f [] = (0, [])
transition batch_id f (r ∷ rs) =
    let (n, rest) = transition batch_id f rs in
    if not (in_batch batch_id r)
    then (n, r ∷ rest)
    else if is_settled r.state
    then (n, r ∷ rest)
    else (suc n, f r ∷ rest)

-- `markSettled`
pub mark_settled : String → String → ℕ → Records → ℕ × Records
mark_settled batch_id tx_hash at s =
    let (n, items) =
      transition batch_id
        (λ r. record r { state = PayoutItemState.settled; tx_hash = tx_hash; settled_at = some at })
        s.items in
    (n, record s { items = items })

-- `markFailed`
pub mark_failed : String → String → ℕ → Records → ℕ × Records
mark_failed batch_id reason at s =
    let (n, items) =
      transition batch_id
        (λ r. record r {
          state = PayoutItemState.failed;
          settled_at = some at;
          failure_reason = some reason;
        })
        s.items in
    (n, record s { items = items })

-- The stable order by `b.submittedAt - a.submittedAt`.
pub insert_newest : PayoutItemRecord → List PayoutItemRecord → List PayoutItemRecord
insert_newest r [] = r ∷ []
insert_newest r (x ∷ xs) =
    if leb x.submitted_at r.submitted_at then r ∷ x ∷ xs else x ∷ insert_newest r xs

pub newest_first : List PayoutItemRecord → List PayoutItemRecord
newest_first [] = []
newest_first (r ∷ rs) = insert_newest r (newest_first rs)

-- `forPublisher`
pub for_publisher : String → ℕ → Records → List PayoutItemRecord
for_publisher publisher_id limit s =
    take limit (newest_first (keep (λ r. same r.publisher_id publisher_id) s.items))

-- The batches with a record that is still submitted, each once, in order of appearance.
pub open_batches : List String → List PayoutItemRecord → List String
open_batches seen [] = []
open_batches seen (r ∷ rs) =
    let skip = not (is_submitted r.state) || any (λ b. same b r.batch_id) seen in
    let after = open_batches (r.batch_id ∷ seen) rs in
    if skip then open_batches seen rs else r.batch_id ∷ after

pub with_receipts : Map Receipt → List String → List (String × Receipt)
with_receipts receipts [] = []
with_receipts receipts (b ∷ bs) = elim (get b receipts) [
  | none ↦ with_receipts receipts bs
  | some receipt ↦ (b, receipt) ∷ with_receipts receipts bs
]

-- `unresolved`
pub unresolved : Records → List (String × Receipt)
unresolved s = with_receipts s.receipts (open_batches [] s.items)

-- `SettlementState` of the payment rail: what became of a transfer.
pub data SettlementState : Type 0 where
  settled failed expired pending : SettlementState

-- `stateFromSettlement`
pub state_from_settlement : SettlementState → Option PayoutItemState
state_from_settlement SettlementState.settled = some PayoutItemState.settled
state_from_settlement SettlementState.failed = some PayoutItemState.failed
state_from_settlement SettlementState.expired = some PayoutItemState.failed
state_from_settlement SettlementState.pending = none
