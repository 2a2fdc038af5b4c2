-- ===== src/PayoutRecords/Tests.antt =====
-- A batch of two payouts, settled and then reported as failed.
use dwell.Base.{true, not, ◌&&◌, ◌≡◌, refl, List, [], ◌∷◌, ok, All, length, keep}
use dwell.Base.Int.{pos}
use dwell.Base.Map.{get, set}
use dwell.PayoutRecords.{
  is_settled, Receipt, Item, PayoutItemRecord, Records, empty, in_batch, by_batch, index_of,
  new_records, submitted_record, record_submit, transition, mark_settled, mark_failed,
}
use dwell.PayoutRecords.Evolution.{Evolves, Operation, settles, fails, perform, run, run-Evolves}
use dwell.PayoutRecords.Batches.{record_submit_once, mark_settled_lem}

abbrev receipt : Receipt
receipt = record {
  batch_id = "b1";
  tx_hash = "h1";
  envelope_xdr = "x";
  source_seq = "7";
  max_time = 100;
  fee_bid = pos 100;
  op_index = ("alice", 0) ∷ ("bob", 1) ∷ [];
}

abbrev to_alice : Item
to_alice = record { publisher_id = "alice"; address = "GA"; amount = pos 5 }

abbrev to_bob : Item
to_bob = record { publisher_id = "bob"; address = "GB"; amount = pos 6 }

abbrev both : List Item
both = to_alice ∷ to_bob ∷ []

abbrev written : List PayoutItemRecord
written = submitted_record receipt 1 to_alice 0 ∷ submitted_record receipt 1 to_bob 1 ∷ []

abbrev recorded : Records
recorded = record { items = written; receipts = ("b1", receipt) ∷ [] }

abbrev late_failure : List Operation
late_failure = settles "b1" "h1" 2 ∷ fails "b1" "timeout" 3 ∷ []

-- The late report of a failure changes nothing.
late_failure_ignored :
    (run late_failure recorded).items ≡ (run (settles "b1" "h1" 2 ∷ []) recorded).items
unfolding run perform mark_settled mark_failed transition
late_failure_ignored = refl

run-Evolves_example : Evolves recorded.items (run late_failure recorded).items
run-Evolves_example = run-Evolves late_failure recorded

record_submit_once_example :
    record_submit receipt [] 9 (record_submit receipt both 1 empty).1
    ≡ (ok written, (record_submit receipt both 1 empty).1)
unfolding record_submit new_records index_of by_batch get set
record_submit_once_example =
    record_submit_once receipt receipt to_alice (to_bob ∷ []) [] 1 9 empty refl refl

mark_settled_lem_example :
    ((mark_settled "b1" "h1" 2 recorded).0
      ≡ length (keep (λ r. in_batch "b1" r && not (is_settled r.state)) recorded.items))
    × All (λ r. is_settled r.state ≡ true) (by_batch "b1" (mark_settled "b1" "h1" 2 recorded).1)
mark_settled_lem_example = mark_settled_lem "b1" "h1" 2 recorded
