-- ===== src/PayoutRecords/Batches.antt =====
-- Recording a batch, also twice, and settling it.
use dwell.Base.{
  ℕ, suc, String, true, false, not, ◌&&◌, ◌≡◌, refl, sym, ap, ◌∙◌, List, [], ◌∷◌, ◌++◌, ok, err,
  >>=-eq-ok, All, length, keep, keep-append, ltb, same, same_refl, Bool-cases, Result-cases, inl,
  inr, ◌⊎◌, arith,
}
use dwell.Base.Map.{Map, get, set}
use dwell.Thrown.{Thrown}
use dwell.PayoutRecords.{
  is_settled, Receipt, Item, PayoutItemRecord, Records, in_batch, by_batch, found_index,
  new_records, index_of, submitted_record, pushed, record_submit, transition, mark_settled,
}

new_records-keep :
    (receipt : Receipt) (at : ℕ) (indices : Map ℕ) (items : List Item) {rs : List PayoutItemRecord}
    → new_records receipt at indices items ≡ ok rs
    → keep (in_batch receipt.batch_id) rs ≡ rs
unfolding new_records
new_records-keep receipt at indices [] h = ground arith
new_records-keep receipt at indices (it ∷ items) {rs} h =
    let (n, p, q) = >>=-eq-ok (found_index (get it.publisher_id indices)) _ h in
    let (rest, r, s) =
      >>=-eq-ok (new_records receipt at indices items)
        (λ rest. ok (submitted_record receipt at it n ∷ rest)) q in
    let e : rs ≡ submitted_record receipt at it n ∷ rest = ground arith in
    rw e (
      rw (same_refl receipt.batch_id) (
        ap (λ xs. submitted_record receipt at it n ∷ xs)
          (new_records-keep receipt at indices items r)))

new_records-length :
    (receipt : Receipt) (at : ℕ) (indices : Map ℕ) (it : Item) (items : List Item)
    {rs : List PayoutItemRecord}
    → new_records receipt at indices (it ∷ items) ≡ ok rs
    → ltb 0 (length rs) ≡ true
unfolding new_records
new_records-length receipt at indices it items h =
    let (n, p, q) = >>=-eq-ok (found_index (get it.publisher_id indices)) _ h in
    let (rest, r, s) =
      >>=-eq-ok (new_records receipt at indices items)
        (λ rest. ok (submitted_record receipt at it n ∷ rest)) q in
    ground (arith, s)

nil-of-short {ℓ} : {A : Type ℓ} (xs : List A) → ltb 0 (length xs) ≡ false → xs ≡ []
nil-of-short [] h = refl
nil-of-short (x ∷ xs) h = ground arith

record_submit_known :
    (receipt : Receipt) (items : List Item) (at : ℕ) (s : Records)
    → ltb 0 (length (by_batch receipt.batch_id s)) ≡ true
    → record_submit receipt items at s ≡ (ok (by_batch receipt.batch_id s), s)
unfolding record_submit
record_submit_known receipt items at s there = rw there refl

record_submit_new :
    (receipt : Receipt) (items : List Item) (at : ℕ) (s : Records)
    → ltb 0 (length (by_batch receipt.batch_id s)) ≡ false
    → record_submit receipt items at s
      ≡ pushed
          (new_records receipt at (index_of receipt.op_index []) items)
          (record s { receipts = set receipt.batch_id receipt s.receipts })
unfolding record_submit
record_submit_new receipt items at s fresh = rw fresh refl

-- What the transition counts, and that it leaves none of the batch behind.
module _ (batch_id : String) (f : PayoutItemRecord → PayoutItemRecord) where
  transition-count :
      (rs : List PayoutItemRecord)
      → (transition batch_id f rs).0
        ≡ length (keep (λ r. in_batch batch_id r && not (is_settled r.state)) rs)
  unfolding transition
  transition-count [] = refl
  transition-count (r ∷ rs) = elim (Bool-cases (in_batch batch_id r)) [
    | inr other ↦ rw other (transition-count rs)
    | inl there ↦ elim (Bool-cases (is_settled r.state)) [
      | inl final ↦ rw (there, final) (transition-count rs)
      | inr unsettled ↦ rw (there, unsettled) (ap suc (transition-count rs))
    ]
  ]

  transition-settles :
      (rs : List PayoutItemRecord)
      → ((r : PayoutItemRecord) → is_settled (f r).state ≡ true)
      → ((r : PayoutItemRecord) → (f r).batch_id ≡ r.batch_id)
      → All (λ r. is_settled r.state ≡ true) (keep (in_batch batch_id) (transition batch_id f rs).1)
  unfolding transition
  transition-settles [] settles keeps = tt
  transition-settles (r ∷ rs) settles keeps =
      let rest = transition-settles rs settles keeps in
      elim (Bool-cases (in_batch batch_id r)) [
        | inr other ↦ rw other (rw other rest)
        | inl there ↦ elim (Bool-cases (is_settled r.state)) [
          | inl final ↦ rw (there, final) (rw there (final, rest))
          | inr unsettled ↦
              let inside : in_batch batch_id (f r) ≡ true =
                ap (λ b. same b batch_id) (keeps r) ∙ there in
              rw (there, unsettled) (rw inside (settles r, rest))
        ]
      ]

-- `markSettled` returns how many records of the batch were not settled yet, and after it every
-- record of the batch is settled.
pub mark_settled_lem :
    (batch_id tx_hash : String) (at : ℕ) (s : Records)
    → ((mark_settled batch_id tx_hash at s).0
        ≡ length (keep (λ r. in_batch batch_id r && not (is_settled r.state)) s.items))
      × All
          (λ r. is_settled r.state ≡ true)
          (by_batch batch_id (mark_settled batch_id tx_hash at s).1)
unfolding mark_settled by_batch
mark_settled_lem batch_id tx_hash at s = (
  transition-count batch_id _ s.items,
  transition-settles batch_id _ s.items (λ r. refl) (λ r. refl),
)

by_batch-pushed :
    (receipt : Receipt) (at : ℕ) (items : List Item) (m : Map Receipt) (s : Records)
    {rs : List PayoutItemRecord}
    → new_records receipt at (index_of receipt.op_index []) items ≡ ok rs
    → ltb 0 (length (by_batch receipt.batch_id s)) ≡ false
    → by_batch receipt.batch_id (record { items = s.items ++ rs; receipts = m }) ≡ rs
unfolding by_batch
by_batch-pushed receipt at items m s {rs} built fresh =
    rw
      (
        keep-append (in_batch receipt.batch_id) s.items rs,
        nil-of-short (keep (in_batch receipt.batch_id) s.items) fresh,
        new_records-keep receipt at (index_of receipt.op_index []) items built,
      )
      refl

-- Once `recordSubmit` has returned for a batch with an item, it returns the same records, and
-- leaves the store as it is, for any later receipt of that batch, with whatever items.
pub record_submit_once :
    (receipt again : Receipt) (it : Item) (items others : List Item) (at later : ℕ) (s : Records)
    {ws : List PayoutItemRecord}
    → again.batch_id ≡ receipt.batch_id
    → (record_submit receipt (it ∷ items) at s).0 ≡ ok ws
    → record_submit again others later (record_submit receipt (it ∷ items) at s).1
      ≡ (ok ws, (record_submit receipt (it ∷ items) at s).1)
record_submit_once receipt again it items others at later s {ws} same_batch h =
    elim (Bool-cases (ltb 0 (length (by_batch receipt.batch_id s)))) [
      | inl there ↦
          let first = record_submit_known receipt (it ∷ items) at s there in
          let e : ok (by_batch receipt.batch_id s) ≡ ok ws = ap (λ o. o.0) (sym first) ∙ h in
          rw first (
            record_submit_known again others later s (rw same_batch there)
            ∙ ap (λ r. (r, s)) (rw same_batch e))
      | inr fresh ↦
          fresh_once fresh
            (Result-cases (new_records receipt at (index_of receipt.op_index []) (it ∷ items)))
    ]
  where
    fresh_once :
        ltb 0 (length (by_batch receipt.batch_id s)) ≡ false
        → ((rs : List PayoutItemRecord) × (new_records receipt at
                (index_of receipt.op_index [])
                (it ∷ items)
              ≡ ok rs))
          ⊎ ((e : Thrown) × (new_records receipt at (index_of receipt.op_index []) (it ∷ items)
                ≡ err e))
        → record_submit again others later (record_submit receipt (it ∷ items) at s).1
          ≡ (ok ws, (record_submit receipt (it ∷ items) at s).1)
    fresh_once fresh (inr (e, thrown)) =
        let first = record_submit_new receipt (it ∷ items) at s fresh in
        let failed : (record_submit receipt (it ∷ items) at s).0 ≡ err e =
          ap (λ o. o.0)
            (first
              ∙ ap (λ r. pushed r (record s { receipts = set receipt.batch_id receipt s.receipts }))
                  thrown) in
        cc
    fresh_once fresh (inl (rs, built)) =
        let m = set receipt.batch_id receipt s.receipts in
        let first : record_submit receipt (it ∷ items) at s
            ≡ (ok rs, record { items = s.items ++ rs; receipts = m }) =
          record_submit_new receipt (it ∷ items) at s fresh
          ∙ ap (λ r. pushed r (record s { receipts = m })) built in
        let e : ok rs ≡ ok ws = ap (λ o. o.0) (sym first) ∙ h in
        let shows = by_batch-pushed receipt at (it ∷ items) m s built fresh in
        let some_record =
          new_records-length receipt at (index_of receipt.op_index []) it items built in
        rw first (
          record_submit_known again others later (record { items = s.items ++ rs; receipts = m })
            (rw same_batch (rw shows some_record))
          ∙ ap (λ r. (r, record { items = s.items ++ rs; receipts = m }))
              (rw same_batch (rw shows e)))
