-- ===== src/PayoutRecords/Evolution.antt =====
-- What becomes of the records of payouts over time.
use mathlib.Core.List.{append-nil}
use dwell.Base.{
  ℕ, String, false, ◌≡◌, refl, sym, ◌∙◌, List, [], ◌∷◌, ◌++◌, Result, ok, err, length, ltb,
  Bool-cases, inl, inr, ◌⊎◌, subst,
}
use dwell.Base.Map.{set}
use dwell.Thrown.{Thrown, op_index_missing}
use dwell.PayoutRecords.{
  is_settled, Receipt, Item, PayoutItemRecord, Records, in_batch, by_batch, new_records, index_of,
  pushed, record_submit, transition, mark_settled, mark_failed,
}

-- A record as it was, or, where it was not settled, with the same payment: to whom, to which
-- address, how much, in which operation of which batch, and in which envelope.
abbrev pub Became : PayoutItemRecord → PayoutItemRecord → Type 0
Became r r1 =
    (r1 ≡ r)
    ⊎ ((is_settled r.state ≡ false)
        × (r1.batch_id ≡ r.batch_id)
        × (r1.publisher_id ≡ r.publisher_id)
        × (r1.destination_address ≡ r.destination_address)
        × (r1.amount ≡ r.amount)
        × (r1.op_index ≡ r.op_index)
        × (r1.envelope_xdr ≡ r.envelope_xdr))

-- Every record of the first list became the one at its place in the second.
abbrev pub Evolves : List PayoutItemRecord → List PayoutItemRecord → Type 0
Evolves [] new = Unit
Evolves (r ∷ rs) [] = ⊥
Evolves (r ∷ rs) (r1 ∷ new) = Became r r1 × Evolves rs new

Evolves-refl : (rs new : List PayoutItemRecord) → Evolves rs (rs ++ new)
Evolves-refl [] new = tt
Evolves-refl (r ∷ rs) new = (inl refl, Evolves-refl rs new)

Evolves-append : (rs new more : List PayoutItemRecord) → Evolves rs new → Evolves rs (new ++ more)
Evolves-append [] new more h = tt
Evolves-append (r ∷ rs) [] more h = absurd h
Evolves-append (r ∷ rs) (r1 ∷ new) more h = (h.0, Evolves-append rs new more h.1)

Became-trans : (r r1 r2 : PayoutItemRecord) → Became r r1 → Became r1 r2 → Became r r2
Became-trans r r1 r2 (inl e) h = subst (λ x. Became x r2) e h
Became-trans r r1 r2 (inr h) (inl e) = inr (
    subst
      (λ x.
        (is_settled r.state ≡ false)
        × (x.batch_id ≡ r.batch_id)
        × (x.publisher_id ≡ r.publisher_id)
        × (x.destination_address ≡ r.destination_address)
        × (x.amount ≡ r.amount)
        × (x.op_index ≡ r.op_index)
        × (x.envelope_xdr ≡ r.envelope_xdr))
      (sym e) h)
Became-trans r r1 r2 (inr h) (inr k) =
    inr (h.0, k.1 ∙ h.1, k.2 ∙ h.2, k.3 ∙ h.3, k.4 ∙ h.4, k.5 ∙ h.5, k.6 ∙ h.6)

Evolves-trans : (rs ss ts : List PayoutItemRecord) → Evolves rs ss → Evolves ss ts → Evolves rs ts
Evolves-trans [] ss ts h k = tt
Evolves-trans (r ∷ rs) [] ts h k = absurd h
Evolves-trans (r ∷ rs) (s ∷ ss) [] h k = absurd k
Evolves-trans (r ∷ rs) (s ∷ ss) (t ∷ ts) h k =
    (Became-trans r s t h.0 k.0, Evolves-trans rs ss ts h.1 k.1)

-- A transition that leaves the payment of an unsettled record as it is.
transition-Evolves :
    (batch_id : String) (f : PayoutItemRecord → PayoutItemRecord) (rs : List PayoutItemRecord)
    → ((r : PayoutItemRecord) → is_settled r.state ≡ false → Became r (f r))
    → Evolves rs (transition batch_id f rs).1
unfolding transition
transition-Evolves batch_id f [] h = tt
transition-Evolves batch_id f (r ∷ rs) h =
    let rest = transition-Evolves batch_id f rs h in
    elim (Bool-cases (in_batch batch_id r)) [
      | inr other ↦ rw other (inl refl, rest)
      | inl there ↦ elim (Bool-cases (is_settled r.state)) [
        | inl final ↦ rw (there, final) (inl refl, rest)
        | inr unsettled ↦ rw (there, unsettled) (h r unsettled, rest)
      ]
    ]

pushed-Evolves :
    (result : Result Thrown (List PayoutItemRecord)) (s : Records)
    → Evolves s.items (pushed result s).1.items
pushed-Evolves (err e) s = subst (Evolves s.items) (append-nil s.items) (Evolves-refl s.items [])
pushed-Evolves (ok rs) s = Evolves-refl s.items rs

-- The operations that change the records.
pub data Operation : Type 0 where
  submits : Receipt → List Item → ℕ → Operation
  settles fails : String → String → ℕ → Operation

unfoldable pub perform : Operation → Records → Records
perform (submits receipt items at) s = (record_submit receipt items at s).1
perform (settles batch_id tx_hash at) s = (mark_settled batch_id tx_hash at s).1
perform (fails batch_id reason at) s = (mark_failed batch_id reason at s).1

unfoldable pub run : List Operation → Records → Records
run [] s = s
run (op ∷ ops) s = run ops (perform op s)

record_submit-Evolves :
    (receipt : Receipt) (items : List Item) (at : ℕ) (s : Records)
    → Evolves s.items (record_submit receipt items at s).1.items
unfolding record_submit
record_submit-Evolves receipt items at s =
    elim (Bool-cases (ltb 0 (length (by_batch receipt.batch_id s)))) [
      | inl there ↦ rw there (pushed-Evolves (err op_index_missing) s)
      | inr fresh ↦ rw fresh (
          pushed-Evolves (new_records receipt at (index_of receipt.op_index []) items)
            (record s { receipts = set receipt.batch_id receipt s.receipts }))
    ]

perform-Evolves : (op : Operation) (s : Records) → Evolves s.items (perform op s).items
unfolding perform mark_settled mark_failed
perform-Evolves (submits receipt items at) s = record_submit-Evolves receipt items at s
perform-Evolves (settles batch_id tx_hash at) s =
    transition-Evolves batch_id _ s.items
      (λ r unsettled. inr (unsettled, refl, refl, refl, refl, refl, refl))
perform-Evolves (fails batch_id reason at) s =
    transition-Evolves batch_id _ s.items
      (λ r unsettled. inr (unsettled, refl, refl, refl, refl, refl, refl))

-- Whatever the payout store is asked to do, in whatever order: no record is removed or moved, a
-- settled record stays exactly as it is, and of any other record the batch, the publisher, the
-- address, the amount, the operation and the envelope never change.
pub run-Evolves : (ops : List Operation) (s : Records) → Evolves s.items (run ops s).items
unfolding run
run-Evolves [] s = subst (Evolves s.items) (append-nil s.items) (Evolves-refl s.items [])
run-Evolves (op ∷ ops) s =
    Evolves-trans s.items (perform op s).items (run ops (perform op s)).items (perform-Evolves op s)
      (run-Evolves ops (perform op s))
