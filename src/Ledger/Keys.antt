-- ===== src/Ledger/Keys.antt =====
-- The idempotency keys of the rows of one group.
use dwell.Base.{
  String, ◌≡◌, refl, false, ◌≢◌, length, ◌==◌, List, [], ◌∷◌, map, ok, ◌>>=◌, arith, same, same_iff,
  Bool-cases, inl, inr, >>=-eq-ok,
}
use dwell.Base.Int.{ℤ, negate}
use dwell.Base.Text.{colon, colon_cancel}
use dwell.Money.{RevenueSplit, neg}
use dwell.Money.Checked.{neg-eq-ok}
use dwell.Ledger.Entry.{Entry, NewEntry, RefType, rows}
use dwell.Ledger.Store.Index.{Unique, Lacks}
use dwell.Ledger.Validity.{InRef}
use dwell.Ledger.Operations.{
  Deposit, Impression, Payout, key, payout_ref, deposit_rows, impression_rows, submit_rows,
  settled_rows, reversal_group, reversal_row,
}

-- Keys of one kind and one reference differ where their roles do.
key_ne : (kind ref a b : String) → same a b ≡ false → same (key kind ref a) (key kind ref b) ≡ false
unfolding key
key_ne kind ref a b h = elim (Bool-cases (same (key kind ref a) (key kind ref b))) [
  | inr e ↦ e
  | inl e ↦ ground (
    arith,
    same_iff a b,
    same_iff (key kind ref a) (key kind ref b),
    colon_cancel ref a b,
    colon_cancel kind (colon ref a) (colon ref b),
  )
]

-- A prefix keeps keys apart.
colon_ne : (kind a b : String) → same a b ≡ false → same (colon kind a) (colon kind b) ≡ false
colon_ne kind a b h =
    ground (arith, same_iff a b, same_iff (colon kind a) (colon kind b), colon_cancel kind a b)

pub impression_rows-Unique :
    (i : Impression) (from to : String) (minus : ℤ) (split : RevenueSplit)
    → Unique (impression_rows i from to minus split)
unfolding impression_rows
impression_rows-Unique i from to minus split = (
  (
    key_ne "impression" i.impression_id "publisher" "advertiser" refl,
    (key_ne "impression" i.impression_id "platform" "advertiser" refl, tt),
  ),
  ((key_ne "impression" i.impression_id "platform" "publisher" refl, tt), (tt, tt)),
)

pub submit_rows-Unique :
    (i : Payout) (from : String) (minus : ℤ) → Unique (submit_rows i from minus)
unfolding submit_rows
submit_rows-Unique i from minus =
    ((key_ne "payout_submit" (payout_ref i) "in_flight" "publisher" refl, tt), (tt, tt))

pub settled_rows-Unique : (i : Payout) (minus : ℤ) → Unique (settled_rows i minus)
unfolding settled_rows
settled_rows-Unique i minus =
    ((key_ne "payout_settled" (payout_ref i) "external" "in_flight" refl, tt), (tt, tt))

pub deposit_rows-Unique :
    (i : Deposit) (account : String) (minus : ℤ) → Unique (deposit_rows i account minus)
unfolding deposit_rows
deposit_rows-Unique i account minus =
    ((key_ne "topup" i.topup_id "external_cash" "advertiser" refl, tt), (tt, tt))

-- The rows of a reversal, with exact negations.
abbrev pub reversal_rows : String → List Entry → List NewEntry
reversal_rows ref = map λ e. reversal_row ref e (negate e.amount)

pub reversal_group-eq-ok :
    (ref : String) (es : List Entry) {rs : List NewEntry}
    → reversal_group ref es ≡ ok rs
    → rs ≡ reversal_rows ref es
unfolding reversal_group
reversal_group-eq-ok ref [] h = ground arith
reversal_group-eq-ok ref (e ∷ es) h =
    let (x, p, q) =
      >>=-eq-ok (neg e.amount)
        (λ minus. reversal_group ref es >>= λ rest. ok (reversal_row ref e minus ∷ rest)) h in
    let (rest, r, s) =
      >>=-eq-ok (reversal_group ref es) (λ rest. ok (reversal_row ref e x ∷ rest)) q in
    ground (arith, reversal_group-eq-ok ref es r, neg-eq-ok e.amount p)

reversal-Lacks :
    (ref prior : String) (es : List Entry)
    → Lacks prior (rows es)
    → Lacks (colon "reversal" prior) (reversal_rows ref es)
reversal-Lacks ref prior [] lacks = tt
reversal-Lacks ref prior (e ∷ es) lacks =
    (colon_ne "reversal" e.idempotency_key prior lacks.0, reversal-Lacks ref prior es lacks.1)

-- A reversal keeps the keys of the entries that it negates apart.
pub reversal_rows-Unique :
    (ref : String) (es : List Entry) → Unique (rows es) → Unique (reversal_rows ref es)
reversal_rows-Unique ref [] u = tt
reversal_rows-Unique ref (e ∷ es) u =
    (reversal-Lacks ref e.idempotency_key es u.0, reversal_rows-Unique ref es u.1)

pub reversal_rows-InRef :
    (ref : String) (es : List Entry) → InRef RefType.reversal ref (reversal_rows ref es)
reversal_rows-InRef ref [] = tt
reversal_rows-InRef ref (e ∷ es) = ((refl, refl), reversal_rows-InRef ref es)

pub reversal_rows-ne-nil :
    (ref : String) (es : List Entry) → (length es == 0) ≡ false → reversal_rows ref es ≢ []
reversal_rows-ne-nil ref [] h = λ e. cc
reversal_rows-ne-nil ref (e ∷ es) h = λ e. cc
