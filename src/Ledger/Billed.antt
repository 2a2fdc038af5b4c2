-- ===== src/Ledger/Billed.antt =====
-- packages/server/src/ledger/ledger.ts: `billedImpressions` and its cache, which every write drops.
use dwell.Base.{
  String, Bool, false, not, ◌&&◌, ◌≡◌, refl, sym, ap, Option, none, some, List, [], ◌∷◌, Result, ok,
  err, length, ◌==◌, same, or_else, subst, if◌then◌else◌, Bool-cases, inl, inr,
}
use dwell.Base.Int.{ℤ, pos, ◌+ℤ◌, ◌-ℤ◌, ltb_ℤ}
use dwell.Base.Map.{Map, get, set}
use dwell.Thrown.{Thrown}
use dwell.Ledger.Accounts.{kind_name, advertiser, split_colon}
use dwell.Ledger.Entry.{Entry, NewEntry, EntryType, RefType, same_type}
use dwell.Ledger.Store.{Env, Store, by_ref}
use dwell.Ledger.Validity.{post-cases}
use dwell.Ledger.History.{
  Operation, deposits, bills, submits, settles, reverses, perform, reverse_nothing, reverse_done,
  reverse_new,
}
use dwell.Ledger.Operations.{
  Ledger, empty, post, submit, deposit, post_impression, payout_submit, payout_settled,
  reversal_ref, reverse,
}

-- `accountId.startsWith('advertiser:')`
unfoldable pub of_advertiser : String → Bool
of_advertiser id = elim (split_colon id) [
  | none ↦ false
  | some (kind, owner) ↦ same kind (kind_name advertiser)
]

abbrev pub counted : Option ℤ → ℤ
counted n = or_else n (pos 0)

-- One round of the loop in `billedImpressions`.
unfoldable pub count_entry : Entry → Map ℤ → Map ℤ
count_entry e m = elim e.campaign_id [
  | none ↦ m
  | some campaign ↦
      if not (of_advertiser e.account_id)
      then m
      else if same_type e.type EntryType.impression
      then set campaign (counted (get campaign m) +ℤ pos 1) m
      else if same_type e.type EntryType.reversal && ltb_ℤ (pos 0) e.amount
      then set campaign (counted (get campaign m) -ℤ pos 1) m
      else m
]

unfoldable pub count_billed : List Entry → Map ℤ → Map ℤ
count_billed [] m = m
count_billed (e ∷ es) m = count_billed es (count_entry e m)

-- `billedImpressions`
unfoldable pub billed_impressions : String → Ledger → ℤ × Ledger
billed_impressions campaign l =
    let m = or_else l.billed (count_billed l.store.entries []) in
    (counted (get campaign m), record l { billed = some m })

-- The cache, where there is one, is what a count of the entries gives.
abbrev pub Cached : Option (Map ℤ) → Store → Type 0
Cached none s = Unit
Cached (some m) s = m ≡ count_billed s.entries []

pub IsCoherent : Ledger → Type 0
IsCoherent l = Cached l.billed l.store

post-IsCoherent :
    (env : Env) (es : List NewEntry) (l : Ledger) → IsCoherent l → IsCoherent (post env es l).1
unfolding IsCoherent
post-IsCoherent env es l c = elim (post-cases es) [
  | inl (t, thrown) ↦ subst (λ o. IsCoherent o.1) (sym (thrown env l)) c
  | inr (_, goes) ↦ subst (λ o. IsCoherent o.1) (sym (goes env l)) tt
]

submit-IsCoherent :
    (env : Env) (r : Result Thrown (List NewEntry)) (l : Ledger)
    → IsCoherent l
    → IsCoherent (submit env r l).1
submit-IsCoherent env (err t) l c = c
submit-IsCoherent env (ok es) l c = post-IsCoherent env es l c

reverse-IsCoherent :
    (env : Env) (t : RefType) (ref : String) (l : Ledger)
    → IsCoherent l
    → IsCoherent (reverse env t ref l).1
reverse-IsCoherent env t ref l c = elim (Bool-cases (length (by_ref t ref l.store) == 0)) [
  | inl none_there ↦ rw (reverse_nothing env t ref l none_there) c
  | inr some_row ↦
      elim (Bool-cases (length (by_ref RefType.reversal (reversal_ref ref) l.store) == 0)) [
        | inr done ↦ rw (reverse_done env t ref l some_row done) c
        | inl fresh ↦ rw (reverse_new env t ref l some_row fresh) (submit-IsCoherent env _ l c)
      ]
]

perform-IsCoherent :
    (env : Env) (op : Operation) (l : Ledger) → IsCoherent l → IsCoherent (perform env op l).1
unfolding perform deposit post_impression payout_submit payout_settled
perform-IsCoherent env (deposits i) l c = submit-IsCoherent env _ l c
perform-IsCoherent env (bills i) l c = submit-IsCoherent env _ l c
perform-IsCoherent env (submits i) l c = submit-IsCoherent env _ l c
perform-IsCoherent env (settles i) l c = submit-IsCoherent env _ l c
perform-IsCoherent env (reverses t ref) l c = reverse-IsCoherent env t ref l c

-- Writes and reads of the ledger, as they come.
pub data Call : Type 0 where
  writes : Env → Operation → Call
  reads : String → Call

unfoldable pub run_calls : List Call → Ledger → Ledger
run_calls [] l = l
run_calls (writes env op ∷ calls) l = run_calls calls (perform env op l).1
run_calls (reads campaign ∷ calls) l = run_calls calls (billed_impressions campaign l).1

read-IsCoherent :
    (campaign : String) (l : Ledger)
    → IsCoherent l
    → ((billed_impressions campaign l).0 ≡ counted (get campaign (count_billed l.store.entries [])))
      × IsCoherent (billed_impressions campaign l).1
unfolding billed_impressions IsCoherent
read-IsCoherent campaign l c = from_cache l.billed c
  where
    from_cache :
        (b : Option (Map ℤ))
        → Cached b l.store
        → (counted (get campaign (or_else b (count_billed l.store.entries [])))
            ≡ counted (get campaign (count_billed l.store.entries [])))
          × (or_else b (count_billed l.store.entries []) ≡ count_billed l.store.entries [])
    from_cache none c = (refl, refl)
    from_cache (some m) c = (ap (λ n. counted (get campaign n)) c, c)

run_calls-IsCoherent :
    (calls : List Call) (l : Ledger) → IsCoherent l → IsCoherent (run_calls calls l)
unfolding run_calls
run_calls-IsCoherent [] l c = c
run_calls-IsCoherent (writes env op ∷ calls) l c =
    run_calls-IsCoherent calls _ (perform-IsCoherent env op l c)
run_calls-IsCoherent (reads campaign ∷ calls) l c =
    run_calls-IsCoherent calls _ (read-IsCoherent campaign l c).1

-- After any sequence of writes, failed ones included, and of reads, from the empty ledger, the
-- number of billed impressions of a campaign that is read is the one that a count of all the
-- entries gives: the cache is never stale.
pub billed_fresh :
    (calls : List Call) (campaign : String)
    → (billed_impressions campaign (run_calls calls empty)).0
      ≡ counted (get campaign (count_billed (run_calls calls empty).store.entries []))
unfolding IsCoherent
billed_fresh calls campaign =
    (read-IsCoherent campaign (run_calls calls empty) (run_calls-IsCoherent calls empty tt)).0
