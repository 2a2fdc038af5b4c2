-- ===== src/Ledger/Validity.antt =====
-- The invariant of the ledger's store (rules 1 and 3 of `audit`, and the index), under `#post`.
use mathlib.Core.List.{map-append}
use dwell.Base.{
  String, ◌≡◌, refl, sym, ap, ◌∙◌, true, ◌&&◌, ◌⊎◌, inl, inr, List, [], ◌∷◌, map, ok, err, ◌>>=◌,
  arith, All, length, none, same, ◌==◌, Bool-cases, if◌then◌else◌, >>=-eq-ok, Result-cases,
}
use dwell.Base.Int.{ℤ, pos, eqb_ℤ, total, int_laws}
use dwell.Base.Map.{get}
use dwell.Money.{stroops, sum}
use dwell.Money.Checked.{stroops-eq-ok, sum-eq-total}
use dwell.Thrown.{Thrown, unbalanced_group}
use dwell.Ledger.Entry.{
  Entry, NewEntry, RefType, same_ref_type, in_ref, rows, tally, tally-append, ref_total,
}
use dwell.Ledger.Store.{Env, Store, known, stamp, write, append}
use dwell.Ledger.Store.Index.{Unique, find_key, rows-stamp, Unique-write, get-write}
use dwell.Ledger.Operations.{Ledger, amounts, post}

-- Every reference sums to zero, no key stands twice, and the index finds what a search finds.
pub record IsValid (s : Store) : Type 0 where
  pub balanced : (t : RefType) (ref : String) → ref_total t ref (rows s.entries) ≡ pos 0
  pub unique : Unique (rows s.entries)
  pub indexed : (key : String) → get key s.by_key ≡ find_key key s.entries

-- The rows of one reference.
abbrev pub InRef : RefType → String → List NewEntry → Type 0
InRef t ref = All λ e. (e.ref_type ≡ t) × (e.ref_id ≡ ref)

abbrev pub amount_list : List NewEntry → List ℤ
amount_list = map λ e. e.amount

pub amounts-eq-ok : (es : List NewEntry) {xs : List ℤ} → amounts es ≡ ok xs → xs ≡ amount_list es
unfolding amounts
amounts-eq-ok [] h = ground arith
amounts-eq-ok (e ∷ es) h =
    let (x, p, q) = >>=-eq-ok (stroops e.amount) (λ x. amounts es >>= λ xs. ok (x ∷ xs)) h in
    let (ys, r, s) = >>=-eq-ok (amounts es) (λ xs. ok (x ∷ xs)) q in
    ground (arith, amounts-eq-ok es r, stroops-eq-ok e.amount p)

ref_total-InRef :
    (t u : RefType) (ref key : String) (es : List NewEntry)
    → InRef t ref es
    → ref_total u key es
      ≡ (if same_ref_type t u && same ref key then total (amount_list es) else pos 0)
unfolding tally total
ref_total-InRef t u ref key [] h = ground arith
ref_total-InRef t u ref key (e ∷ es) h =
    rw (h.0.0, h.0.1, ref_total-InRef t u ref key es h.1)
      (elim (Bool-cases (same_ref_type t u && same ref key)) [
        | inl p ↦ rw p refl
        | inr p ↦ rw p (omega int_laws)
      ])

-- What a call leaves of a store: the store as it was, or with a group of fresh keys written.
pub data Written (env : Env) (es : List NewEntry) (s s' : Store) : Type 0 where
  kept : s' ≡ s → Written env es s s'
  wrote : (length (known s.by_key es) == 0) ≡ true → s' ≡ (write env es s).1 → Written env es s s'

pub append-Written :
    (env : Env) (es : List NewEntry) (s : Store) → Written env es s (append env es s).1
unfolding append
append-Written env es s = elim (Bool-cases (length (known s.by_key es) == 0)) [
  | inl fresh ↦ wrote fresh (rw fresh)
  | inr stale ↦ kept (ground arith)
]

pub sums-eq-total :
    (es : List NewEntry) {t : ℤ} → (amounts es >>= sum) ≡ ok t → t ≡ total (amount_list es)
sums-eq-total es h =
    let (xs, p, q) = >>=-eq-ok (amounts es) sum h in
    sum-eq-total xs q ∙ ap total (amounts-eq-ok es p)

-- What `#post` makes of a group does not depend on the ledger: it throws and leaves the ledger
-- alone, or the group sums to zero and goes to the store.
pub post-cases :
    (es : List NewEntry)
    → ((t : Thrown) × ((env : Env) (l : Ledger) → post env es l ≡ (err t, l)))
      ⊎ ((total (amount_list es) ≡ pos 0)
          × ((env : Env) (l : Ledger)
              → post env es l ≡ (
                (append env es l.store).0,
                record { store = (append env es l.store).1; billed = none },
              )))
unfolding post
post-cases es = elim (Result-cases (amounts es >>= sum)) [
  | inr (t, thrown) ↦ inl (t, λ env l. rw (thrown, post))
  | inl (t, sums) ↦ elim (Bool-cases (eqb_ℤ t (pos 0))) [
    | inl zero ↦
        inr (sym (sums-eq-total es sums) ∙ (ground arith), λ env l. rw (sums, post) (rw zero))
    | inr other ↦ inl (unbalanced_group t, λ env l. rw (sums, post) (rw other))
  ]
]

module _ (env : Env) (t : RefType) (ref : String) (es : List NewEntry) (group : InRef t ref es)
    (distinct : Unique es) where
  write-IsValid :
      (s : Store)
      → IsValid s
      → total (amount_list es) ≡ pos 0
      → (length (known s.by_key es) == 0) ≡ true
      → IsValid (write env es s).1
  unfolding write
  write-IsValid s v zero fresh = record {
    balanced = λ u key.
        rw
          (
            map-append (λ (e : Entry). e.row) s.entries (stamp env s.issued es),
            rows-stamp env s.issued es,
            tally-append (in_ref u key) (rows s.entries) es,
            v.balanced u key,
            ref_total-InRef t u ref key es group,
            zero,
          )
          (elim (Bool-cases (same_ref_type t u && same ref key)) [
            | inl p ↦ rw p (omega int_laws)
            | inr p ↦ rw p (omega int_laws)
          ]);
    unique = Unique-write env s.issued s.by_key s.entries es v.unique v.indexed distinct fresh;
    indexed = get-write env s.issued s.by_key s.entries es v.unique v.indexed distinct fresh;
  }

  -- Whatever a post of one reference's rows with distinct keys returns, the store stays valid.
  pub post-IsValid : (l : Ledger) → IsValid l.store → IsValid (post env es l).1.store
  post-IsValid l v = elim (post-cases es) [
    | inl (t, thrown) ↦ rw (thrown env l) v
    | inr (zero, goes) ↦ rw (goes env l) (append-IsValid zero)
  ]
    where
      append-IsValid : total (amount_list es) ≡ pos 0 → IsValid (append env es l.store).1
      append-IsValid zero = elim (append-Written env es l.store) [
        | kept e ↦ rw e v
        | wrote fresh e ↦ rw e (write-IsValid l.store v zero fresh)
      ]
