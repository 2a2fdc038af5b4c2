-- ===== src/Ledger/Store.antt =====
-- packages/server/src/ledger/memory-store.ts: the entries in order, and an index by key.
pub mod Index
use dwell.Base.{
  ℕ, zero, suc, ◌+◌, String, Bool, true, false, Option, none, some, List, [], ◌∷◌, ◌++◌, Result, ok,
  err, ◌>>=◌, keep, length, same, ◌==◌, if◌then◌else◌,
}
use dwell.Base.Int.{ℤ}
use dwell.Base.Map.{Map, get, set}
use dwell.Thrown.{Thrown, partial_idempotency}
use dwell.Money.{stroops, add, zero_stroops}
use dwell.Ledger.Entry.{Entry, NewEntry, RefType, in_ref}

-- The injected clock and id generator: the n-th call of `newId` returns `new_id n`.
pub record Env : Type 0 where
  pub now : ℕ
  pub new_id : ℕ → String

-- `issued` counts the calls of `newId`.
pub record Store : Type 0 where
  pub entries : List Entry
  pub by_key : Map Entry
  pub issued : ℕ

abbrev pub empty : Store
empty = record { entries = []; by_key = []; issued = 0 }

-- `entries.map((e) => this.#byKey.get(e.idempotencyKey)).filter(Boolean)`
unfoldable pub known : Map Entry → List NewEntry → List Entry
known m [] = []
known m (e ∷ es) = elim (get e.idempotency_key m) [
  | none ↦ known m es
  | some old ↦ old ∷ known m es
]

-- `entries.map((e) => ({ ...e, id: this.newId(), createdAt: now }))`
unfoldable pub stamp : Env → ℕ → List NewEntry → List Entry
stamp env n [] = []
stamp env n (e ∷ es) =
    record { row = e; id = env.new_id n; created_at = env.now } ∷ stamp env (suc n) es

-- The loop that enters the written rows into the index.
unfoldable pub index : List Entry → Map Entry → Map Entry
index [] m = m
index (e ∷ es) m = index es (set e.idempotency_key e m)

unfoldable pub write : Env → List NewEntry → Store → List Entry × Store
unfolding stamp index
write env es s =
    let written = stamp env s.issued es in
    (
      written,
      record {
        entries = s.entries ++ written;
        by_key = index written s.by_key;
        issued = s.issued + length es;
      },
    )

unfoldable pub append : Env → List NewEntry → Store → Result Thrown (List Entry) × Store
append env es s =
    let existing = known s.by_key es in
    let (written, s') = write env es s in
    if length existing == 0
    then (ok written, s')
    else if length existing == length es
    then (ok existing, s)
    else (err (partial_idempotency (length existing) (length es)), s)

unfoldable pub by_idempotency_key : String → Store → Option Entry
by_idempotency_key key s = get key s.by_key

unfoldable pub by_ref : RefType → String → Store → List Entry
by_ref ref_type ref_id s = keep (λ e. in_ref ref_type ref_id e.row) s.entries

-- The loop of `balance`: every addition is checked.
unfoldable pub balance_from : String → ℤ → List Entry → Result Thrown ℤ
balance_from account acc [] = ok acc
balance_from account acc (e ∷ es) =
    let next = stroops e.amount >>= add acc in
    (if same e.account_id account then next else ok acc) >>= λ acc'. balance_from account acc' es

unfoldable pub balance : String → Store → Result Thrown ℤ
unfolding balance_from
balance account s = balance_from account zero_stroops s.entries
