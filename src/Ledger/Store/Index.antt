-- ===== src/Ledger/Store/Index.antt =====
-- The index of the store and its entries.
use mathlib.Core.List.{map-append}
use dwell.Base.{
  ℕ, suc, String, ◌≡◌, refl, true, false, Option, none, some, List, [], ◌∷◌, ◌++◌, arith, find,
  same, same_iff, same_comm, All, All-append, length, ap, ◌==◌, ◌∙◌, sym,
}
use dwell.Base.Map.{Map, get, set, get-set}
use dwell.Ledger.Entry.{Entry, NewEntry, rows}
use dwell.Ledger.Store.{Env, known, stamp, index}

-- The entry that a key names, by a search through the entries.
abbrev pub find_key : String → List Entry → Option Entry
find_key key = find λ e. same e.idempotency_key key

-- No row has the key.
abbrev pub Lacks : String → List NewEntry → Type 0
Lacks key = All λ d. same d.idempotency_key key ≡ false

-- No key stands twice.
abbrev pub Unique : List NewEntry → Type 0
Unique [] = Unit
Unique (e ∷ es) = Lacks e.idempotency_key es × Unique es

abbrev first_of_two : Option Entry → Option Entry → Option Entry
first_of_two none o = o
first_of_two (some e) o = some e

pub Lacks-find : (key : String) (es : List Entry) → Lacks key (rows es) → find_key key es ≡ none
Lacks-find key [] h = refl
Lacks-find key (e ∷ es) h = ground (arith, Lacks-find key es h.1)

find-Lacks : (key : String) (es : List Entry) → find_key key es ≡ none → Lacks key (rows es)
find-Lacks key [] h = tt
find-Lacks key (e ∷ es) h = ground (arith, find-Lacks key es)

find-append :
    (key : String) (xs ys : List Entry)
    → find_key key (xs ++ ys) ≡ first_of_two (find_key key xs) (find_key key ys)
find-append key [] ys = refl
find-append key (x ∷ xs) ys = ground (arith, find-append key xs ys)

pub get-index :
    (key : String) (es : List Entry) (m : Map Entry)
    → Unique (rows es)
    → get key (index es m) ≡ first_of_two (find_key key es) (get key m)
unfolding index
get-index key [] m u = refl
get-index key (e ∷ es) m u = ground (
  arith,
  get-index key es (set e.idempotency_key e m) u.1,
  get-set key e.idempotency_key e m,
  same_iff e.idempotency_key key,
  Lacks-find key es,
)

Unique-append :
    (xs ys : List NewEntry)
    → Unique xs
    → Unique ys
    → All (λ y. Lacks y.idempotency_key xs) ys
    → Unique (xs ++ ys)
Unique-append [] ys ux uy h = uy
Unique-append (x ∷ xs) ys ux uy h = (
  All-append (λ d. same d.idempotency_key x.idempotency_key ≡ false) xs ys ux.0 (heads ys h),
  Unique-append xs ys ux.1 uy (tails ys h),
)
  where
    heads :
        (ys : List NewEntry)
        → All (λ y. Lacks y.idempotency_key (x ∷ xs)) ys
        → Lacks x.idempotency_key ys
    heads [] h = tt
    heads (y ∷ ys) h = (same_comm y.idempotency_key x.idempotency_key ∙ h.0.0, heads ys h.1)

    tails :
        (ys : List NewEntry)
        → All (λ y. Lacks y.idempotency_key (x ∷ xs)) ys
        → All (λ y. Lacks y.idempotency_key xs) ys
    tails [] h = tt
    tails (y ∷ ys) h = (h.0.1, tails ys h.1)

pub rows-stamp : (env : Env) (n : ℕ) (es : List NewEntry) → rows (stamp env n es) ≡ es
unfolding stamp
rows-stamp env n [] = refl
rows-stamp env n (e ∷ es) = ap (◌∷◌ e) (rows-stamp env (suc n) es)

-- Where the index knows no key of a group, no stored row has one.
known-Lacks :
    (m : Map Entry) (entries : List Entry) (es : List NewEntry)
    → ((key : String) → get key m ≡ find_key key entries)
    → (length (known m es) == 0) ≡ true
    → All (λ e. Lacks e.idempotency_key (rows entries)) es
unfolding known
known-Lacks m entries [] agree h = tt
known-Lacks m entries (e ∷ es) agree h = ground (
  arith,
  known-Lacks m entries es agree,
  agree e.idempotency_key,
  find-Lacks e.idempotency_key entries,
)

-- Which list is searched first makes no difference where they share no key.
find_comm :
    (key : String) (entries ws : List Entry)
    → All (λ e. Lacks e.idempotency_key (rows entries)) (rows ws)
    → first_of_two (find_key key ws) (find_key key entries)
      ≡ first_of_two (find_key key entries) (find_key key ws)
find_comm key entries [] h = ground arith
find_comm key entries (w ∷ ws) h = ground (
  arith,
  find_comm key entries ws h.1,
  same_iff w.idempotency_key key,
  Lacks-find key entries,
  ap (λ k. Lacks k (rows entries)) {x = w.idempotency_key} {y = key},
)

-- After a group with fresh keys the keys are unique still, and the index agrees still.
module _ (env : Env) (n : ℕ) (m : Map Entry) (entries : List Entry) (es : List NewEntry)
    (unique : Unique (rows entries)) (agree : (key : String) → get key m ≡ find_key key entries)
    (distinct : Unique es) (fresh : (length (known m es) == 0) ≡ true) where
  pub Unique-write : Unique (rows (entries ++ stamp env n es))
  Unique-write =
      rw (map-append (λ (e : Entry). e.row) entries (stamp env n es), rows-stamp env n es)
        (Unique-append (rows entries) es unique distinct (known-Lacks m entries es agree fresh))

  pub get-write :
      (key : String) → get key (index (stamp env n es) m) ≡ find_key key (entries ++ stamp env n es)
  get-write key =
      get-index key (stamp env n es) m (rw (rows-stamp env n es) distinct)
      ∙ ap (first_of_two (find_key key (stamp env n es))) (agree key)
      ∙ find_comm key entries (stamp env n es)
          (rw (rows-stamp env n es) (known-Lacks m entries es agree fresh))
      ∙ sym (find-append key entries (stamp env n es))
