-- ===== src/Base/Map.antt =====
-- A JavaScript `Map` with text keys, in insertion order.
use Prim.Native.String.{String}
use mathlib.Core.Path.{◌≡◌, refl, sym, subst, ◌∙◌}
use mathlib.Core.Logic.{inl, inr}
use mathlib.Core.Bool.{Bool, false}
use mathlib.Core.List.{List, [], ◌∷◌}
use mathlib.Core.Option.{Option, none, some}
use native.Mathlib.Omega.{arith}
use dwell.Base.Lists.{keep}
use dwell.Base.Tests.{same, same_iff, same_comm, same_refl, Bool-cases, is_some, if◌then◌else◌}

abbrev pub Map {ℓ} : Type ℓ → Type ℓ
Map V = List (String × V)

module _ {ℓ} {V : Type ℓ} where
  -- `m.get(k)`
  unfoldable pub get : String → Map V → Option V
  get k [] = none
  get k ((j, v) ∷ m) = if same j k then some v else get k m

  -- `m.set(k, v)`: in place where the key is known, else at the end.
  unfoldable pub set : String → V → Map V → Map V
  set k v [] = (k, v) ∷ []
  set k v ((j, w) ∷ m) = if same j k then (k, v) ∷ m else (j, w) ∷ set k v m

  -- `m.delete(k)`
  unfoldable pub delete : String → Map V → Map V
  delete k [] = []
  delete k ((j, w) ∷ m) = if same j k then delete k m else (j, w) ∷ delete k m

  -- `m.has(k)`
  abbrev pub has : String → Map V → Bool
  has k m = is_some (get k m)

  -- `[...m.values()]`
  unfoldable pub values : Map V → List V
  values [] = []
  values ((j, v) ∷ m) = v ∷ values m

  pub get-set :
      (j k : String) (v : V) (m : Map V)
      → get j (set k v m) ≡ (if same k j then some v else get j m)
  unfolding get set
  get-set j k v [] = refl
  get-set j k v ((i, w) ∷ m) =
      ground (arith, same_iff k j, same_iff i k, same_iff i j, get-set j k v m)

  pub get-delete :
      (j k : String) (m : Map V) → get j (delete k m) ≡ (if same k j then none else get j m)
  unfolding get delete
  get-delete j k [] = ground arith
  get-delete j k ((i, w) ∷ m) =
      ground (arith, same_iff k j, same_iff i k, same_iff i j, get-delete j k m)

  -- No key stands twice.
  abbrev pub Distinct : Map V → Type ℓ
  Distinct [] = Unit
  Distinct ((k, v) ∷ m) = (get k m ≡ none) × Distinct m

  pub set-Distinct : (k : String) (v : V) (m : Map V) → Distinct m → Distinct (set k v m)
  unfolding set get
  set-Distinct k v [] h = (refl, tt)
  set-Distinct k v ((j, w) ∷ m) h = elim (Bool-cases (same j k)) [
    | inl e ↦ rw e (subst (λ i. (get i m ≡ none) × Distinct m) ((same_iff j k).0 e) h)
    | inr e ↦ rw e (get-set j k v m ∙ rw (same_comm k j) (rw e h.0), set-Distinct k v m h.1)
  ]

  keep_first :
      (p : String × V → Bool) (k : String) (w : V) (m : Map V)
      → get k (keep p m) ≡ none
      → get k (keep p ((k, w) ∷ m)) ≡ (if p (k, w) then some w else none)
  unfolding get
  keep_first p k w m h = elim (Bool-cases (p (k, w))) [
    | inl e ↦ rw (e, same_refl k) refl
    | inr e ↦ rw e h
  ]

  keep_other :
      (p : String × V → Bool) (j k : String) (w : V) (m : Map V)
      → same j k ≡ false
      → get k (keep p ((j, w) ∷ m)) ≡ get k (keep p m)
  unfolding get
  keep_other p j k w m h = elim (Bool-cases (p (j, w))) [
    | inl e ↦ rw (e, h) refl
    | inr e ↦ rw e refl
  ]

  -- A filter keeps a key's value where the test holds for the pair, and drops it elsewhere.
  pub get-keep :
      (p : String × V → Bool) (k : String) (m : Map V)
      → Distinct m
      → get k (keep p m)
        ≡ elim (get k m) [ none ↦ none | some v ↦ if p (k, v) then some v else none ]
  unfolding get
  get-keep p k [] h = refl
  get-keep p k ((j, w) ∷ m) h = elim (Bool-cases (same j k)) [
    | inl e ↦
        let absent : get k m ≡ none = subst (λ i. get i m ≡ none) ((same_iff j k).0 e) h.0 in
        rw e (
          subst (λ i. get k (keep p ((i, w) ∷ m)) ≡ (if p (k, w) then some w else none))
            (sym ((same_iff j k).0 e)) (keep_first p k w m (get-keep p k m h.1 ∙ rw absent refl)))
    | inr e ↦ keep_other p j k w m e ∙ get-keep p k m h.1 ∙ rw e refl
  ]

  pub keep-Distinct : (p : String × V → Bool) (m : Map V) → Distinct m → Distinct (keep p m)
  keep-Distinct p [] h = tt
  keep-Distinct p ((j, w) ∷ m) h = elim (Bool-cases (p (j, w))) [
    | inl e ↦ rw e (get-keep p j m h.1 ∙ rw h.0 refl, keep-Distinct p m h.1)
    | inr e ↦ rw e (keep-Distinct p m h.1)
  ]

  pub delete-Distinct : (k : String) (m : Map V) → Distinct m → Distinct (delete k m)
  unfolding delete
  delete-Distinct k [] h = tt
  delete-Distinct k ((j, w) ∷ m) h = elim (Bool-cases (same j k)) [
    | inl e ↦ rw e (delete-Distinct k m h.1)
    | inr e ↦ rw e (absent e, delete-Distinct k m h.1)
  ]
    where
      absent : same j k ≡ false → get j (delete k m) ≡ none
      absent e = get-delete j k m ∙ rw (same_comm k j) (rw e h.0)
