-- ===== src/Wallets/Histories.antt =====
-- What happens to the wallets over time, and what the operations of others leave of a binding.
use dwell.Base.{
  ℕ, ◌+◌, String, Bool, false, not, ◌&&◌, ◌||◌, Option, none, some, List, [], ◌∷◌, same, same_iff,
  if◌then◌else◌, ◌≡◌, inl, inr, refl, sym, subst, ◌∙◌, Bool-cases, arith,
}
use dwell.Base.Map.{Map, get, delete, get-set, get-delete, Distinct, set-Distinct, delete-Distinct}
use dwell.Wallets.{
  Network, same_network, WalletBinding, WalletStore, bind, revert, revert_to, revert_found,
  invalidate_each, invalidate_for_network,
}

-- An operation that changes the store.
pub data Operation : Type 0 where
  binds : ℕ → Option ℕ → String → String → Network → Operation
  reverts : ℕ → String → Operation
  invalidates : Network → Operation

unfoldable pub perform : Operation → WalletStore → WalletStore
perform (binds now hold_ms publisher_id address network) s =
    (bind now hold_ms publisher_id address network s).1
perform (reverts now publisher_id) s = (revert now publisher_id s).1
perform (invalidates target) s = (invalidate_for_network target s).1

unfoldable pub run : List Operation → WalletStore → WalletStore
unfolding perform
run [] s = s
run (op ∷ ops) s = run ops (perform op s)

-- Who binds or reverts is another publisher.
abbrev pub IsOfOthers : String → Operation → Type 0
IsOfOthers publisher_id (binds now hold_ms who address network) = same who publisher_id ≡ false
IsOfOthers publisher_id (reverts now who) = same who publisher_id ≡ false
IsOfOthers publisher_id (invalidates target) = Unit

-- Whether the bindings of a network are removed.
abbrev pub removes : Network → Operation → Bool
removes network (binds now hold_ms who address chosen) = false
removes network (reverts now who) = false
removes network (invalidates target) = not (same_network network target)

abbrev pub removes_any : Network → List Operation → Bool
removes_any network [] = false
removes_any network (op ∷ ops) = removes network op || removes_any network ops

-- Whether `invalidateForNetwork` removes a publisher's binding.
abbrev drops : Network → String → Map WalletBinding → Bool
drops target publisher_id [] = false
drops target publisher_id ((who, b) ∷ m) =
    (same who publisher_id && not (same_network b.network target)) || drops target publisher_id m

drops_unknown :
    (target : Network) (publisher_id : String) (m : Map WalletBinding)
    → get publisher_id m ≡ none
    → drops target publisher_id m ≡ false
unfolding get
drops_unknown target publisher_id [] h = refl
drops_unknown target publisher_id ((who, b) ∷ m) h = elim (Bool-cases (same who publisher_id)) [
  | inl e ↦ ground (arith, h, e)
  | inr e ↦ rw e (drops_unknown target publisher_id m (ground (arith, h, e)))
]

drops_known :
    (target : Network) (publisher_id : String) (m : Map WalletBinding) (b : WalletBinding)
    → Distinct m
    → get publisher_id m ≡ some b
    → drops target publisher_id m ≡ not (same_network b.network target)
unfolding get
drops_known target publisher_id [] b d h = cc
drops_known target publisher_id ((who, c) ∷ m) b d h = elim (Bool-cases (same who publisher_id)) [
  | inl e ↦
      let absent : get publisher_id m ≡ none =
        subst (λ i. get i m ≡ none) ((same_iff who publisher_id).0 e) d.0 in
      let first : c ≡ b = ground (arith, h, e) in
      rw (e, drops_unknown target publisher_id m absent, sym first) (ground arith)
  | inr e ↦ rw e (drops_known target publisher_id m b d.1 (ground (arith, h, e)))
]

get-invalidate_each :
    (target : Network) (publisher_id : String) (bs : Map WalletBinding) (n : ℕ) (s : WalletStore)
    → get publisher_id (invalidate_each target bs n s).1.by_publisher
      ≡ (if drops target publisher_id bs then none else get publisher_id s.by_publisher)
unfolding invalidate_each
get-invalidate_each target publisher_id [] n s = refl
get-invalidate_each target publisher_id ((who, b) ∷ bs) n s =
    elim (Bool-cases (same_network b.network target)) [
      | inl e ↦ rw e (get-invalidate_each target publisher_id bs n s ∙ ground arith)
      | inr e ↦ rw e (
          get-invalidate_each target publisher_id bs (n + 1) _
          ∙ rw (get-delete publisher_id who s.by_publisher) (ground arith))
    ]

invalidate_each-Distinct :
    (target : Network) (bs : Map WalletBinding) (n : ℕ) (s : WalletStore)
    → Distinct s.by_publisher
    → Distinct (invalidate_each target bs n s).1.by_publisher
unfolding invalidate_each
invalidate_each-Distinct target [] n s d = d
invalidate_each-Distinct target ((who, b) ∷ bs) n s d =
    elim (Bool-cases (same_network b.network target)) [
      | inl e ↦ rw e (invalidate_each-Distinct target bs n s d)
      | inr e ↦
          rw e (invalidate_each-Distinct target bs (n + 1) _ (delete-Distinct who s.by_publisher d))
    ]

-- What an operation of others leaves of a publisher's binding.
abbrev pub left_of : Operation → Option WalletBinding → Option WalletBinding
left_of op none = none
left_of op (some b) = if removes b.network op then none else some b

same_left :
    (op : Operation) (found : Option WalletBinding)
    → ((network : Network) → removes network op ≡ false)
    → left_of op found ≡ found
same_left op none h = refl
same_left op (some b) h = rw (h b.network) refl

get-bind :
    (now : ℕ) (hold_ms : Option ℕ) (who address : String) (network : Network)
    (publisher_id : String) (s : WalletStore)
    → same who publisher_id ≡ false
    → get publisher_id (bind now hold_ms who address network s).1.by_publisher
      ≡ get publisher_id s.by_publisher
unfolding bind
get-bind now hold_ms who address network publisher_id s other =
    get-set publisher_id who _ s.by_publisher ∙ rw other refl

-- `revert` changes no binding of another publisher, and keeps the keys distinct.
abbrev RevertsOnly : String → WalletStore → WalletStore → Type 0
RevertsOnly who s s1 =
    (Distinct s.by_publisher → Distinct s1.by_publisher)
    × ((publisher_id : String)
        → same who publisher_id ≡ false
        → get publisher_id s1.by_publisher ≡ get publisher_id s.by_publisher)

deleted-RevertsOnly :
    (who : String) (s : WalletStore) (addresses : Map String)
    → RevertsOnly who s
        (record { by_publisher = delete who s.by_publisher; by_address = addresses })
deleted-RevertsOnly who s addresses = (
  delete-Distinct who s.by_publisher,
  λ publisher_id other. get-delete publisher_id who s.by_publisher ∙ rw other refl,
)

revert_to-RevertsOnly :
    (previous : Option String) (now : ℕ) (who : String) (current : WalletBinding) (s : WalletStore)
    → RevertsOnly who s (revert_to previous now who current s).1
revert_to-RevertsOnly none now who current s =
    deleted-RevertsOnly who s (delete current.address s.by_address)
revert_to-RevertsOnly (some address) now who current s = elim (Bool-cases (same address "")) [
  | inl e ↦ rw e (deleted-RevertsOnly who s (delete current.address s.by_address))
  | inr e ↦ rw e (
    set-Distinct who _ s.by_publisher,
    λ publisher_id other. get-set publisher_id who _ s.by_publisher ∙ rw other refl,
  )
]

revert-RevertsOnly :
    (found : Option WalletBinding) (now : ℕ) (who : String) (s : WalletStore)
    → RevertsOnly who s (revert_found found now who s).1
revert-RevertsOnly none now who s = (λ d. d, λ publisher_id other. refl)
revert-RevertsOnly (some current) now who s =
    revert_to-RevertsOnly current.previous_address now who current s

pub perform-Distinct :
    (op : Operation) (s : WalletStore)
    → Distinct s.by_publisher
    → Distinct (perform op s).by_publisher
unfolding perform bind revert invalidate_for_network
perform-Distinct (binds now hold_ms who address network) s d = set-Distinct who _ s.by_publisher d
perform-Distinct (reverts now who) s d = (revert-RevertsOnly (get who s.by_publisher) now who s).0 d
perform-Distinct (invalidates target) s d = invalidate_each-Distinct target s.by_publisher 0 s d

dropped_left :
    (target : Network) (publisher_id : String) (m : Map WalletBinding)
    (found : Option WalletBinding)
    → Distinct m
    → get publisher_id m ≡ found
    → (if drops target publisher_id m then none else found) ≡ left_of (invalidates target) found
dropped_left target publisher_id m none d h = rw (drops_unknown target publisher_id m h) refl
dropped_left target publisher_id m (some b) d h = rw (drops_known target publisher_id m b d h) refl

pub perform_left :
    (op : Operation) (publisher_id : String) (s : WalletStore)
    → Distinct s.by_publisher
    → IsOfOthers publisher_id op
    → get publisher_id (perform op s).by_publisher ≡ left_of op (get publisher_id s.by_publisher)
unfolding perform revert invalidate_for_network
perform_left (binds now hold_ms who address network) publisher_id s d other =
    get-bind now hold_ms who address network publisher_id s other
    ∙ sym (
        same_left (binds now hold_ms who address network) (get publisher_id s.by_publisher)
          (λ n. refl))
perform_left (reverts now who) publisher_id s d other =
    (revert-RevertsOnly (get who s.by_publisher) now who s).1 publisher_id other
    ∙ sym (same_left (reverts now who) (get publisher_id s.by_publisher) (λ n. refl))
perform_left (invalidates target) publisher_id s d other =
    get-invalidate_each target publisher_id s.by_publisher 0 s
    ∙ dropped_left target publisher_id s.by_publisher (get publisher_id s.by_publisher) d refl
