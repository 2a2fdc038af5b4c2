-- ===== src/Wallets/Waiting.antt =====
-- The waiting time after a change of the address, over what happens to the store afterwards.
use dwell.Base.{
  ℕ, ◌+◌, ◌≤◌, ◌<◌, String, Bool, true, false, Option, none, some, List, [], ◌∷◌, same, same_iff,
  or_else, ltb, if◌then◌else◌, ◌≡◌, ◌≢◌, ◌⊎◌, inl, inr, refl, ap, ◌∙◌, Bool-cases, All, arith,
}
use dwell.Base.Map.{get, Distinct, set-Distinct}
use dwell.Wallets.{
  Network, WalletBinding, PayoutBlock, open_way, no_wallet, on_hold, held, WalletStore, new_binding,
  bind, block_of, payout_block, default_hold_ms,
}
use dwell.Wallets.Holds.{bound}
use dwell.Wallets.Histories.{
  Operation, perform, run, IsOfOthers, removes, removes_any, left_of, perform-Distinct,
  perform_left,
}

-- What operations of others leave of a publisher's binding.
abbrev left_of_all : List Operation → Option WalletBinding → Option WalletBinding
left_of_all ops none = none
left_of_all ops (some b) = if removes_any b.network ops then none else some b

left_of_more :
    (op : Operation) (ops : List Operation) (found : Option WalletBinding)
    → left_of_all ops (left_of op found) ≡ left_of_all (op ∷ ops) found
left_of_more op ops none = refl
left_of_more op ops (some b) = elim (Bool-cases (removes b.network op)) [
  | inl e ↦ rw e refl
  | inr e ↦ rw e refl
]

run_left :
    (ops : List Operation) (publisher_id : String) (s : WalletStore)
    → Distinct s.by_publisher
    → All (IsOfOthers publisher_id) ops
    → get publisher_id (run ops s).by_publisher ≡ left_of_all ops (get publisher_id s.by_publisher)
unfolding run
run_left [] publisher_id s d others = none_left (get publisher_id s.by_publisher)
  where
    none_left : (found : Option WalletBinding) → found ≡ left_of_all [] found
    none_left none = refl
    none_left (some b) = refl
run_left (op ∷ ops) publisher_id s d others =
    run_left ops publisher_id (perform op s) (perform-Distinct op s d) others.1
    ∙ ap (left_of_all ops) (perform_left op publisher_id s d others.0)
    ∙ left_of_more op ops (get publisher_id s.by_publisher)

-- What the payout job is told: that there is no wallet if the binding is gone, else to wait before
-- a time, and that the way is open from then on.
abbrev pub Waits : Bool → ℕ → ℕ → PayoutBlock → Type 0
Waits gone until later block =
    ((gone ≡ true) × (block ≡ no_wallet))
    ⊎ ((gone ≡ false)
        × (((later < until) × (block ≡ on_hold until)) ⊎ ((until ≤ later) × (block ≡ open_way))))

held_lem :
    (gone : Bool) (later until : ℕ) (b : WalletBinding)
    → b.hold_until ≡ some until
    → Waits gone until later (block_of later (if gone then none else some b))
held_lem true later until b h = inl (refl, refl)
held_lem false later until b h = elim (Bool-cases (ltb later until)) [
  | inl e ↦ inr (refl, inl (ground (arith, e), ap (held later) h ∙ rw e refl))
  | inr e ↦ inr (refl, inr (ground (arith, e), ap (held later) h ∙ rw e refl))
]

-- After a publisher changed the address, and whatever happened to the store since, as long as the
-- publisher did not bind or revert: before the waiting time is over the payout is blocked until its
-- end, and from then on it is allowed; if the bindings of the network were removed meanwhile, there
-- is no wallet. The publishers of the store are distinct.
pub bind_holds :
    (now later : ℕ) (hold_ms : Option ℕ) (publisher_id address : String) (network : Network)
    (s : WalletStore) (previous : WalletBinding) (ops : List Operation)
    → Distinct s.by_publisher
    → get publisher_id s.by_publisher ≡ some previous
    → previous.address ≢ address
    → All (IsOfOthers publisher_id) ops
    → Waits (removes_any network ops) (now + or_else hold_ms default_hold_ms) later (
        payout_block later publisher_id
          (run ops (bind now hold_ms publisher_id address network s).1))
unfolding payout_block
bind_holds now later hold_ms publisher_id address network s previous ops d known changed others =
    let s1 = (bind now hold_ms publisher_id address network s).1 in
    let b = new_binding now hold_ms (some previous) publisher_id address network in
    let other : same previous.address address ≡ false =
      elim (Bool-cases (same previous.address address)) [
        | inl e ↦ absurd (changed ((same_iff previous.address address).0 e))
        | inr e ↦ e
      ] in
    let distinct : Distinct s1.by_publisher =
      unfold bind in set-Distinct publisher_id _ s.by_publisher d in
    let at_first : get publisher_id s1.by_publisher ≡ some b =
      bound now hold_ms publisher_id address network s
      ∙ ap (λ p. some (new_binding now hold_ms p publisher_id address network)) known in
    let after = run_left ops publisher_id s1 distinct others ∙ ap (left_of_all ops) at_first in
    let until = now + or_else hold_ms default_hold_ms in
    let waits : b.hold_until ≡ some until = rw other refl in
    rw after (held_lem (removes_any network ops) later until b waits)
