-- ===== src/Wallets/Holds.antt =====
-- A second binding of an address, within the waiting time of the first.
use dwell.Base.{ℕ, String, false, Option, some, same, same_refl, ◌≡◌, refl, ap, ◌∙◌}
use dwell.Base.Map.{get, get-set}
use dwell.Wallets.{
  Network, WalletBinding, open_way, WalletStore, new_binding, bind, block_of, payout_block, revert,
  revert_found, restored_binding,
}

pub bound :
    (now : ℕ) (hold_ms : Option ℕ) (publisher_id address : String) (network : Network)
    (s : WalletStore)
    → get publisher_id (bind now hold_ms publisher_id address network s).1.by_publisher
      ≡ some
          (new_binding now hold_ms (get publisher_id s.by_publisher) publisher_id address network)
unfolding bind
bound now hold_ms publisher_id address network s =
    get-set publisher_id publisher_id _ s.by_publisher ∙ rw (same_refl publisher_id) refl

-- An address that is bound a second time is paid at once, even within the waiting time that its first
-- binding started; and undoing the change then gives the same address again.
pub bind_again :
    (now again later : ℕ) (hold_ms : Option ℕ) (publisher_id address : String) (network : Network)
    (s : WalletStore)
    → same address "" ≡ false
    → (payout_block later publisher_id
          (bind again hold_ms publisher_id address network
            (bind now hold_ms publisher_id address network s).1).1
        ≡ open_way)
      × ((restored : WalletBinding) × ((revert later publisher_id
              (bind again hold_ms publisher_id address network
                (bind now hold_ms publisher_id address network s).1).1).0
            ≡ some restored)
          × (restored.address ≡ address))
unfolding payout_block revert
bind_again now again later hold_ms publisher_id address network s named =
    let s1 = (bind now hold_ms publisher_id address network s).1 in
    let s2 = (bind again hold_ms publisher_id address network s1).1 in
    let first =
      new_binding now hold_ms (get publisher_id s.by_publisher) publisher_id address network in
    let at_first : get publisher_id s1.by_publisher ≡ some first =
      bound now hold_ms publisher_id address network s in
    let at_second : get publisher_id s2.by_publisher
        ≡ some (new_binding again hold_ms (some first) publisher_id address network) =
      bound again hold_ms publisher_id address network s1
      ∙ ap (λ p. some (new_binding again hold_ms p publisher_id address network)) at_first in
    (
      ap (block_of later) at_second ∙ rw (same_refl address) refl,
      (
        restored_binding later publisher_id
            (new_binding again hold_ms (some first) publisher_id address network) address,
        ap (λ b. (revert_found b later publisher_id s2).0) at_second ∙ rw named refl,
        refl,
      ),
    )
