-- ===== src/Wallets/Tests.antt =====
-- Runs of the wallets.
use dwell.Base.{String, List, false, ◌≢◌, same_iff, none, some, [], ◌∷◌, ◌≡◌, refl}
use mathlib.Core.Bool.{false≢true}
use dwell.Base.Map.{get, Distinct}
use dwell.Wallets.{Network, WalletBinding, WalletStore, bind, payout_block, open_way, revert}
use dwell.Wallets.Holds.{bind_again}
use dwell.Wallets.Histories.{Operation, run}
use dwell.Wallets.Waiting.{Waits, bind_holds}

abbrev binding : WalletBinding
binding = record {
  publisher_id = "pub-1";
  address = "GA";
  network = Network.pubnet;
  verified_at = 0;
  hold_until = none;
  previous_address = none;
}

abbrev one_wallet : WalletStore
one_wallet = record { by_publisher = ("pub-1", binding) ∷ []; by_address = ("GA", "pub-1") ∷ [] }

bound_wallet : get "pub-1" one_wallet.by_publisher ≡ some binding
unfolding get
bound_wallet = refl

-- Another publisher binds an address, and the bindings of the other network are removed.
abbrev meanwhile : List Operation
meanwhile =
    Operation.binds 1_100 none "pub-2" "GC" Network.pubnet
    ∷ Operation.invalidates Network.pubnet
    ∷ Operation.reverts 1_200 "pub-2"
    ∷ []

one_wallet-Distinct : Distinct one_wallet.by_publisher
unfolding get
one_wallet-Distinct = (refl, tt)

abbrev second : String
second = "GB"

other_address : binding.address ≢ second
other_address e = false≢true ((same_iff binding.address second).1 e)

bind_holds_example : Waits false 1_700 1_500 (
    payout_block 1_500 "pub-1"
      (run meanwhile (bind 1_000 (some 700) "pub-1" "GB" Network.pubnet one_wallet).1))
bind_holds_example =
    bind_holds 1_000 1_500 (some 700) "pub-1" "GB" Network.pubnet one_wallet binding meanwhile
      one_wallet-Distinct bound_wallet other_address (refl, (tt, (refl, tt)))

bind_again_example :
    (payout_block 1_200 "pub-1"
        (bind 1_100
          (some 700)
          "pub-1"
          "GB"
          Network.pubnet
          (bind 1_000 (some 700) "pub-1" "GB" Network.pubnet one_wallet).1).1
      ≡ open_way)
    × ((restored : WalletBinding) × ((revert 1_200 "pub-1"
            (bind 1_100
              (some 700)
              "pub-1"
              "GB"
              Network.pubnet
              (bind 1_000 (some 700) "pub-1" "GB" Network.pubnet one_wallet).1).1).0
          ≡ some restored)
        × (restored.address ≡ "GB"))
bind_again_example =
    bind_again 1_000 1_100 1_200 (some 700) "pub-1" "GB" Network.pubnet one_wallet refl
