-- ===== src/Wallets.antt =====
-- packages/payments/src/wallet.ts: which address a publisher is paid at.
-- The notices are values beside the state; copies for the disk are not modelled. The text of a
-- reason, with the hours left, is left out.
pub mod Holds
pub mod Histories
pub mod Waiting
pub mod Tests
use dwell.Base.{
  ℕ, ◌+◌, ◌*◌, String, Bool, true, false, not, ◌&&◌, Option, none, some, List, [], ◌∷◌, same,
  or_else, ltb, if◌then◌else◌,
}
use dwell.Base.Map.{Map, get, set, delete}

pub data Network : Type 0 where
  testnet pubnet : Network

abbrev pub same_network : Network → Network → Bool
same_network testnet testnet = true
same_network testnet pubnet = false
same_network pubnet testnet = false
same_network pubnet pubnet = true

pub record WalletBinding : Type 0 where
  pub publisher_id : String
  pub address : String
  pub network : Network
  pub verified_at : ℕ
  pub hold_until : Option ℕ
  pub previous_address : Option String

-- `PayoutBlock`
pub data PayoutBlock : Type 0 where
  open_way no_wallet : PayoutBlock
  on_hold : ℕ → PayoutBlock

pub data NoticeKind : Type 0 where
  first_binding address_changed : NoticeKind

pub record WalletChangeNotice : Type 0 where
  pub publisher_id : String
  pub previous_address : Option String
  pub new_address : String
  pub hold_until : ℕ
  pub kind : NoticeKind

-- 72 hours.
abbrev pub default_hold_ms : ℕ
default_hold_ms = 72 * 3_600_000

pub record WalletStore : Type 0 where
  pub by_publisher : Map WalletBinding
  pub by_address : Map String

abbrev pub is_other : String → Option String → Bool
is_other publisher_id none = false
is_other publisher_id (some owner) = not (same owner publisher_id)

unfoldable pub bound_to_other : String → String → WalletStore → Bool
bound_to_other address publisher_id s = is_other publisher_id (get address s.by_address)

abbrev pub has_changed : Option WalletBinding → String → Bool
has_changed none address = false
has_changed (some previous) address = not (same previous.address address)

abbrev pub address_of : Option WalletBinding → Option String
address_of none = none
address_of (some previous) = some previous.address

abbrev pub new_binding :
    ℕ → Option ℕ → Option WalletBinding → String → String → Network → WalletBinding
new_binding now hold_ms previous publisher_id address network = record {
  publisher_id = publisher_id;
  address = address;
  network = network;
  verified_at = now;
  hold_until =
      if has_changed previous address then some (now + or_else hold_ms default_hold_ms) else none;
  previous_address = address_of previous;
}

-- `if (previous && previous.address !== address) this.#byAddress.delete(previous.address)`
abbrev pub without_previous : Option WalletBinding → String → Map String → Map String
without_previous none address m = m
without_previous (some previous) address m =
    if same previous.address address then m else delete previous.address m

abbrev pub notice_of : ℕ → Bool → WalletBinding → WalletChangeNotice
notice_of now changed b = record {
  publisher_id = b.publisher_id;
  previous_address = b.previous_address;
  new_address = b.address;
  hold_until = or_else b.hold_until now;
  kind = if changed then address_changed else first_binding;
}

unfoldable pub bind :
    ℕ → Option ℕ → String → String → Network → WalletStore → WalletChangeNotice × WalletStore
bind now hold_ms publisher_id address network s =
    let previous = get publisher_id s.by_publisher in
    let binding = new_binding now hold_ms previous publisher_id address network in
    (
      notice_of now (has_changed previous address) binding,
      record {
        by_publisher = set publisher_id binding s.by_publisher;
        by_address = set address publisher_id (without_previous previous address s.by_address);
      },
    )

abbrev pub held : ℕ → Option ℕ → PayoutBlock
held now none = open_way
held now (some until) = if ltb now until then on_hold until else open_way

abbrev pub block_of : ℕ → Option WalletBinding → PayoutBlock
block_of now none = no_wallet
block_of now (some b) = held now b.hold_until

unfoldable pub payout_block : ℕ → String → WalletStore → PayoutBlock
payout_block now publisher_id s = block_of now (get publisher_id s.by_publisher)

abbrev pub restored_binding : ℕ → String → WalletBinding → String → WalletBinding
restored_binding now publisher_id current address = record {
  publisher_id = publisher_id;
  address = address;
  network = current.network;
  verified_at = now;
  hold_until = none;
  previous_address = none;
}

-- `revert` of a binding; an empty previous address counts for none.
abbrev pub revert_to :
    Option String → ℕ → String → WalletBinding → WalletStore → Option WalletBinding × WalletStore
revert_to none now publisher_id current s = (
  none,
  record {
    by_publisher = delete publisher_id s.by_publisher;
    by_address = delete current.address s.by_address;
  },
)
revert_to (some address) now publisher_id current s =
    let restored = restored_binding now publisher_id current address in
    if same address ""
    then (
      none,
      record {
        by_publisher = delete publisher_id s.by_publisher;
        by_address = delete current.address s.by_address;
      },
    )
    else (
      some restored,
      record {
        by_publisher = set publisher_id restored s.by_publisher;
        by_address = set address publisher_id (delete current.address s.by_address);
      },
    )

abbrev pub revert_found :
    Option WalletBinding → ℕ → String → WalletStore → Option WalletBinding × WalletStore
revert_found none now publisher_id s = (none, s)
revert_found (some current) now publisher_id s =
    revert_to current.previous_address now publisher_id current s

unfoldable pub revert : ℕ → String → WalletStore → Option WalletBinding × WalletStore
revert now publisher_id s = revert_found (get publisher_id s.by_publisher) now publisher_id s

-- The loop of `invalidateForNetwork`, over the bindings that were there at its start.
unfoldable pub invalidate_each :
    Network → List (String × WalletBinding) → ℕ → WalletStore → ℕ × WalletStore
invalidate_each target [] n s = (n, s)
invalidate_each target ((publisher_id, b) ∷ bs) n s =
    let kept = invalidate_each target bs n s in
    let dropped = invalidate_each target bs (n + 1) (record {
      by_publisher = delete publisher_id s.by_publisher;
      by_address = delete b.address s.by_address;
    }) in
    if same_network b.network target then kept else dropped

unfoldable pub invalidate_for_network : Network → WalletStore → ℕ × WalletStore
unfolding invalidate_each
invalidate_for_network target s = invalidate_each target s.by_publisher 0 s
