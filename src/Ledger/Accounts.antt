-- ===== src/Ledger/Accounts.antt =====
-- packages/server/src/ledger/accounts.ts: account ids are texts, `kind:owner` or `kind`.
use Prim.Native.Char.{Char, code}
use dwell.Base.{
  String, Bool, true, false, Option, none, some, Result, ok, err, List, [], ◌∷◌, same, any, is_some,
  ◌==◌, if◌then◌else◌,
}
use dwell.Base.Text.{colon}
use dwell.Thrown.{Thrown, owner_has_colon}

pub data AccountKind : Type 0 where
  publisher advertiser platform_revenue payouts_in_flight external_cash external_settlement :
      AccountKind

unfoldable pub kind_name : AccountKind → String
kind_name publisher = "publisher"
kind_name advertiser = "advertiser"
kind_name platform_revenue = "platform_revenue"
kind_name payouts_in_flight = "payouts_in_flight"
kind_name external_cash = "external_cash"
kind_name external_settlement = "external_settlement"

is_colon : Char → Bool
is_colon c = code c == b':'

-- `id.slice(0, i)` and `id.slice(i + 1)` at the first colon; none where there is no colon.
unfoldable pub split_colon : String → Option (String × String)
unfolding is_colon
split_colon String.[] = none
split_colon (String.◌∷◌ c s) =
    let rest = split_colon s in
    if is_colon c
    then some (String.[], s)
    else elim rest [ none ↦ none | some (a, b) ↦ some (String.◌∷◌ c a, b) ]

-- `accountId(kind, owner)`
unfoldable pub owned_account : AccountKind → String → Result Thrown String
unfolding split_colon kind_name
owned_account kind owner =
    if is_some (split_colon owner) then err owner_has_colon else ok (colon (kind_name kind) owner)

-- `accountId(kind)`
unfoldable pub single_account : AccountKind → String
unfolding kind_name
single_account kind = kind_name kind

-- The kind is the text before the colon, read as an `AccountKind` unchecked.
unfoldable pub parse_account_id : String → String × Option String
unfolding split_colon
parse_account_id id = elim (split_colon id) [ none ↦ (id, none) | some (a, b) ↦ (a, some b) ]

unfoldable pub non_negative : List String
unfolding kind_name
non_negative =
    kind_name publisher
    ∷ kind_name advertiser
    ∷ kind_name payouts_in_flight
    ∷ kind_name platform_revenue
    ∷ []

-- `NON_NEGATIVE.includes(kind)`
unfoldable pub is_non_negative : String → Bool
unfolding non_negative
is_non_negative kind = any (λ k. same k kind) non_negative

-- `IS_EXTERNAL(kind)`
unfoldable pub is_external : AccountKind → Bool
is_external external_cash = true
is_external external_settlement = true
is_external _ = false
