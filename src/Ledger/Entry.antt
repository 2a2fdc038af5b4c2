-- ===== src/Ledger/Entry.antt =====
-- The rows of the ledger (ledger.ts). There is one asset, USDC, so a test on it always holds.
use dwell.Base.{
  ℕ, String, ◌≡◌, Bool, true, ◌&&◌, Option, List, [], ◌∷◌, ◌++◌, map, arith, same, ◌==◌,
  if◌then◌else◌,
}
use dwell.Base.Int.{ℤ, pos, ◌+ℤ◌, int_laws, parts_of_eq}

pub data EntryType : Type 0 where
  impression deposit payout_submit payout_settled reversal clawback : EntryType

pub data RefType : Type 0 where
  impression topup payout_batch reversal clawback : RefType

pub data Asset : Type 0 where
  usdc : Asset

pub record NewEntry : Type 0 where
  pub account_id : String
  pub amount : ℤ
  pub asset : Asset
  pub type : EntryType
  pub ref_type : RefType
  pub ref_id : String
  pub idempotency_key : String
  pub campaign_id : Option String
  pub publisher_id : Option String
  pub rate_stroops : Option ℤ

pub record Entry : Type 0 where
  pub row : NewEntry
  pub open row use *
  pub id : String
  pub created_at : ℕ

ref_code : RefType → ℕ
ref_code RefType.impression = 0
ref_code RefType.topup = 1
ref_code RefType.payout_batch = 2
ref_code RefType.reversal = 3
ref_code RefType.clawback = 4

-- `a === b` on reference types.
unfoldable pub same_ref_type : RefType → RefType → Bool
unfolding ref_code
same_ref_type a b = ref_code a == ref_code b

pub same_ref_type→≡ : (a b : RefType) → same_ref_type a b ≡ true → a ≡ b
unfolding same_ref_type
same_ref_type→≡ a b h = ground arith

pub same_ref_type_refl : (a : RefType) → same_ref_type a a ≡ true
unfolding same_ref_type
same_ref_type_refl a = ground arith

type_code : EntryType → ℕ
type_code EntryType.impression = 0
type_code EntryType.deposit = 1
type_code EntryType.payout_submit = 2
type_code EntryType.payout_settled = 3
type_code EntryType.reversal = 4
type_code EntryType.clawback = 5

-- `e.type === type`
unfoldable pub same_type : EntryType → EntryType → Bool
unfolding type_code
same_type a b = type_code a == type_code b

-- `e.refType === refType && e.refId === refId`
abbrev pub in_ref : RefType → String → NewEntry → Bool
in_ref ref_type ref_id e = same_ref_type e.ref_type ref_type && same e.ref_id ref_id

-- The rows behind a list of stored entries.
abbrev pub rows : List Entry → List NewEntry
rows = map λ e. e.row

-- The exact sum of the amounts of the rows that pass a test.
unfoldable pub tally : (NewEntry → Bool) → List NewEntry → ℤ
tally p [] = pos 0
tally p (e ∷ es) = (if p e then e.amount else pos 0) +ℤ tally p es

pub tally-append :
    (p : NewEntry → Bool) (xs ys : List NewEntry) → tally p (xs ++ ys) ≡ tally p xs +ℤ tally p ys
unfolding tally
tally-append p [] ys = omega int_laws
tally-append p (x ∷ xs) ys = omega (int_laws, parts_of_eq _ _ (tally-append p xs ys))

-- What an account holds.
abbrev pub held : String → List NewEntry → ℤ
held account = tally λ e. same e.account_id account

-- What a reference sums to.
abbrev pub ref_total : RefType → String → List NewEntry → ℤ
ref_total ref_type ref_id = tally (in_ref ref_type ref_id)
