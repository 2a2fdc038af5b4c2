-- ===== src/Pools.antt =====
-- packages/server/src/pools/pool-store.ts and reserve.ts: the pools of sponsors, their members, and
-- what is set aside for them.
-- The Unicode functions of texts are parameters: `upper` for upper case, `is_name` for the pattern
-- of a name. The reasons carry no text. Copies for the disk are not modelled.
pub mod Codes
pub mod Closing
pub mod Members
pub mod Reserve
pub mod Tests
use dwell.Base.{
  ℕ, zero, suc, ◌+◌, ◌*◌, String, Bool, true, false, not, ◌&&◌, ◌||◌, Option, none, some, List, [],
  ◌∷◌, Result, ok, err, ◌>>=◌, ◌>>◌, throw_if, keep, map, same, or_else, ltb, if◌then◌else◌,
}
use dwell.Base.Int.{ℤ, pos, pos_part, neg_part, sub_ℕ, ◌+ℤ◌, ◌-ℤ◌, ltb_ℤ}
use dwell.Base.Map.{Map, get, set, delete, has, values}
use dwell.Base.Text.{cat}
use dwell.Thrown.{Thrown}
use dwell.Money.{stroops}
use dwell.Selector.{Campaign, min_bid_cpm}
use dwell.Sanitize.{trim, is_empty}
use dwell.Campaigns.{for_pool}

pub data PoolStatus : Type 0 where
  opened closed : PoolStatus

abbrev pub is_open : PoolStatus → Bool
is_open opened = true
is_open closed = false

pub record Pool : Type 0 where
  pub id : String
  pub sponsor_id : String
  pub name : String
  pub code : String
  pub bid_cpm : ℤ
  pub budget : ℤ
  pub daily_cap_per_member : ℕ
  pub status : PoolStatus
  pub created_at : ℕ
  pub closed_at : Option ℕ

-- The reasons of `PoolResult`.
pub data Refusal : Type 0 where
  bad_name bid_too_low bad_cap budget_too_small no_code not_found is_closed no_open_pool : Refusal

abbrev pub default_daily_cap_per_member : ℕ
default_daily_cap_per_member = 200

abbrev pub max_daily_cap_per_member : ℕ
max_daily_cap_per_member = 2_000

pub record PoolStore : Type 0 where
  pub by_id : Map Pool
  pub by_code : Map String
  pub member_of : Map String

-- The Unicode functions, and what the clock and the generators answer in one call: `new_code n` is
-- the n-th code drawn.
pub record Env : Type 0 where
  pub now : ℕ
  pub upper : String → String
  pub is_name : String → Bool
  pub new_id : String
  pub new_code : ℕ → String

pub record PoolInput : Type 0 where
  pub sponsor_id : String
  pub name : String
  pub bid_cpm : ℤ
  pub budget : ℤ
  pub daily_cap_per_member : Option ℕ

abbrev pub pool_at : Option String → PoolStore → Option Pool
pool_at none s = none
pool_at (some id) s = get id s.by_id

-- `byCode`
unfoldable pub by_code : (String → String) → String → PoolStore → Option Pool
by_code upper code s = pool_at (get (upper (trim code)) s.by_code) s

unfoldable pub for_sponsor : String → PoolStore → List Pool
for_sponsor sponsor_id s = keep (λ (p : Pool). same p.sponsor_id sponsor_id) (values s.by_id)

-- The loop that draws codes: `n` rounds are left.
unfoldable pub allocate : ℕ → ℕ → (ℕ → String) → String → Map String → String
allocate zero i draw code codes = code
allocate (suc n) i draw code codes =
    let next = allocate n (suc i) draw (cat "HACK-" (draw i)) codes in
    if is_empty code || has code codes then next else code

-- `input.budget * 1000n < input.bidCpm`
abbrev pub is_small : ℤ → ℤ → Bool
is_small budget bid = ltb_ℤ (sub_ℕ (pos_part budget * 1_000) (neg_part budget * 1_000)) bid

-- `#index`
unfoldable pub index : Pool → PoolStore → PoolStore
index p s = record s { by_id = set p.id p s.by_id; by_code = set p.code p.id s.by_code }

-- The cap of a new pool.
abbrev pub cap_of : PoolInput → ℕ
cap_of input = or_else input.daily_cap_per_member default_daily_cap_per_member

abbrev pub new_pool : Env → PoolInput → String → Pool
new_pool env input code = record {
  id = cat "pool-" env.new_id;
  sponsor_id = input.sponsor_id;
  name = trim input.name;
  code = code;
  bid_cpm = input.bid_cpm;
  budget = input.budget;
  daily_cap_per_member = cap_of input;
  status = opened;
  created_at = env.now;
  closed_at = none;
}

-- The checks of `create`, that of the code last.
unfoldable pub check : Env → PoolInput → String → PoolStore → Result Refusal (Unit {0})
check env input code s =
    throw_if (not (env.is_name (trim input.name))) bad_name
    >> throw_if (ltb_ℤ input.bid_cpm min_bid_cpm) bid_too_low
    >> throw_if (ltb (cap_of input) 1 || ltb max_daily_cap_per_member (cap_of input)) bad_cap
    >> throw_if (is_small input.budget input.bid_cpm) budget_too_small
    >> throw_if (has code s.by_code) no_code

abbrev pub created : Result Refusal (Unit {0}) → Pool → PoolStore → Result Refusal Pool × PoolStore
created (err e) p s = (err e, s)
created (ok u) p s = (ok p, index p s)

unfoldable pub create : Env → PoolInput → PoolStore → Result Refusal Pool × PoolStore
unfolding allocate check index
create env input s =
    let code = allocate 5 0 env.new_code "" s.by_code in
    created (check env input code s) (new_pool env input code) s

-- `this.#byId.set(id, pool)`
abbrev pub put : String → Pool → PoolStore → PoolStore
put id p s = record s { by_id = set id p s.by_id }

abbrev pub closed_pool : ℕ → Pool → Pool
closed_pool now p = record p { status = closed; closed_at = some now }

abbrev pub close_found :
    Option Pool → ℕ → String → String → PoolStore → Result Refusal Pool × PoolStore
close_found none now id sponsor_id s = (err not_found, s)
close_found (some p) now id sponsor_id s =
    if not (same p.sponsor_id sponsor_id)
    then (err not_found, s)
    else if is_open p.status
    then (ok (closed_pool now p), put id (closed_pool now p) s)
    else (ok p, s)

unfoldable pub close : ℕ → String → String → PoolStore → Result Refusal Pool × PoolStore
close now id sponsor_id s = close_found (get id s.by_id) now id sponsor_id s

abbrev pub set_budget_found :
    Option Pool → String → String → ℤ → PoolStore → Result Refusal Pool × PoolStore
set_budget_found none id sponsor_id budget s = (err not_found, s)
set_budget_found (some p) id sponsor_id budget s =
    if not (same p.sponsor_id sponsor_id)
    then (err not_found, s)
    else if is_open p.status
    then (ok (record p { budget = budget }), put id (record p { budget = budget }) s)
    else (err is_closed, s)

unfoldable pub set_budget : String → String → ℤ → PoolStore → Result Refusal Pool × PoolStore
set_budget id sponsor_id budget s = set_budget_found (get id s.by_id) id sponsor_id budget s

unfoldable pub open_for_sponsor : String → PoolStore → List Pool
unfolding for_sponsor
open_for_sponsor sponsor_id s = keep (λ (p : Pool). is_open p.status) (for_sponsor sponsor_id s)

abbrev pub join_found : Option Pool → String → PoolStore → Result Refusal Pool × PoolStore
join_found none publisher_id s = (err no_open_pool, s)
join_found (some p) publisher_id s =
    if is_open p.status
    then (ok p, record s { member_of = set publisher_id p.id s.member_of })
    else (err no_open_pool, s)

unfoldable pub join :
    (String → String) → String → String → PoolStore → Result Refusal Pool × PoolStore
unfolding by_code
join upper code publisher_id s = join_found (by_code upper code s) publisher_id s

unfoldable pub leave : String → PoolStore → PoolStore
leave publisher_id s = record s { member_of = delete publisher_id s.member_of }

abbrev pub open_id : String → Option Pool → Option String
open_id id none = none
open_id id (some p) = if is_open p.status then some id else none

abbrev pub open_pool_at : Option String → PoolStore → Option String
open_pool_at none s = none
open_pool_at (some id) s = open_id id (get id s.by_id)

unfoldable pub pool_of : String → PoolStore → Option String
pool_of publisher_id s = open_pool_at (get publisher_id s.member_of) s

unfoldable pub membership : String → PoolStore → Option Pool
membership publisher_id s = pool_at (get publisher_id s.member_of) s

abbrev pub counted : String → List String → ℕ → ℕ
counted pool_id [] n = n
counted pool_id (id ∷ ids) n = counted pool_id ids (if same id pool_id then suc n else n)

unfoldable pub member_count : String → PoolStore → ℕ
member_count pool_id s = counted pool_id (values s.member_of) 0

-- reserve.ts: the campaigns of a pool, and what was spent on them, as `spentOn` tells.
unfoldable pub pool_campaign_ids : Map Campaign → String → List String
pool_campaign_ids campaigns pool_id = map (λ (c : Campaign). c.id) (for_pool pool_id campaigns)

unfoldable pub pool_spent : (List String → Result Thrown ℤ) → Map Campaign → Pool → Result Thrown ℤ
unfolding pool_campaign_ids
pool_spent spent_on campaigns p = spent_on (pool_campaign_ids campaigns p.id)

-- The loop of `poolReserve`.
unfoldable pub reserve_from : (Pool → Result Thrown ℤ) → ℤ → List Pool → Result Thrown ℤ
reserve_from spent acc [] = ok acc
reserve_from spent acc (p ∷ ps) = do
  used ← spent p
  let left = p.budget -ℤ used
  reserve_from spent (if ltb_ℤ (pos 0) left then acc +ℤ left else acc) ps

unfoldable pub pool_reserve :
    (List String → Result Thrown ℤ) → Map Campaign → String → PoolStore → Result Thrown ℤ
unfolding reserve_from pool_spent open_for_sponsor
pool_reserve spent_on campaigns sponsor_id s =
    reserve_from (pool_spent spent_on campaigns) (pos 0) (open_for_sponsor sponsor_id s)
    >>= λ reserved. stroops reserved
