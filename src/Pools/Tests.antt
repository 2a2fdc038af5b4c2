-- ===== src/Pools/Tests.antt =====
-- Runs of the pool store.
use dwell.Base.{
  ℕ, String, Bool, true, false, Option, none, some, List, [], ◌∷◌, Result, ok, ◌≡◌, refl, same, ltb,
  if◌then◌else◌, arith,
}
use dwell.Base.Int.{ℤ, pos, ◌≤ℤ◌}
use dwell.Base.Map.{Map, get, set}
use dwell.Base.Text.{cat}
use dwell.Pools.{
  Pool, PoolStatus, PoolStore, Env, PoolInput, create, close, set_budget, join, pool_of,
  pool_reserve, pool_spent, open_for_sponsor,
}
use dwell.Pools.Codes.{Operation, perform, IsIndexed, perform-IsIndexed}
use dwell.Pools.Closing.{Lasts, perform-Lasts}
use dwell.Pools.Members.{Answers, operations-Answers, join_lem}
use dwell.Pools.Reserve.{IsLeftOf, pool_reserve_covers}

abbrev hack : Pool
hack = record {
  id = "pool-1";
  sponsor_id = "fund";
  name = "Hackathon";
  code = "HACK-7F3A2C";
  bid_cpm = pos 1_000_000;
  budget = pos 50_000;
  daily_cap_per_member = 200;
  status = PoolStatus.opened;
  created_at = 1_000;
  closed_at = none;
}

abbrev one_pool : PoolStore
one_pool = record {
  by_id = ("pool-1", hack) ∷ [];
  by_code = ("HACK-7F3A2C", "pool-1") ∷ [];
  member_of = ("ann", "pool-0") ∷ [];
}

-- The first two codes that are drawn are in use.
abbrev env : Env
env = record {
  now = 2_000;
  upper = λ s. s;
  is_name = λ s. true;
  new_id = "2";
  new_code = λ n. if ltb n 2 then "7F3A2C" else "000001";
}

abbrev input : PoolInput
input = record {
  sponsor_id = "fund";
  name = "Second";
  bid_cpm = pos 2_000_000;
  budget = pos 2_000;
  daily_cap_per_member = none;
}

indexed : IsIndexed one_pool
unfolding get
indexed = ((refl, refl), tt)

second_code : get "HACK-000001" (create env input one_pool).1.by_code ≡ some "pool-2"
unfolding create dwell.Pools.allocate dwell.Pools.check dwell.Pools.index cat get set
    dwell.Sanitize.trim dwell.Sanitize.trim_start dwell.Sanitize.trim_end dwell.Sanitize.is_space
    dwell.Sanitize.is_odd_space
second_code = refl

perform-IsIndexed_example : IsIndexed (perform (Operation.creates env input) one_pool)
perform-IsIndexed_example = perform-IsIndexed (Operation.creates env input) one_pool indexed

hack_there : get "pool-1" one_pool.by_id ≡ some hack
unfolding get
hack_there = refl

perform-Lasts_example :
    Lasts "pool-1" hack (perform (Operation.closes 9_000 "pool-1" "fund") one_pool)
perform-Lasts_example =
    perform-Lasts (Operation.closes 9_000 "pool-1" "fund") one_pool "pool-1" hack tt hack_there

operations-Answers_example :
    Answers one_pool (create env input one_pool)
    × Answers one_pool (close 9_000 "pool-1" "fund" one_pool)
    × Answers one_pool (set_budget "pool-1" "fund" (pos 1) one_pool)
    × Answers one_pool (join (λ s. s) "HACK-7F3A2C" "bob" one_pool)
operations-Answers_example =
    operations-Answers env input 9_000 "pool-1" "fund" (pos 1) (λ s. s) "HACK-7F3A2C" "bob" one_pool
      indexed

abbrev joined : PoolStore
joined = record one_pool { member_of = ("ann", "pool-1") ∷ [] }

join_ann : join (λ s. s) " HACK-7F3A2C" "ann" one_pool ≡ (ok hack, joined)
unfolding join dwell.Pools.by_code get set dwell.Sanitize.trim dwell.Sanitize.trim_start
    dwell.Sanitize.trim_end dwell.Sanitize.is_space dwell.Sanitize.is_odd_space
join_ann = refl

join_lem_example :
    pool_of "ann" joined ≡ (if same "ann" "ann" then some hack.id else pool_of "ann" one_pool)
join_lem_example = join_lem (λ s. s) " HACK-7F3A2C" "ann" "ann" one_pool indexed join_ann

reserve_fund : pool_reserve (λ ids. ok (pos 20_000)) [] "fund" one_pool ≡ ok (pos 30_000)
unfolding pool_reserve dwell.Pools.reserve_from pool_spent open_for_sponsor dwell.Pools.for_sponsor
    dwell.Base.Map.values dwell.Base.Int.◌-ℤ◌ dwell.Base.Int.◌+ℤ◌ dwell.Money.stroops
reserve_fund = refl

pool_reserve_covers_example :
    (pos 0 ≤ℤ pos 30_000)
    × IsLeftOf
        (pool_spent (λ ids. ok (pos 20_000)) [])
        (open_for_sponsor "fund" one_pool)
        (pos 30_000)
pool_reserve_covers_example =
    pool_reserve_covers (λ ids. ok (pos 20_000)) [] "fund" one_pool reserve_fund
