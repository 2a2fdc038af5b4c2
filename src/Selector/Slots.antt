-- ===== src/Selector/Slots.antt =====
-- How the slots of a new tour are shared out.
use dwell.Base.{ℕ, List, if◌then◌else◌, String, same, keep, length}
use dwell.Base.Int.{ℤ}
use dwell.Selector.{Campaign, stage_slots}

-- How often an id stands in a tour.
abbrev pub times : String → List String → ℕ
times id ids = length (keep (λ x. same x id) ids)

-- The slots of the campaigns with an id.
abbrev pub slots_of : String → ℤ → Campaign → ℕ
slots_of id lowest c = if same c.id id then stage_slots c.bid_cpm lowest else 0
