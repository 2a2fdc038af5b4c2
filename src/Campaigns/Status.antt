-- ===== src/Campaigns/Status.antt =====
-- `setStatus` on every branch.
use dwell.Base.{
  String, Option, none, some, same, same_iff, if◌then◌else◌, ◌≡◌, refl, subst, inl, inr, Bool-cases,
}
use dwell.Base.Map.{Map, get, get-set}
use dwell.Selector.{Campaign, CampaignStatus}
use dwell.Campaigns.{status_at, set_status}

-- What `setStatus` leaves of the campaign that it is called for.
abbrev pub with_status : Option Campaign → String → CampaignStatus → Option Campaign
with_status none advertiser_id status = none
with_status (some c) advertiser_id status =
    if same c.advertiser_id advertiser_id then some (record c { status = status }) else some c

status_at_lem :
    (found : Option Campaign) (id advertiser_id : String) (status : CampaignStatus) (j : String)
    (m : Map Campaign)
    → get id m ≡ found
    → get j (status_at found id advertiser_id status m).1
      ≡ (if same id j then with_status found advertiser_id status else get j m)
status_at_lem none id advertiser_id status j m e = elim (Bool-cases (same id j)) [
  | inl f ↦ rw f (subst (λ k. get k m ≡ none) ((same_iff id j).0 f) e)
  | inr f ↦ rw f refl
]
status_at_lem (some c) id advertiser_id status j m e =
    let changed : Campaign = record c { status = status } in
    elim (Bool-cases (same c.advertiser_id advertiser_id)) [
      | inl own ↦ rw own (get-set j id changed m)
      | inr other ↦ rw other (elim (Bool-cases (same id j)) [
        | inl f ↦ rw f (subst (λ k. get k m ≡ some c) ((same_iff id j).0 f) e)
        | inr f ↦ rw f refl
      ])
    ]

-- Whatever `setStatus` answers, the campaign of the id has the new status and is otherwise as it
-- was, if its advertiser is the caller; else it, and always every other campaign, is unchanged.
pub set_status_lem :
    (id advertiser_id : String) (status : CampaignStatus) (j : String) (m : Map Campaign)
    → get j (set_status id advertiser_id status m).1
      ≡ (if same id j then with_status (get id m) advertiser_id status else get j m)
unfolding set_status
set_status_lem id advertiser_id status j m =
    status_at_lem (get id m) id advertiser_id status j m refl
