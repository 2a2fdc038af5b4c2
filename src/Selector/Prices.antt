-- ===== src/Selector/Prices.antt =====
-- The price of a chosen campaign: second price, reserve and own bid.
use dwell.Base.{
  List, Option, none, some, ok, ◌≡◌, refl, sym, subst, ◌⊎◌, inl, inr, All-map, In, Bool-cases,
  or_else, >>=-eq-ok, arith,
}
use dwell.Base.Int.{ℤ, ◌≤ℤ◌, ltb_ℤ, ◌+ℤ◌, int_laws, parts_of_eq}
use dwell.Money.Checked.{stroops-eq-ok, add-eq-ok}
use dwell.Selector.{
  Campaign, min_bid_cpm, bid_increment_cpm, rival_of, second_price, clearing_price, max_ℤ, min_ℤ,
}
use dwell.Selector.Rivals.{IsRival, Outbids, rival_of-none, rival_of-some}

-- What a price of the open market satisfies.
pub record IsSecondPrice (reserve : ℤ) (chosen : Campaign) (es : List Campaign) (price : ℤ)
    : Type 0 where
  pub below_bid : price ≤ℤ chosen.bid_cpm
  pub above_reserve : (price ≡ chosen.bid_cpm) ⊎ (reserve ≤ℤ price)
  pub outbids : Outbids chosen price es
  pub tight :
      (price ≤ℤ reserve)
      ⊎ ((r : Campaign) × In r es × IsRival chosen r × (price ≤ℤ r.bid_cpm +ℤ bid_increment_cpm))

Outbids-le :
    (chosen : Campaign) (es : List Campaign) (p q : ℤ)
    → p ≤ℤ q
    → Outbids chosen p es
    → Outbids chosen q es
Outbids-le chosen es p q h o =
    All-map
      (λ c k. elim k [
        | inl e ↦ inl e
        | inr (inl e) ↦ inr (inl e)
        | inr (inr e) ↦ inr (inr (omega (arith, h, e)))
      ])
      es o

-- The lower of the bid and the higher of two floors.
between_floors :
    (second reserve bid : ℤ)
    → (min_ℤ (max_ℤ second reserve) bid ≤ℤ bid)
      × ((min_ℤ (max_ℤ second reserve) bid ≡ bid) ⊎ (reserve ≤ℤ min_ℤ (max_ℤ second reserve) bid))
      × ((min_ℤ (max_ℤ second reserve) bid ≤ℤ reserve)
          ⊎ (min_ℤ (max_ℤ second reserve) bid ≤ℤ second))
between_floors second reserve bid = elim (Bool-cases (ltb_ℤ reserve second)) [
  | inl e ↦ rw e (elim (Bool-cases (ltb_ℤ second bid)) [
    | inl f ↦ rw f (ground (arith, f), inr (ground (arith, e)), inr (omega arith))
    | inr f ↦ rw f (omega arith, inl refl, inr (ground (arith, f)))
  ])
  | inr e ↦ rw e (elim (Bool-cases (ltb_ℤ reserve bid)) [
    | inl f ↦ rw f (ground (arith, f), inr (omega arith), inl (omega arith))
    | inr f ↦ rw f (omega arith, inl refl, inl (ground (arith, f)))
  ])
]

above_second :
    (low second reserve bid : ℤ)
    → low ≤ℤ second
    → low ≤ℤ bid
    → low ≤ℤ min_ℤ (max_ℤ second reserve) bid
above_second low second reserve bid h k = elim (Bool-cases (ltb_ℤ reserve second)) [
  | inl e ↦ rw e (ground arith)
  | inr e ↦ rw e (ground arith)
]

second_price_lem :
    (reserve : ℤ) (chosen : Campaign) (es : List Campaign) (rival : Option Campaign) {second : ℤ}
    → rival_of chosen es ≡ rival
    → second_price rival reserve ≡ ok second
    → IsSecondPrice reserve chosen es (min_ℤ (max_ℤ second reserve) chosen.bid_cpm)
second_price_lem reserve chosen es none {second} alone e =
    let (below, above, tight) = between_floors second reserve chosen.bid_cpm in
    let it : reserve ≡ second = ground arith in
    record {
      below_bid = below;
      above_reserve = above;
      outbids = rival_of-none chosen es _ alone;
      tight = elim tight [ inl t ↦ inl t | inr t ↦ inl (omega (arith, t, parts_of_eq _ _ it)) ];
    }
second_price_lem reserve chosen es (some r) {second} found e =
    let (below, above, tight) = between_floors second reserve chosen.bid_cpm in
    let it : second ≡ r.bid_cpm +ℤ bid_increment_cpm =
      (add-eq-ok r.bid_cpm bid_increment_cpm e).0 in
    let (member, rival, highest) = rival_of-some chosen es found in
    record {
      below_bid = below;
      above_reserve = above;
      outbids =
          Outbids-le chosen es r.bid_cpm _
            (above_second r.bid_cpm second reserve chosen.bid_cpm
              (omega (int_laws, parts_of_eq _ _ it)) rival.1)
            highest;
      tight = elim tight [
        | inl t ↦ inl t
        | inr t ↦ inr (r, member, rival, omega (arith, t, parts_of_eq _ _ it))
      ];
    }

-- The price of the open market, where one is returned, is a second price: at most the bid, at least
-- the reserve or else the bid, not below another advertiser's bid up to the own, and no more than
-- the reserve or the increment above such a bid.
pub clearing_price-IsSecondPrice :
    (reserve_cpm : Option ℤ) (chosen : Campaign) (es : List Campaign) {price : ℤ}
    → clearing_price reserve_cpm chosen none es ≡ ok price
    → IsSecondPrice (or_else reserve_cpm min_bid_cpm) chosen es price
unfolding clearing_price
clearing_price-IsSecondPrice reserve_cpm chosen es {price} e =
    let reserve = or_else reserve_cpm min_bid_cpm in
    let (second, p, q) = >>=-eq-ok (second_price (rival_of chosen es) reserve) _ e in
    subst (IsSecondPrice reserve chosen es) (sym (stroops-eq-ok _ q).0)
      (second_price_lem reserve chosen es (rival_of chosen es) refl p)
