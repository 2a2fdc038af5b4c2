-- ===== src/Selector/Rivals.antt =====
-- The rival of a chosen campaign: the search in the sorted bids.
use dwell.Base.{
  Bool, true, false, List, [], ◌∷◌, none, some, ◌≡◌, subst, ◌⊎◌, inl, inr, find, All, All-map,
  All-In, In, Bool-cases, if◌then◌else◌, same, same_iff, arith,
}
use dwell.Base.Int.{ℤ, ◌≤ℤ◌, ◌<ℤ◌, leb_ℤ}
use dwell.Base.Sort.{insert_by, sort_by, sort-All, All-sort}
use dwell.Selector.{Campaign, by_bid, rival_of}

-- Another advertiser's campaign that does not bid above the chosen one.
abbrev pub IsRival : Campaign → Campaign → Type 0
IsRival chosen c =
    (same c.advertiser_id chosen.advertiser_id ≡ false) × (c.bid_cpm ≤ℤ chosen.bid_cpm)

abbrev pub Descending : List Campaign → Type 0
Descending [] = Unit
Descending (c ∷ cs) = All (λ (e : Campaign). e.bid_cpm ≤ℤ c.bid_cpm) cs × Descending cs

-- Any comparison that puts a higher bid first.
module _ (before : Campaign → Campaign → Bool)
    (first : (x y : Campaign) → before x y ≡ true → y.bid_cpm ≤ℤ x.bid_cpm)
    (later : (x y : Campaign) → before x y ≡ false → x.bid_cpm ≤ℤ y.bid_cpm) where
  insert-All_le :
      (c x : Campaign) (ys : List Campaign)
      → x.bid_cpm ≤ℤ c.bid_cpm
      → All (λ (e : Campaign). e.bid_cpm ≤ℤ c.bid_cpm) ys
      → All (λ (e : Campaign). e.bid_cpm ≤ℤ c.bid_cpm) (insert_by before x ys)
  unfolding insert_by
  insert-All_le c x [] p h = (p, tt)
  insert-All_le c x (y ∷ ys) p h = ground (arith, insert-All_le c x ys p h.1)

  insert-Descending :
      (x : Campaign) (ys : List Campaign) → Descending ys → Descending (insert_by before x ys)
  unfolding insert_by
  insert-Descending x [] h = (tt, tt)
  insert-Descending x (y ∷ ys) h = elim (Bool-cases (before y x)) [
    | inl e ↦ rw e (insert-All_le y x ys (first y x e) h.0, insert-Descending x ys h.1)
    | inr e ↦
        let le : y.bid_cpm ≤ℤ x.bid_cpm = later y x e in
        rw e (
          (
            le,
            All-map (λ (z : Campaign) (k : z.bid_cpm ≤ℤ y.bid_cpm). omega (arith, k, le)) ys h.0,
          ),
          h,
        )
  ]

  pub sort-Descending : (cs : List Campaign) → Descending (sort_by before cs)
  unfolding sort_by
  sort-Descending [] = tt
  sort-Descending (c ∷ cs) = insert-Descending c (sort_by before cs) (sort-Descending cs)

by_bid_first : (x y : Campaign) → by_bid x y ≡ true → y.bid_cpm ≤ℤ x.bid_cpm
by_bid_first x y h = ground (arith, h)

by_bid_later : (x y : Campaign) → by_bid x y ≡ false → x.bid_cpm ≤ℤ y.bid_cpm
by_bid_later x y h = ground (arith, h)

module _ (test : Campaign → Bool) where
  find-All :
      (P : Campaign → Type 0) (cs : List Campaign) {r : Campaign}
      → All P cs
      → find test cs ≡ some r
      → P r × (test r ≡ true)
  find-All P [] h e = absurd (let z : none ≡ some _ = e in cc)
  find-All P (c ∷ cs) {r} h e = elim (Bool-cases (test c)) [
    | inl yes_it ↦
        let it : c ≡ r = let k = rw yes_it at e in ground (arith, k) in
        subst (λ z. P z × (test z ≡ true)) it (h.0, yes_it)
    | inr not_it ↦ find-All P cs h.1 (rw not_it at e)
  ]

  find-highest :
      (cs : List Campaign) {r : Campaign}
      → Descending cs
      → find test cs ≡ some r
      → All (λ (c : Campaign). test c ≡ true → c.bid_cpm ≤ℤ r.bid_cpm) cs
  find-highest [] h e = tt
  find-highest (c ∷ cs) {r} h e = elim (Bool-cases (test c)) [
    | inl yes_it ↦
        let it : c ≡ r = let k = rw yes_it at e in ground (arith, k) in
        subst
          (λ (z : Campaign).
            All (λ (x : Campaign). test x ≡ true → x.bid_cpm ≤ℤ z.bid_cpm) (c ∷ cs))
          it
          (
            (λ k. omega arith),
            All-map {Q = λ (x : Campaign). test x ≡ true → x.bid_cpm ≤ℤ c.bid_cpm} (λ x k t. k) cs
                h.0,
          )
    | inr not_it ↦
        let rest : find test cs ≡ some r = rw not_it at e in
        ((λ t. absurd (cc)), find-highest cs h.1 rest)
  ]

  find-nothing :
      (cs : List Campaign) → find test cs ≡ none → All (λ (c : Campaign). test c ≡ false) cs
  find-nothing [] e = tt
  find-nothing (c ∷ cs) e = elim (Bool-cases (test c)) [
    | inl yes_it ↦ absurd (let k = rw yes_it at e in cc)
    | inr not_it ↦ (not_it, find-nothing cs (rw not_it at e))
  ]

-- Every campaign is of the same advertiser, or bids above the chosen one, or is below the price.
abbrev pub Outbids : Campaign → ℤ → List Campaign → Type 0
Outbids chosen price es =
    All
      (λ (c : Campaign).
        (c.advertiser_id ≡ chosen.advertiser_id)
        ⊎ (chosen.bid_cpm <ℤ c.bid_cpm)
        ⊎ (c.bid_cpm ≤ℤ price))
      es

outbids_one :
    (chosen c : Campaign) (price : ℤ)
    → (if same c.advertiser_id chosen.advertiser_id then false else leb_ℤ c.bid_cpm chosen.bid_cpm)
      ≡ false
    → (c.advertiser_id ≡ chosen.advertiser_id)
      ⊎ (chosen.bid_cpm <ℤ c.bid_cpm)
      ⊎ (c.bid_cpm ≤ℤ price)
outbids_one chosen c price h = elim (Bool-cases (same c.advertiser_id chosen.advertiser_id)) [
  | inl e ↦ inl ((same_iff c.advertiser_id chosen.advertiser_id).0 e)
  | inr e ↦ let k = rw e at h in inr (inl (ground (arith, k)))
]

-- Where there is no rival, nobody else bids up to the chosen bid.
pub rival_of-none :
    (chosen : Campaign) (es : List Campaign) (price : ℤ)
    → rival_of chosen es ≡ none
    → Outbids chosen price es
unfolding rival_of
rival_of-none chosen es price e =
    All-map {Q = λ (c : Campaign). _} (λ c k. outbids_one chosen c price k) es
      (All-sort _ by_bid es (find-nothing _ (sort_by by_bid es) e))

-- A rival is another advertiser's eligible campaign, and the highest up to the chosen bid.
pub rival_of-some :
    (chosen : Campaign) (es : List Campaign) {r : Campaign}
    → rival_of chosen es ≡ some r
    → In r es × IsRival chosen r × Outbids chosen r.bid_cpm es
unfolding rival_of
rival_of-some chosen es {r} e =
    let (member, holds) =
      find-All _ (λ c. In c es) (sort_by by_bid es) (sort-All (λ c. In c es) by_bid es (All-In es))
        e in
    let highest =
      find-highest _ (sort_by by_bid es) (sort-Descending by_bid by_bid_first by_bid_later es) e in
    (
      member,
      ground (arith, holds),
      All-map
          (λ c k.
            elim (Bool-cases (
              if same c.advertiser_id chosen.advertiser_id
              then false
              else leb_ℤ c.bid_cpm chosen.bid_cpm)) [
                | inl rival ↦ inr (inr (k rival))
                | inr other ↦ outbids_one chosen c r.bid_cpm other
              ])
          es (All-sort _ by_bid es highest),
    )
