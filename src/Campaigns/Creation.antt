-- ===== src/Campaigns/Creation.antt =====
-- What a created campaign is.
use dwell.Base.{
  ℕ, ◌≤◌, String, Bool, true, false, Option, none, some, Result, ok, err, ◌>>◌, throw_if, >>=-eq-ok,
  ltb, ◌≡◌, refl, arith,
}
use dwell.Base.Int.{ℤ, pos, ◌≤ℤ◌}
use dwell.Base.Map.{Map}
use dwell.Money.{rate_from_cpm}
use dwell.Selector.{Campaign, CampaignStatus, Creative, min_bid_cpm}
use dwell.Sanitize.{trim, is_empty}
use dwell.Sanitize.Clean.{IsClean, assert_clean-eq-ok}
use dwell.Sanitize.Lines.{assert_clean, is_safe_domain, SanitizeError}
use dwell.Campaigns.{
  CampaignInput, Refusal, no_brand, no_text, no_cta, line_too_long, max_line_length, utf16_length,
  visible_line, stored_creative, cleaned, validate_creative,
}

-- A creative that fits a line of 80 and leads where it says.
pub record IsHonest (brand text cta : String) : Type 0 where
  pub has_brand : is_empty brand ≡ false
  pub has_text : is_empty text ≡ false
  pub brand_clean : IsClean brand
  pub text_clean : IsClean text
  pub cta_clean : IsClean cta
  pub fits : utf16_length (visible_line brand text cta) ≤ 80
  pub domain : is_safe_domain cta ≡ true

cleaned-eq-ok : (r : Result SanitizeError (Unit {0})) {u : Unit {0}} → cleaned r ≡ ok u → r ≡ ok tt
cleaned-eq-ok (ok u) h = refl
cleaned-eq-ok (err e) h = cc

throw_if-eq-ok : (b : Bool) (e : Refusal) {u : Unit {0}} → throw_if b e ≡ ok u → b ≡ false
throw_if-eq-ok true e h = cc
throw_if-eq-ok false e h = refl

pub validate_creative-IsHonest :
    (lower : String → String) (brand text cta : String) {u : Unit {0}}
    → validate_creative lower brand text cta ≡ ok u
    → IsHonest (trim brand) (trim text) (lower (trim cta))
unfolding validate_creative
validate_creative-IsHonest lower brand_in text_in cta_in h =
    let brand = trim brand_in in
    let text = trim text_in in
    let cta = lower (trim cta_in) in
    let creative : Creative = record { brand = brand; text = text; cta = some cta } in
    let m1 = throw_if (is_empty brand) no_brand in
    let m2 = m1 >> throw_if (is_empty text) no_text in
    let m3 = m2 >> throw_if (is_empty cta) no_cta in
    let m4 = m3 >> cleaned (assert_clean creative) in
    let m5 =
      m4
      >> throw_if (ltb max_line_length (utf16_length (visible_line brand text cta)))
          line_too_long in
    let (_, h5, domain) = >>=-eq-ok m5 _ h in
    let (_, h4, fits) = >>=-eq-ok m4 _ h5 in
    let (_, h3, clean) = >>=-eq-ok m3 _ h4 in
    let (_, h2, _) = >>=-eq-ok m2 _ h3 in
    let (_, h1, has_text) = >>=-eq-ok m1 _ h2 in
    let (b, t, c) = assert_clean-eq-ok creative (cleaned-eq-ok (assert_clean creative) clean) in
    record {
      has_brand = throw_if-eq-ok _ _ h1;
      has_text = throw_if-eq-ok _ _ has_text;
      brand_clean = b;
      text_clean = t;
      cta_clean = c;
      fits = ground (arith, throw_if-eq-ok _ _ fits);
      domain = ground (arith, throw_if-eq-ok _ _ domain);
    }

-- The blocks that were bought, where a number was given.
abbrev pub AreBlocks : Option ℕ → Type 0
AreBlocks none = Unit
AreBlocks (some blocks) = (1 ≤ blocks) × (blocks ≤ 10_000)

-- A daily budget pays for one impression of the bid.
abbrev pub PaysForOne : Option ℤ → ℤ → Type 0
PaysForOne none bid = Unit
PaysForOne (some budget) bid = (rate : ℤ) × (rate_from_cpm bid ≡ ok rate) × (rate ≤ℤ budget)

-- What a campaign of an input is.
pub record IsSound (lower : String → String) (input : CampaignInput) (c : Campaign) : Type 0 where
  pub starts_paused : c.status ≡ CampaignStatus.paused
  pub of_advertiser : c.advertiser_id ≡ input.advertiser_id
  pub fixed_share : c.rev_share_bps ≡ pos 5000
  pub creative_kept : c.creative ≡ stored_creative lower input.brand input.text input.cta
  pub honest : IsHonest (trim input.brand) (trim input.text) (lower (trim input.cta))
  pub bid_kept : c.bid_cpm ≡ input.bid_cpm
  pub bid_enough : min_bid_cpm ≤ℤ input.bid_cpm
  pub budget_pays : PaysForOne input.daily_budget input.bid_cpm
  pub blocks_bought : AreBlocks input.blocks
