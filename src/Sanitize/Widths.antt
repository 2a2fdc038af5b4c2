-- ===== src/Sanitize/Widths.antt =====
-- The width of what is rendered.
use Prim.Native.Char.{code}
use dwell.Base.{
  ℕ, ◌+◌, ◌-◌, ◌≤◌, max, String, true, ◌&&◌, ok, ◌>>◌, throw_if, >>=-eq-ok, ltb, leb, ◌==◌,
  if◌then◌else◌, ◌≡◌, refl, sym, ap, ◌∙◌, inl, inr, Bool-cases, arith,
}
use dwell.Base.Text.{cat, cat-nil, cat-cons}
use dwell.Selector.{Creative}
use dwell.Sanitize.{
  is_empty, is_space, normalize, char_width, display_width, trim_end, fitting, truncate,
}
use dwell.Sanitize.Lines.{
  LinkShape, AdLine, assert_clean, brand_limit, text_limit, glyph, sep, cta_sep, scheme, short_cta,
  fixed_width, fitted_cta, fitted_text, plain_line, render_ad_line, empty_brand, empty_text,
}

pub display_width-cat : (s t : String) → display_width (cat s t) ≡ display_width s + display_width t
unfolding display_width
display_width-cat String.[] t = ap display_width (cat-nil t) ∙ omega arith
display_width-cat (String.◌∷◌ c s) t =
    ap display_width (cat-cons c s t) ∙ omega (arith, display_width-cat s t)

trim_end_le : (s : String) → display_width (trim_end s) ≤ display_width s
unfolding display_width trim_end
trim_end_le String.[] = omega arith
trim_end_le (String.◌∷◌ c s) = elim (Bool-cases (is_empty (trim_end s) && is_space (code c))) [
  | inl e ↦ rw e (omega arith)
  | inr e ↦ rw e (omega (arith, trim_end_le s))
]

fitting_le :
    (most : ℕ) (out s : String)
    → display_width out ≤ most - 1
    → display_width (fitting most out s) ≤ most - 1
unfolding fitting
fitting_le most out String.[] h = h
fitting_le most out (String.◌∷◌ c s) h =
    let longer = cat out (String.◌∷◌ c "") in
    elim (Bool-cases (ltb (most - 1) (display_width longer))) [
      | inl e ↦ rw e h
      | inr e ↦ rw e (fitting_le most longer s (ground (arith, e)))
    ]

ellipsis_width : display_width "…" ≡ 1
unfolding display_width char_width
ellipsis_width = refl

empty_width : display_width "" ≡ 0
unfolding display_width
empty_width = refl

-- A text cut to a width is no wider.
pub truncate_le : (s : String) (most : ℕ) → display_width (truncate s most) ≤ most
unfolding truncate
truncate_le s most = elim (Bool-cases (most == 0)) [
  | inl e ↦ rw e (omega (arith, empty_width))
  | inr e ↦ rw e (elim (Bool-cases (leb (display_width s) most)) [
    | inl f ↦ rw f (ground (arith, f))
    | inr f ↦
        let fits = fitting_le most "" s (omega (arith, empty_width)) in
        let some_room : 1 ≤ most = ground (arith, e) in
        rw f (
          omega (
            arith,
            display_width-cat (trim_end (fitting most "" s)) "…",
            trim_end_le (fitting most "" s),
            fits,
            ellipsis_width,
            some_room,
          ))
  ])
]

constants : (display_width glyph ≡ 1) × (display_width " " ≡ 1) × (display_width sep ≡ 3)
unfolding display_width char_width
constants = (refl, refl, refl)

fixed_width_lem : (brand : String) → fixed_width brand ≡ display_width brand + 5
unfolding fixed_width
fixed_width_lem brand = omega (
  arith,
  constants.0,
  constants.1,
  constants.2,
  display_width-cat brand sep,
  display_width-cat " " (cat brand sep),
  display_width-cat glyph (cat " " (cat brand sep)),
)

-- The width of the tail with the address.
abbrev tail_width : String → ℕ
tail_width cta = if is_empty cta then 0 else display_width (cat cta_sep (cat scheme cta))

plain_line_width :
    (brand text cta : String)
    → display_width (plain_line brand text cta)
      ≡ fixed_width brand + display_width text + tail_width cta
unfolding plain_line
plain_line_width brand text cta =
    let tail = if is_empty cta then "" else cat cta_sep (cat scheme cta) in
    let w : display_width tail ≡ tail_width cta = elim (Bool-cases (is_empty cta)) [
      | inl e ↦ rw e empty_width
      | inr e ↦ rw e refl
    ] in
    omega (
      arith,
      w,
      fixed_width_lem brand,
      constants.0,
      constants.1,
      constants.2,
      display_width-cat text tail,
      display_width-cat sep (cat text tail),
      display_width-cat brand (cat sep (cat text tail)),
      display_width-cat " " (cat brand (cat sep (cat text tail))),
      display_width-cat glyph (cat " " (cat brand (cat sep (cat text tail)))),
    )

fitted_le :
    (budget : ℕ) (brand text cta : String)
    → display_width
        (plain_line brand (fitted_text budget brand text) (fitted_cta budget brand text cta))
      ≤ max budget (fixed_width brand + 3)
unfolding fitted_text fitted_cta
fitted_le budget brand text cta =
    elim (Bool-cases (ltb budget (fixed_width brand + display_width text))) [
      | inl e ↦
          let long : ltb budget (fixed_width brand + display_width text + tail_width cta) ≡ true =
            ground (arith, e) in
          let cut = truncate text (max 3 (budget - fixed_width brand)) in
          rw (e, long)
            (omega (
              arith,
              plain_line_width brand cut "",
              truncate_le text (max 3 (budget - fixed_width brand)),
            ))
      | inr e ↦
          rw e
            (elim (Bool-cases
              (ltb budget (fixed_width brand + display_width text + tail_width cta))) [
                | inl f ↦ rw f (ground (arith, e, plain_line_width brand text ""))
                | inr f ↦ rw f (ground (arith, f, plain_line_width brand text cta))
              ])
    ]

-- A line that is rendered tells its width, which is below the columns of the terminal, or at most
-- 28 on one that is narrower: whatever the advertiser writes, the line is not wrapped there.
pub render_ad_line_fits :
    (nfc : String → String) (creative : Creative) (columns : ℕ) (shape : LinkShape) {line : AdLine}
    → render_ad_line nfc creative columns shape ≡ ok line
    → (line.width ≡ display_width line.plain) × (line.width ≤ max 28 (columns - 1))
unfolding render_ad_line
render_ad_line_fits nfc creative columns shape {line} h =
    let brand = truncate (normalize nfc creative.brand) brand_limit in
    let text = truncate (normalize nfc creative.text) text_limit in
    let cta = short_cta nfc creative.cta in
    let budget = max 20 (columns - 1) in
    let (_, _, h1) =
      >>=-eq-ok
        (assert_clean creative
          >> throw_if (is_empty brand) empty_brand
          >> throw_if (is_empty text) empty_text)
        _ h in
    let it : display_width
          (plain_line brand (fitted_text budget brand text) (fitted_cta budget brand text cta))
        ≡ line.width =
      ground (arith, h1) in
    let shown : plain_line brand (fitted_text budget brand text) (fitted_cta budget brand text cta)
        ≡ line.plain =
      ground (arith, h1) in
    (
      sym it ∙ ap display_width shown,
      omega (
        arith,
        it,
        fitted_le budget brand text cta,
        fixed_width_lem brand,
        truncate_le (normalize nfc creative.brand) brand_limit,
      ),
    )
