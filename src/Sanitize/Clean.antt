-- ===== src/Sanitize/Clean.antt =====
-- The characters of a rendered creative: its fields and its plain line.
use Prim.Native.Char.{Char, code}
use dwell.Base.{
  ℕ, ◌-◌, max, String, Bool, true, false, ◌&&◌, Option, none, some, ok, ◌>>◌, throw_if, >>=-eq-ok,
  ltb, leb, ◌==◌, if◌then◌else◌, ◌≡◌, refl, subst, ap, ◌∙◌, inl, inr, Bool-cases, arith,
}
use dwell.Base.Text.{cat, cat-nil, cat-cons}
use dwell.Selector.{Creative}
use dwell.Sanitize.{
  is_dangerous, is_odd_space, is_space, is_empty, even_spaces, one_space, trim_start, trim_end,
  trim, normalize, has_unsafe_chars, display_width, fitting, truncate,
}
use dwell.Sanitize.Lines.{
  LinkShape, AdLine, assert_clean, is_unsafe, brand_limit, text_limit, cta_limit, glyph, sep,
  cta_sep, scheme, short_cta, fitted_cta, fitted_text, plain_line, render_ad_line, empty_brand,
  empty_text,
}

-- A text without dangerous characters.
abbrev pub IsClean : String → Type 0
IsClean s = has_unsafe_chars s ≡ false

IsClean-parts :
    (c : Char) (s : String) → IsClean (String.◌∷◌ c s) → (is_dangerous (code c) ≡ false) × IsClean s
unfolding has_unsafe_chars
IsClean-parts c s h = elim (Bool-cases (is_dangerous (code c))) [
  | inl e ↦ absurd (let k = rw e at h in cc)
  | inr e ↦ (e, rw e at h)
]

cons-IsClean :
    (c : Char) (s : String) → is_dangerous (code c) ≡ false → IsClean s → IsClean (String.◌∷◌ c s)
unfolding has_unsafe_chars
cons-IsClean c s e h = rw e h

empty-IsClean : IsClean ""
unfolding has_unsafe_chars
empty-IsClean = refl

pub cat-IsClean : (s t : String) → IsClean s → IsClean t → IsClean (cat s t)
cat-IsClean String.[] t h k = ap has_unsafe_chars (cat-nil t) ∙ k
cat-IsClean (String.◌∷◌ c s) t h k =
    let (e, rest) = IsClean-parts c s h in
    ap has_unsafe_chars (cat-cons c s t) ∙ cons-IsClean c (cat s t) e (cat-IsClean s t rest k)

constants :
    IsClean " " × IsClean "…" × IsClean glyph × IsClean sep × IsClean cta_sep × IsClean scheme
unfolding has_unsafe_chars is_dangerous
constants = (refl, refl, refl, refl, refl, refl)

even_spaces-IsClean : (s : String) → IsClean s → IsClean (even_spaces s)
unfolding even_spaces
even_spaces-IsClean String.[] h = empty-IsClean
even_spaces-IsClean (String.◌∷◌ c s) h =
    let (e, rest) = IsClean-parts c s h in
    let ih = even_spaces-IsClean s rest in
    elim (Bool-cases (is_odd_space (code c))) [
      | inl f ↦ rw f (cat-IsClean " " (even_spaces s) constants.0 ih)
      | inr f ↦
          rw f
            (cat-IsClean (String.◌∷◌ c "") (even_spaces s) (cons-IsClean c "" e empty-IsClean) ih)
    ]

one_space-IsClean : (within : Bool) (s : String) → IsClean s → IsClean (one_space within s)
unfolding one_space
one_space-IsClean within String.[] h = empty-IsClean
one_space-IsClean within (String.◌∷◌ c s) h =
    let (e, rest) = IsClean-parts c s h in
    let skipped = one_space-IsClean true s rest in
    elim (Bool-cases (is_space (code c))) [
      | inl f ↦ rw f (elim (Bool-cases within) [
        | inl g ↦ rw g skipped
        | inr g ↦ rw g (cat-IsClean " " (one_space true s) constants.0 skipped)
      ])
      | inr f ↦ rw f (
          cat-IsClean (String.◌∷◌ c "") (one_space false s) (cons-IsClean c "" e empty-IsClean)
            (one_space-IsClean false s rest))
    ]

trim_start-IsClean : (s : String) → IsClean s → IsClean (trim_start s)
unfolding trim_start
trim_start-IsClean String.[] h = empty-IsClean
trim_start-IsClean (String.◌∷◌ c s) h = elim (Bool-cases (is_space (code c))) [
  | inl f ↦ rw f (trim_start-IsClean s (IsClean-parts c s h).1)
  | inr f ↦ rw f h
]

trim_end-IsClean : (s : String) → IsClean s → IsClean (trim_end s)
unfolding trim_end
trim_end-IsClean String.[] h = empty-IsClean
trim_end-IsClean (String.◌∷◌ c s) h =
    let (e, rest) = IsClean-parts c s h in
    elim (Bool-cases (is_empty (trim_end s) && is_space (code c))) [
      | inl f ↦ rw f empty-IsClean
      | inr f ↦ rw f (cons-IsClean c (trim_end s) e (trim_end-IsClean s rest))
    ]

fitting-IsClean :
    (most : ℕ) (out s : String) → IsClean out → IsClean s → IsClean (fitting most out s)
unfolding fitting
fitting-IsClean most out String.[] h k = h
fitting-IsClean most out (String.◌∷◌ c s) h k =
    let (e, rest) = IsClean-parts c s k in
    let longer = cat out (String.◌∷◌ c "") in
    elim (Bool-cases (ltb (most - 1) (display_width longer))) [
      | inl f ↦ rw f h
      | inr f ↦ rw f (
          fitting-IsClean most longer s
            (cat-IsClean out (String.◌∷◌ c "") h (cons-IsClean c "" e empty-IsClean)) rest)
    ]

truncate-IsClean : (s : String) (most : ℕ) → IsClean s → IsClean (truncate s most)
unfolding truncate
truncate-IsClean s most h = elim (Bool-cases (most == 0)) [
  | inl e ↦ rw e empty-IsClean
  | inr e ↦ rw e (elim (Bool-cases (leb (display_width s) most)) [
    | inl f ↦ rw f h
    | inr f ↦ rw f (
        cat-IsClean (trim_end (fitting most "" s)) "…"
          (trim_end-IsClean (fitting most "" s) (fitting-IsClean most "" s empty-IsClean h))
          constants.1)
  ])
]

normalize-IsClean :
    (nfc : String → String) (s : String) → IsClean (nfc s) → IsClean (normalize nfc s)
unfolding normalize trim
normalize-IsClean nfc s h =
    let spaced = one_space-IsClean false (even_spaces (nfc s)) (even_spaces-IsClean (nfc s) h) in
    trim_end-IsClean (trim_start (one_space false (even_spaces (nfc s))))
      (trim_start-IsClean (one_space false (even_spaces (nfc s))) spaced)

-- The normal form makes no dangerous character of a text without one.
abbrev pub KeepsClean : (String → String) → Type 0
KeepsClean nfc = (s : String) → IsClean s → IsClean (nfc s)

short-IsClean :
    (nfc : String → String) (s : String) (most : ℕ)
    → KeepsClean nfc
    → IsClean s
    → IsClean (truncate (normalize nfc s) most)
short-IsClean nfc s most keeps h =
    truncate-IsClean (normalize nfc s) most (normalize-IsClean nfc s (keeps s h))

short_cta-IsClean :
    (nfc : String → String) (cta : Option String)
    → KeepsClean nfc
    → is_unsafe cta ≡ false
    → IsClean (short_cta nfc cta)
unfolding short_cta
short_cta-IsClean nfc none keeps h = empty-IsClean
short_cta-IsClean nfc (some cta) keeps h = elim (Bool-cases (is_empty cta)) [
  | inl e ↦ rw e empty-IsClean
  | inr e ↦ rw e (short-IsClean nfc cta cta_limit keeps h)
]

pick : (b : Bool) (s t : String) → IsClean s → IsClean t → IsClean (if b then s else t)
pick true s t h k = h
pick false s t h k = k

plain_line-IsClean :
    (brand text cta : String)
    → IsClean brand
    → IsClean text
    → IsClean cta
    → IsClean (plain_line brand text cta)
unfolding plain_line
plain_line-IsClean brand text cta h k l =
    let (space, _, star, dash, dot, https) = constants in
    let tail =
      pick (is_empty cta) "" _ empty-IsClean (cat-IsClean _ _ dot (cat-IsClean _ _ https l)) in
    cat-IsClean _ _ star
      (cat-IsClean _ _ space (cat-IsClean _ _ h (cat-IsClean _ _ dash (cat-IsClean _ _ k tail))))

pub assert_clean-eq-ok :
    (creative : Creative) {u : Unit {0}}
    → assert_clean creative ≡ ok u
    → IsClean creative.brand × IsClean creative.text × (is_unsafe creative.cta ≡ false)
unfolding assert_clean
assert_clean-eq-ok creative h = ground arith

-- A creative that is rendered has no dangerous character in any field, and its plain line has none
-- either, where the normal form makes none.
pub render-IsClean :
    (nfc : String → String) (creative : Creative) (columns : ℕ) (shape : LinkShape) {line : AdLine}
    → KeepsClean nfc
    → render_ad_line nfc creative columns shape ≡ ok line
    → IsClean creative.brand
      × IsClean creative.text
      × (is_unsafe creative.cta ≡ false)
      × IsClean line.plain
unfolding render_ad_line fitted_text fitted_cta
render-IsClean nfc creative columns shape {line} keeps h =
    let brand = truncate (normalize nfc creative.brand) brand_limit in
    let text = truncate (normalize nfc creative.text) text_limit in
    let cta = short_cta nfc creative.cta in
    let budget = max 20 (columns - 1) in
    let (_, h1, h2) =
      >>=-eq-ok
        (assert_clean creative
          >> throw_if (is_empty brand) empty_brand
          >> throw_if (is_empty text) empty_text)
        _ h in
    let (_, h3, _) =
      >>=-eq-ok (assert_clean creative >> throw_if (is_empty brand) empty_brand) _ h1 in
    let (_, h4, _) = >>=-eq-ok (assert_clean creative) _ h3 in
    let (b, t, c) = assert_clean-eq-ok creative h4 in
    let clean_text = short-IsClean nfc creative.text text_limit keeps t in
    let shown : plain_line brand (fitted_text budget brand text) (fitted_cta budget brand text cta)
        ≡ line.plain =
      ground (arith, h2) in
    (
      b,
      t,
      c,
      subst IsClean shown (
          plain_line-IsClean brand (fitted_text budget brand text)
            (fitted_cta budget brand text cta)
            (short-IsClean nfc creative.brand brand_limit keeps b)
            (pick _ _ _ (truncate-IsClean text _ clean_text) clean_text)
            (pick _ _ _ empty-IsClean (short_cta-IsClean nfc creative.cta keeps c))),
    )
