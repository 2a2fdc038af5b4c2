-- ===== src/Sanitize/Lines.antt =====
-- `renderAdLine` and `renderSpinnerVerb`: the line of an ad.
use Prim.Native.Char.{code}
use dwell.Base.{
  ℕ, ◌+◌, ◌-◌, max, String, Bool, true, false, not, ◌&&◌, ◌||◌, Option, none, some, Result, ok,
  ◌>>◌, throw_if, ltb, ◌==◌, if◌then◌else◌,
}
use dwell.Base.Text.{cat}
use dwell.Selector.{Creative}
use dwell.Sanitize.{between, is_empty, normalize, has_unsafe_chars, display_width, truncate}

pub data LinkShape : Type 0 where
  osc8 plain hybrid : LinkShape

-- `SanitizedAdLine`
pub record AdLine : Type 0 where
  pub ansi : String
  pub plain : String
  pub width : ℕ

-- `SanitizeError`, with the field at fault.
pub data SanitizeError : Type 0 where
  unsafe_brand unsafe_text unsafe_cta empty_brand empty_text : SanitizeError

abbrev pub brand_limit : ℕ
brand_limit = 20

abbrev pub text_limit : ℕ
text_limit = 60

abbrev pub cta_limit : ℕ
cta_limit = 30

abbrev pub is_unsafe : Option String → Bool
is_unsafe none = false
is_unsafe (some value) = has_unsafe_chars value

unfoldable pub assert_clean : Creative → Result SanitizeError (Unit {0})
assert_clean creative = do
  throw_if (has_unsafe_chars creative.brand) unsafe_brand
  throw_if (has_unsafe_chars creative.text) unsafe_text
  throw_if (is_unsafe creative.cta) unsafe_cta

-- `[a-z0-9]`
abbrev pub is_alnum : ℕ → Bool
is_alnum cp = between 0x61 0x7A cp || between 0x30 0x39 cp

-- `SAFE_DOMAIN`, read from the left: labels of letters, digits and inner dashes, parted by dots.
pub data Reading : Type 0 where
  label_start after_alnum after_dash : Reading

abbrev pub may_end : Reading → Bool
may_end label_start = false
may_end after_alnum = true
may_end after_dash = false

abbrev pub may_dash : Reading → Bool
may_dash label_start = false
may_dash after_alnum = true
may_dash after_dash = true

unfoldable pub domain_from : Bool → Reading → String → Bool
domain_from dotted at String.[] = dotted && may_end at
domain_from dotted at (String.◌∷◌ c s) =
    let in_label = domain_from dotted after_alnum s in
    let dashed = domain_from dotted after_dash s in
    let next_label = domain_from true label_start s in
    if is_alnum (code c)
    then in_label
    else if code c == 0x2D
    then may_dash at && dashed
    else if code c == 0x2E
    then may_end at && next_label
    else false

unfoldable pub is_safe_domain : String → Bool
unfolding domain_from
is_safe_domain domain = domain_from false label_start domain

abbrev pub scheme : String
scheme = "https://"

abbrev pub esc : String
esc = "\u{1b}"

abbrev pub bel : String
bel = "\u{7}"

unfoldable pub hyperlink : String → String → String
unfolding is_safe_domain
hyperlink domain label =
    if is_safe_domain domain
    then cat esc
        (cat "]8;;" (cat scheme (cat domain (cat bel (cat label (cat esc (cat "]8;;" bel)))))))
    else label

abbrev pub style_glyph : String
style_glyph = "\u{1b}[38;5;208m"

abbrev pub style_brand : String
style_brand = "\u{1b}[1m"

abbrev pub style_dim : String
style_dim = "\u{1b}[2m"

abbrev pub style_reset : String
style_reset = "\u{1b}[0m"

abbrev pub glyph : String
glyph = "✶"

abbrev pub sep : String
sep = " — "

abbrev pub cta_sep : String
cta_sep = " · "

-- `creative.cta ? truncate(normalize(creative.cta), LIMITS.cta) : ''`
unfoldable pub short_cta : (String → String) → Option String → String
short_cta nfc none = ""
short_cta nfc (some cta) = if is_empty cta then "" else truncate (normalize nfc cta) cta_limit

-- The width of the glyph, the brand and the separator.
unfoldable pub fixed_width : String → ℕ
fixed_width brand = display_width (cat glyph (cat " " (cat brand sep)))

-- The address falls away first where the line is too long.
unfoldable pub fitted_cta : ℕ → String → String → String → String
unfolding fixed_width
fitted_cta budget brand text cta =
    let tail_width = if is_empty cta then 0 else display_width (cat cta_sep (cat scheme cta)) in
    if ltb budget (fixed_width brand + display_width text + tail_width) then "" else cta

-- Then the text is cut.
unfoldable pub fitted_text : ℕ → String → String → String
unfolding fixed_width
fitted_text budget brand text =
    if ltb budget (fixed_width brand + display_width text)
    then truncate text (max 3 (budget - fixed_width brand))
    else text

abbrev pub is_plain : LinkShape → Bool
is_plain LinkShape.osc8 = false
is_plain LinkShape.plain = true
is_plain LinkShape.hybrid = false

unfoldable pub plain_line : String → String → String → String
plain_line brand text cta =
    let tail = if is_empty cta then "" else cat cta_sep (cat scheme cta) in
    cat glyph (cat " " (cat brand (cat sep (cat text tail))))

unfoldable pub ansi_line : LinkShape → String → String → String → String
unfolding hyperlink
ansi_line shape brand text cta =
    let shown = if is_empty cta then "" else cat scheme cta in
    let link = if not (is_empty cta) && not (is_plain shape) then hyperlink cta shown else shown in
    let tail = if is_empty cta then "" else cat style_dim (cat cta_sep (cat link style_reset)) in
    cat style_glyph (
      cat glyph (
        cat style_reset
          (cat " " (cat style_brand (cat brand (cat style_reset (cat sep (cat text tail))))))))

unfoldable pub render_ad_line :
    (String → String) → Creative → ℕ → LinkShape → Result SanitizeError AdLine
unfolding assert_clean short_cta fitted_cta fitted_text plain_line ansi_line
render_ad_line nfc creative columns shape =
    let brand = truncate (normalize nfc creative.brand) brand_limit in
    let text = truncate (normalize nfc creative.text) text_limit in
    let cta = short_cta nfc creative.cta in
    let budget = max 20 (columns - 1) in
    let out_text = fitted_text budget brand text in
    let out_cta = fitted_cta budget brand text cta in
    assert_clean creative
    >> throw_if (is_empty brand) empty_brand
    >> throw_if (is_empty text) empty_text
    >> ok (record {
      ansi = ansi_line shape brand out_text out_cta;
      plain = plain_line brand out_text out_cta;
      width = display_width (plain_line brand out_text out_cta);
    })

unfoldable pub render_spinner_verb : (String → String) → Creative → Result SanitizeError String
unfolding assert_clean
render_spinner_verb nfc creative =
    let brand = truncate (normalize nfc creative.brand) brand_limit in
    assert_clean creative >> throw_if (is_empty brand) empty_brand >> ok (cat glyph (cat " " brand))
