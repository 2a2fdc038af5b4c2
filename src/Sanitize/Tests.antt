-- ===== src/Sanitize/Tests.antt =====
-- Runs of the renderer, with a normal form that changes nothing.
use dwell.Base.{ℕ, ◌≤◌, ◌-◌, max, String, none, some, ok, ◌≡◌, refl, ◌≢◌, false}
use dwell.Selector.{Creative}
use dwell.Sanitize.{display_width}
use dwell.Sanitize.Lines.{LinkShape, AdLine, is_unsafe, render_ad_line}
use dwell.Sanitize.Widths.{render_ad_line_fits}
use dwell.Sanitize.Clean.{IsClean, render-IsClean}

abbrev same_text : String → String
same_text s = s

abbrev acme : Creative
acme = record { brand = " Acme  Corp"; text = "Ship it"; cta = some "acme.dev" }

abbrev line_of_acme : AdLine
line_of_acme = record {
  ansi =
      "\u{1b}[38;5;208m✶\u{1b}[0m \u{1b}[1mAcme Corp\u{1b}[0m — Ship it\u{1b}[2m · \u{1b}]8;;https://acme.dev\u{7}https://acme.dev\u{1b}]8;;\u{7}\u{1b}[0m";
  plain = "✶ Acme Corp — Ship it · https://acme.dev";
  width = 40;
}

render_acme : render_ad_line same_text acme 80 LinkShape.osc8 ≡ ok line_of_acme
unfolding render_ad_line dwell.Sanitize.Lines.assert_clean dwell.Sanitize.Lines.short_cta
    dwell.Sanitize.Lines.fixed_width dwell.Sanitize.Lines.fitted_cta
    dwell.Sanitize.Lines.fitted_text dwell.Sanitize.Lines.plain_line dwell.Sanitize.Lines.ansi_line
    dwell.Sanitize.Lines.hyperlink dwell.Sanitize.Lines.is_safe_domain
    dwell.Sanitize.Lines.domain_from dwell.Sanitize.normalize dwell.Sanitize.even_spaces
    dwell.Sanitize.one_space dwell.Sanitize.trim dwell.Sanitize.trim_start dwell.Sanitize.trim_end
    dwell.Sanitize.is_space dwell.Sanitize.is_odd_space dwell.Sanitize.is_dangerous
    dwell.Sanitize.has_unsafe_chars dwell.Sanitize.display_width dwell.Sanitize.char_width
    dwell.Sanitize.truncate dwell.Sanitize.fitting dwell.Base.Text.cat
render_acme = refl

render_ad_line_fits_example :
    (line_of_acme.width ≡ display_width line_of_acme.plain) × (line_of_acme.width ≤ max 28 (80 - 1))
render_ad_line_fits_example = render_ad_line_fits same_text acme 80 LinkShape.osc8 render_acme

render-IsClean_example :
    IsClean acme.brand
    × IsClean acme.text
    × (is_unsafe acme.cta ≡ false)
    × IsClean line_of_acme.plain
render-IsClean_example = render-IsClean same_text acme 80 LinkShape.osc8 (λ s h. h) render_acme
