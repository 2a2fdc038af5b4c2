-- ===== src/Sanitize.antt =====
-- packages/protocol/src/sanitize.ts: an advertiser's text on its way to the terminal.
-- A text is its code points. `nfc`, the Unicode normal form, is a parameter. The sets of characters
-- are those of the source, and `\s` that of JavaScript.
pub mod Lines
pub mod Widths
pub mod Clean
pub mod Tests
use Prim.Native.Char.{Char, code}
use dwell.Base.{
  ℕ, zero, suc, ◌+◌, ◌-◌, ◌*◌, max, String, Bool, true, false, not, ◌&&◌, ◌||◌, Option, none, some,
  Result, ok, err, ◌>>=◌, ◌>>◌, throw_if, ltb, leb, ◌==◌, if◌then◌else◌,
}
use dwell.Base.Text.{cat}
use dwell.Selector.{Creative}

-- `[\ua-\ub]`
abbrev pub between : ℕ → ℕ → ℕ → Bool
between low high cp = leb low cp && leb cp high

-- `DANGEROUS`
unfoldable pub is_dangerous : ℕ → Bool
is_dangerous cp =
    between 0x0000 0x001F cp
    || (cp == 0x007F)
    || between 0x0080 0x009F cp
    || between 0x200B 0x200F cp
    || between 0x202A 0x202E cp
    || between 0x2066 0x2069 cp
    || between 0x2028 0x2029 cp
    || (cp == 0xFEFF)

-- `ODD_SPACE`
unfoldable pub is_odd_space : ℕ → Bool
is_odd_space cp =
    (cp == 0x00A0)
    || (cp == 0x1680)
    || between 0x2000 0x200A cp
    || (cp == 0x202F)
    || (cp == 0x205F)
    || (cp == 0x3000)

-- `\s`, which `trim` takes off too.
unfoldable pub is_space : ℕ → Bool
unfolding is_odd_space
is_space cp =
    between 0x0009 0x000D cp
    || (cp == 0x0020)
    || is_odd_space cp
    || between 0x2028 0x2029 cp
    || (cp == 0xFEFF)

abbrev pub is_empty : String → Bool
is_empty String.[] = true
is_empty (String.◌∷◌ c s) = false

-- `replace(ODD_SPACE, ' ')`
unfoldable pub even_spaces : String → String
unfolding is_odd_space
even_spaces String.[] = ""
even_spaces (String.◌∷◌ c s) =
    let rest = even_spaces s in cat (if is_odd_space (code c) then " " else String.◌∷◌ c "") rest

-- `replace(/\s+/g, ' ')`; `within` after a space.
unfoldable pub one_space : Bool → String → String
unfolding is_space
one_space within String.[] = ""
one_space within (String.◌∷◌ c s) =
    let skipped = one_space true s in
    let kept = one_space false s in
    if is_space (code c)
    then if within then skipped else cat " " skipped
    else cat (String.◌∷◌ c "") kept

unfoldable pub trim_start : String → String
unfolding is_space
trim_start String.[] = ""
trim_start (String.◌∷◌ c s) =
    let rest = trim_start s in if is_space (code c) then rest else String.◌∷◌ c s

unfoldable pub trim_end : String → String
unfolding is_space
trim_end String.[] = ""
trim_end (String.◌∷◌ c s) =
    let rest = trim_end s in if is_empty rest && is_space (code c) then "" else String.◌∷◌ c rest

unfoldable pub trim : String → String
unfolding trim_start trim_end
trim s = trim_end (trim_start s)

-- `normalize`
unfoldable pub normalize : (String → String) → String → String
unfolding even_spaces one_space trim
normalize nfc input = trim (one_space false (even_spaces (nfc input)))

unfoldable pub has_unsafe_chars : String → Bool
unfolding is_dangerous
has_unsafe_chars String.[] = false
has_unsafe_chars (String.◌∷◌ c s) = if is_dangerous (code c) then true else has_unsafe_chars s

-- `input.replace(DANGEROUS, '')`
unfoldable pub without_dangerous : String → String
unfolding is_dangerous
without_dangerous String.[] = ""
without_dangerous (String.◌∷◌ c s) =
    let rest = without_dangerous s in if is_dangerous (code c) then rest else String.◌∷◌ c rest

unfoldable pub strip_unsafe : (String → String) → String → String
unfolding normalize without_dangerous
strip_unsafe nfc input = normalize nfc (without_dangerous input)

unfoldable pub char_width : ℕ → ℕ
char_width cp =
    if between 0x0300 0x036F cp || between 0xFE00 0xFE0F cp
    then 0
    else if between 0x1100 0x115F cp
        || between 0x2E80 0xA4CF cp
        || between 0xAC00 0xD7A3 cp
        || between 0xF900 0xFAFF cp
        || between 0xFF00 0xFF60 cp
        || between 0x1F300 0x1FAFF cp
    then 2
    else 1

unfoldable pub display_width : String → ℕ
unfolding char_width
display_width String.[] = 0
display_width (String.◌∷◌ c s) = char_width (code c) + display_width s

-- The loop of `truncate`: `out` so far, and what is left of the text.
unfoldable pub fitting : ℕ → String → String → String
unfolding display_width
fitting most out String.[] = out
fitting most out (String.◌∷◌ c s) =
    let longer = cat out (String.◌∷◌ c "") in
    let rest = fitting most longer s in if ltb (most - 1) (display_width longer) then out else rest

unfoldable pub truncate : String → ℕ → String
unfolding display_width fitting trim_end
truncate s most =
    if most == 0
    then ""
    else if leb (display_width s) most
    then s
    else cat (trim_end (fitting most "" s)) "…"
