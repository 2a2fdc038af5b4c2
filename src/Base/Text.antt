-- ===== src/Base/Text.antt =====
-- Texts that the program builds by templates: `${a}:${b}`.
use Prim.Native.Char.{Char}
use Prim.Native.String.{String, ◌++◌}
use mathlib.Core.Path.{◌≡◌}
use text.Mathlib.TextLemmas.{append_cancel_left, nil-append, cons-append}

unfoldable pub cat : String → String → String
cat s t = s ++ t

-- `${s}:${t}`
unfoldable pub colon : String → String → String
unfolding cat
colon s t = cat s (cat ":" t)

pub cat_cancel : (s t u : String) → cat s t ≡ cat s u → t ≡ u
unfolding cat
cat_cancel s t u h = append_cancel_left s t u h

pub colon_cancel : (s t u : String) → colon s t ≡ colon s u → t ≡ u
unfolding colon
colon_cancel s t u h = cat_cancel ":" t u (cat_cancel s _ _ h)

pub cat-nil : (t : String) → cat "" t ≡ t
unfolding cat
cat-nil t = nil-append t

pub cat-cons : (c : Char) (s t : String) → cat (String.◌∷◌ c s) t ≡ String.◌∷◌ c (cat s t)
unfolding cat
cat-cons c s t = cons-append c s t
