-- ===== src/Ingest/Versions.antt =====
-- `compareVersions`, on versions that `semverSchema` has let through: numbers between dots, and
-- whatever stands behind a dash. A part that is not a number is `NaN`, which is unequal to all and
-- below none.
use Prim.Native.Char.{Char, code}
use dwell.Base.{
  ℕ, zero, suc, ◌+◌, ◌-◌, ◌*◌, String, Bool, true, false, ◌&&◌, Option, none, some, List, [], ◌∷◌,
  leb, ltb, ◌==◌, if◌then◌else◌,
}

-- `s.split('-')[0]`
unfoldable pub before_dash : String → String
before_dash String.[] = String.[]
before_dash (String.◌∷◌ c s) =
    let rest = before_dash s in if code c == b'-' then String.[] else String.◌∷◌ c rest

-- `Number(part)` of the digits read so far.
abbrev pub digit : Char → Option ℕ → Option ℕ
digit c none = none
digit c (some n) =
    if leb b'0' (code c) && leb (code c) b'9' then some (n * 10 + (code c - b'0')) else none

-- `s.split('.').map(Number)`, with the number of the part that is read.
unfoldable pub numbers : Option ℕ → String → List (Option ℕ)
numbers n String.[] = n ∷ []
numbers n (String.◌∷◌ c s) =
    let next = numbers (some 0) s in
    let same_part = numbers (digit c n) s in if code c == b'.' then n ∷ next else same_part

-- `pa[i] ?? 0`
abbrev pub head_or_zero : List (Option ℕ) → Option ℕ
head_or_zero [] = some 0
head_or_zero (n ∷ ns) = n

abbrev pub rest_of : List (Option ℕ) → List (Option ℕ)
rest_of [] = []
rest_of (n ∷ ns) = ns

-- Is the comparison of the next `k` numbers below zero?
unfoldable pub older_in : ℕ → List (Option ℕ) → List (Option ℕ) → Bool
older_in zero xs ys = false
older_in (suc k) xs ys =
    let later = older_in k (rest_of xs) (rest_of ys) in
    elim (head_or_zero xs) [
      | none ↦ false
      | some a ↦ elim (head_or_zero ys) [
        | none ↦ false
        | some b ↦ if ltb a b then true else if ltb b a then false else later
      ]
    ]

-- `compareVersions(a, b) < 0`
unfoldable pub is_older : String → String → Bool
is_older a b = older_in 3 (numbers (some 0) (before_dash a)) (numbers (some 0) (before_dash b))
