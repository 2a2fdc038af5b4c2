-- ===== src/Queue/Refinement.antt =====
-- The queue on the disk against a list of what waits.
use dwell.Base.{
  ℕ, zero, suc, ◌-◌, ◌≤◌, String, Bool, true, false, not, Option, none, some, List, [], ◌∷◌, ◌++◌,
  keep, drop, length, any, same, ltb, leb, keep-append, if◌then◌else◌, ◌≡◌, refl, sym, ap, ◌∙◌, inl,
  inr, Bool-cases, All, arith,
}
use dwell.Turns.{CompletedImpression}
use dwell.Queue.{
  Options, Queue, read_all, is_unsent, pending, latest, dropped, all_lines, Disk, write_fails,
  unlink_fails, obeys, is_replaced, compact, spoil_last, appended, add, mark_sent,
}

pub data Operation : Type 0 where
  adds : Bool → Disk → CompletedImpression → Operation
  marks : Bool → List String → Operation
  compacts : Disk → Operation

unfoldable pub perform : Options → Operation → Queue → Queue
unfolding add mark_sent compact
perform o (adds appends disk imp) q = add o appends disk imp q
perform o (marks appends ids) q = mark_sent appends ids q
perform o (compacts disk) q = compact o disk q

-- The list without its oldest, one after the other until there are at most so many.
abbrev pub newest : ℕ → List CompletedImpression → List CompletedImpression
newest most [] = []
newest most (i ∷ is) =
    let shorter = newest most is in if leb (length (i ∷ is)) most then i ∷ is else shorter

-- What a compaction leaves of a list: the newest, where the file was replaced.
abbrev pub trimmed : Options → Disk → List CompletedImpression → List CompletedImpression
trimmed o disk waiting = if is_replaced disk then newest o.max_entries waiting else waiting

-- The operations on the list of what waits; `due` where a compaction is due.
abbrev pub specified :
    Options → Operation → Bool → List CompletedImpression → List CompletedImpression
specified o (adds appends disk imp) due waiting =
    if not appends
    then waiting
    else if due
    then trimmed o disk (waiting ++ (imp ∷ []))
    else waiting ++ (imp ∷ [])
specified o (marks appends ids) due waiting =
    if appends then keep (is_unsent ids) waiting else waiting
specified o (compacts disk) due waiting = trimmed o disk waiting

-- An impression that is added was not marked as sent before.
abbrev pub IsNew : Operation → Queue → Type 0
IsNew (adds appends disk imp) q = is_unsent q.sent imp ≡ true
IsNew (marks appends ids) q = Unit
IsNew (compacts disk) q = Unit

read_all-append :
    (xs ys : List (Option CompletedImpression)) → read_all (xs ++ ys) ≡ read_all xs ++ read_all ys
read_all-append [] ys = refl
read_all-append (none ∷ xs) ys = read_all-append xs ys
read_all-append (some imp ∷ xs) ys = ap (λ l. imp ∷ l) (read_all-append xs ys)

read_all-all_lines : (imps : List CompletedImpression) → read_all (all_lines imps) ≡ imps
read_all-all_lines [] = refl
read_all-all_lines (imp ∷ imps) = ap (λ l. imp ∷ l) (read_all-all_lines imps)

module _ (test : CompletedImpression → Bool) where
  All-keep_same :
      (imps : List CompletedImpression) → All (λ i. test i ≡ true) imps → keep test imps ≡ imps
  All-keep_same [] h = refl
  All-keep_same (i ∷ is) h = rw h.0 (ap (λ l. i ∷ l) (All-keep_same is h.1))

  kept-All : (imps : List CompletedImpression) → All (λ i. test i ≡ true) (keep test imps)
  kept-All [] = tt
  kept-All (i ∷ is) = ground (arith, kept-All is)

  drop-All :
      (n : ℕ) (imps : List CompletedImpression)
      → All (λ i. test i ≡ true) imps
      → All (λ i. test i ≡ true) (drop n imps)
  drop-All zero imps h = h
  drop-All (suc n) [] h = tt
  drop-All (suc n) (i ∷ is) h = drop-All n is h.1

  latest-All :
      (most : ℕ) (imps : List CompletedImpression)
      → All (λ i. test i ≡ true) imps
      → All (λ i. test i ≡ true) (latest most imps)
  unfolding latest
  latest-All most imps h = elim (Bool-cases (ltb most (length imps))) [
    | inl e ↦ rw e (drop-All (dropped most (length imps)) imps h)
    | inr e ↦ rw e h
  ]

drop-newest :
    (most : ℕ) (imps : List CompletedImpression) → drop (length imps - most) imps ≡ newest most imps
drop-newest most [] = let none_left : 0 - most ≡ 0 = omega arith in ap (λ n. drop n []) none_left
drop-newest most (i ∷ is) = elim (Bool-cases (leb (length (i ∷ is)) most)) [
  | inl e ↦
      let none_left : length (i ∷ is) - most ≡ 0 = ground (arith, e) in
      rw e (ap (λ n. drop n (i ∷ is)) none_left)
  | inr e ↦
      let one_more : length (i ∷ is) - most ≡ suc (length is - most) = ground (arith, e) in
      rw e (ap (λ n. drop n (i ∷ is)) one_more ∙ drop-newest most is)
]

-- A positive limit keeps the newest; the limit zero would keep everything.
latest-newest :
    (most : ℕ) (imps : List CompletedImpression) → 1 ≤ most → latest most imps ≡ newest most imps
unfolding latest
latest-newest zero imps h = absurd (omega (arith, h))
latest-newest (suc k) imps h = elim (Bool-cases (ltb (suc k) (length imps))) [
  | inl e ↦ rw e (drop-newest (suc k) imps)
  | inr e ↦
      let none_left : length imps - suc k ≡ 0 = ground (arith, e) in
      rw e (sym (ap (λ n. drop n imps) none_left) ∙ drop-newest (suc k) imps)
]

keep_none_sent : (imps : List CompletedImpression) → keep (is_unsent []) imps ≡ imps
keep_none_sent [] = refl
keep_none_sent (i ∷ is) = ap (λ l. i ∷ l) (keep_none_sent is)

-- Whether or not the marks are removed, a compaction leaves the newest of what waits.
compact-pending :
    (o : Options) (disk : Disk) (q : Queue)
    → 1 ≤ o.max_entries
    → pending (compact o disk q) ≡ trimmed o disk (pending q)
unfolding compact pending
compact-pending o write_fails q limit = refl
compact-pending o unlink_fails q limit =
    let waiting = keep (is_unsent q.sent) (read_all q.lines) in
    ap (keep (is_unsent q.sent)) (read_all-all_lines (latest o.max_entries waiting))
    ∙ All-keep_same (is_unsent q.sent) (latest o.max_entries waiting) (
        latest-All (is_unsent q.sent) o.max_entries waiting
          (kept-All (is_unsent q.sent) (read_all q.lines)))
    ∙ latest-newest o.max_entries waiting limit
compact-pending o obeys q limit =
    let waiting = keep (is_unsent q.sent) (read_all q.lines) in
    ap (keep (is_unsent [])) (read_all-all_lines (latest o.max_entries waiting))
    ∙ keep_none_sent (latest o.max_entries waiting)
    ∙ latest-newest o.max_entries waiting limit

appended-pending :
    (imp : CompletedImpression) (q : Queue)
    → q.ends_whole ≡ true
    → is_unsent q.sent imp ≡ true
    → pending (appended imp q) ≡ pending q ++ (imp ∷ [])
unfolding pending appended
appended-pending imp q whole fresh =
    ap
      (λ b.
        keep (is_unsent q.sent)
          (read_all (if b then q.lines ++ (some imp ∷ []) else spoil_last q.lines)))
      whole
    ∙ ap (keep (is_unsent q.sent)) (read_all-append q.lines (some imp ∷ []))
    ∙ keep-append (is_unsent q.sent) (read_all q.lines) (imp ∷ [])
    ∙ ap (λ l. keep (is_unsent q.sent) (read_all q.lines) ++ l) (one (is_unsent q.sent imp) fresh)
  where
    one : (b : Bool) → b ≡ true → (if b then imp ∷ [] else []) ≡ imp ∷ []
    one true h = refl
    one false h = cc

any-append :
    (test : String → Bool) (xs ys : List String)
    → any test (xs ++ ys) ≡ (if any test xs then true else any test ys)
any-append test [] ys = refl
any-append test (x ∷ xs) ys = ground (arith, any-append test xs ys)

keep_marked :
    (sent ids : List String) (imps : List CompletedImpression)
    → keep (is_unsent (sent ++ ids)) imps ≡ keep (is_unsent ids) (keep (is_unsent sent) imps)
keep_marked sent ids [] = refl
keep_marked sent ids (i ∷ is) =
    ground (arith, keep_marked sent ids is, any-append (λ id. same id i.id) sent ids)

-- With a limit above zero, on a file that ends with a newline, and for an impression that was not
-- marked as sent: every operation does to the impressions that wait what it does to a list of them,
-- whatever the disk refuses. An impression is added at the end, the ones that are marked go, a
-- compaction drops the oldest until the limit is met and no more, and one that stops between its two
-- steps has done just that.
pub perform-pending :
    (o : Options) (op : Operation) (q : Queue)
    → 1 ≤ o.max_entries
    → q.ends_whole ≡ true
    → IsNew op q
    → pending (perform o op q)
      ≡ specified o op (leb o.compact_after (suc q.append_count)) (pending q)
unfolding perform add mark_sent
perform-pending o (adds appends disk imp) q limit whole fresh = elim (Bool-cases appends) [
  | inr e ↦ rw e refl
  | inl e ↦ rw e (elim (Bool-cases (leb o.compact_after (suc q.append_count))) [
    | inr f ↦ rw f (same_pending (suc q.append_count) ∙ appended-pending imp q whole fresh)
    | inl f ↦ rw f (
        compact-pending o disk (record (appended imp q) { append_count = 0 }) limit
        ∙ ap (trimmed o disk) (same_pending 0 ∙ appended-pending imp q whole fresh))
  ])
]
  where
    same_pending :
        (n : ℕ) → pending (record (appended imp q) { append_count = n }) ≡ pending (appended imp q)
    same_pending n = unfold pending in refl
perform-pending o (marks appends []) q limit whole fresh = elim (Bool-cases appends) [
  | inl e ↦ rw e (sym (keep_none_sent (pending q)))
  | inr e ↦ rw e refl
]
perform-pending o (marks appends (id ∷ ids)) q limit whole fresh = elim (Bool-cases appends) [
  | inl e ↦ rw e (marked id ids)
  | inr e ↦ rw e refl
]
  where
    marked :
        (id : String) (ids : List String)
        → pending (record q { sent = q.sent ++ (id ∷ ids) })
          ≡ keep (is_unsent (id ∷ ids)) (pending q)
    marked id ids = unfold pending in keep_marked q.sent (id ∷ ids) (read_all q.lines)
perform-pending o (compacts disk) q limit whole fresh = compact-pending o disk q limit
