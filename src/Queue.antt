-- ===== src/Queue.antt =====
-- packages/cli/src/daemon/queue.ts: completed impressions wait on the disk until they are reported.
-- The file is its lines as `JSON.parse` reads them, with `none` for one that it refuses; a text that
-- is appended to a line without its newline makes a line that it refuses. Whether the disk obeys is
-- a parameter of each call. An append that the disk refuses is taken to write nothing, the file of
-- the marks to hold whole lines, and a read to succeed.
pub mod Refinement
pub mod Tests
use dwell.Base.{
  ℕ, zero, suc, ◌-◌, String, Bool, true, false, not, Option, none, some, List, [], ◌∷◌, ◌++◌, keep,
  drop, length, any, same, ltb, leb, if◌then◌else◌,
}
use dwell.Turns.{CompletedImpression}

pub record Options : Type 0 where
  pub compact_after : ℕ
  pub max_entries : ℕ

abbrev pub defaults : Options
defaults = record { compact_after = 500; max_entries = 50_000 }

-- The two files; `ends_whole` where the first one ends with a newline or is empty.
pub record Queue : Type 0 where
  pub lines : List (Option CompletedImpression)
  pub ends_whole : Bool
  pub sent : List String
  pub append_count : ℕ

-- `#readAll`
abbrev pub read_all : List (Option CompletedImpression) → List CompletedImpression
read_all [] = []
read_all (none ∷ lines) = read_all lines
read_all (some imp ∷ lines) = imp ∷ read_all lines

-- `!sent.has(i.id)`
abbrev pub is_unsent : List String → CompletedImpression → Bool
is_unsent sent imp = not (any (λ id. same id imp.id) sent)

unfoldable pub pending : Queue → List CompletedImpression
pending q = keep (is_unsent q.sent) (read_all q.lines)

unfoldable pub size : Queue → ℕ
unfolding pending
size q = length (pending q)

-- `slice(-most)` drops so many; `slice(-0)` drops none.
abbrev pub dropped : ℕ → ℕ → ℕ
dropped zero n = 0
dropped (suc k) n = n - suc k

-- `keep.length > max ? keep.slice(-max) : keep`
unfoldable pub latest : ℕ → List CompletedImpression → List CompletedImpression
latest most imps = if ltb most (length imps) then drop (dropped most (length imps)) imps else imps

abbrev pub all_lines : List CompletedImpression → List (Option CompletedImpression)
all_lines [] = []
all_lines (imp ∷ imps) = some imp ∷ all_lines imps

-- How far a compaction gets: the file is not replaced, the marks are not removed, or all is done.
pub data Disk : Type 0 where
  write_fails unlink_fails obeys : Disk

abbrev pub marks_left : Disk → List String → List String
marks_left write_fails sent = sent
marks_left unlink_fails sent = sent
marks_left obeys sent = []

abbrev pub is_replaced : Disk → Bool
is_replaced write_fails = false
is_replaced unlink_fails = true
is_replaced obeys = true

unfoldable pub compact : Options → Disk → Queue → Queue
unfolding latest pending
compact o disk q =
    if is_replaced disk
    then record {
      lines = all_lines (latest o.max_entries (pending q));
      ends_whole = true;
      sent = marks_left disk q.sent;
      append_count = q.append_count;
    }
    else q

-- The last line, without its newline, becomes one that cannot be read.
abbrev pub spoil_last : List (Option CompletedImpression) → List (Option CompletedImpression)
spoil_last [] = []
spoil_last (line ∷ []) = none ∷ []
spoil_last (line ∷ next ∷ lines) = line ∷ spoil_last (next ∷ lines)

unfoldable pub appended : CompletedImpression → Queue → Queue
appended imp q = record q {
  lines = if q.ends_whole then q.lines ++ (some imp ∷ []) else spoil_last q.lines;
  ends_whole = true;
}

unfoldable pub add : Options → Bool → Disk → CompletedImpression → Queue → Queue
unfolding compact appended
add o appends disk imp q =
    let longer = appended imp q in
    if not appends
    then q
    else if leb o.compact_after (suc q.append_count)
    then compact o disk (record longer { append_count = 0 })
    else record longer { append_count = suc q.append_count }

unfoldable pub mark_sent : Bool → List String → Queue → Queue
mark_sent appends [] q = q
mark_sent appends (id ∷ ids) q = if appends then record q { sent = q.sent ++ (id ∷ ids) } else q
