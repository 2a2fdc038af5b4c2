-- ===== src/Queue/Tests.antt =====
-- Runs of the queue.
use dwell.Base.{suc, String, true, none, some, [], ◌∷◌, ◌≡◌, refl, leb, arith}
use dwell.Turns.{CompletedImpression}
use dwell.Queue.{Options, Queue, Disk, pending}
use dwell.Queue.Refinement.{Operation, perform, specified, perform-pending}

abbrev shown : String → CompletedImpression
shown id = record {
  id = id;
  campaign_id = "c-1";
  nonce = "n-1";
  session_id = "s-1";
  duration_ms = 6_000;
  client_ts = 10_000;
  rejected = none;
}

abbrev two_at_most : Options
two_at_most = record { compact_after = 3; max_entries = 2 }

-- One impression is sent, one line is torn, and the next addition makes a compaction due.
abbrev queue : Queue
queue = record {
  lines = some (shown "i-1") ∷ none ∷ some (shown "i-2") ∷ some (shown "i-3") ∷ [];
  ends_whole = true;
  sent = "i-1" ∷ [];
  append_count = 2;
}

abbrev add_fourth : Operation
add_fourth = Operation.adds true Disk.unlink_fails (shown "i-4")

last_two : pending (perform two_at_most add_fourth queue) ≡ shown "i-3" ∷ shown "i-4" ∷ []
unfolding pending perform dwell.Queue.add dwell.Queue.compact dwell.Queue.latest
    dwell.Queue.appended
last_two = refl

perform-pending_example :
    pending (perform two_at_most add_fourth queue)
    ≡ specified two_at_most add_fourth (leb 3 (suc 2)) (pending queue)
perform-pending_example = perform-pending two_at_most add_fourth queue (omega arith) refl refl
