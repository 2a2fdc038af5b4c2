-- ===== src/Lib.antt =====
-- A model of Dwell: advertising in the status line of a coding agent, billed by what is measured.
--
-- The parts and how they interact. The daemon on the user's machine (packages/cli) runs the turn
-- machine: it decides at each tick whether an ad is shown, and measures shows. Completed impressions
-- wait in a queue on the disk and go to the server (packages/server): the pipeline selects ads among
-- the campaigns, records their deliveries, takes in the reports, verifies them, and bills them in a
-- double-entry ledger.
-- Sponsors set part of their balance aside for pools, whose members see the pool's campaigns only.
-- Deposits fund advertisers, payouts leave the ledger for the chain, and are reversed where a
-- transfer fails. The rate limiter bounds how many impressions a publisher can report.
--
-- Files and sources:
--   Base          tests, lists, results of code that may throw, integers, maps with text keys
--   Thrown        what the modelled code throws (`MoneyError`, `LedgerError`, plain errors)
--   Money         packages/protocol/src/money.ts: `stroops`, `add`, `sub`, `neg`, `sum`,
--                 `splitRevenue`, `rateFromCpm`
--   Ledger        packages/server/src/ledger/: Accounts is accounts.ts, Store is memory-store.ts,
--                 Entry and Operations are ledger.ts; Billed is its
--                 `billedImpressions`; Validity, Keys, History, Replay, Retry and Effects hold
--                 the theorems
--   RateLimit     packages/server/src/http/rate-limit.ts: `take` and `#gc`
--   Turns         packages/cli/src/daemon/turns.ts: every event of `TurnMachine`; Shows, Mutex, Time,
--                 Run and Render hold the theorems
--   Ingest        packages/server/src/impressions/ingest.ts: `ImpressionIngest`; Versions is
--                 `compareVersions`, Nonces and Answers hold the theorems
--   PayoutRecords packages/server/src/payouts/store.ts: `MemoryPayoutStore` and
--                 `stateFromSettlement`; Evolution and Batches hold the theorems
--   Verify        packages/server/src/impressions/verify.ts: `Verifier`; Verdicts holds the theorem
--   Pipeline      packages/server/src/pipeline.ts: `Pipeline`. Serving is `serveAd`, Verification is
--                 `runVerification`; Sums, Reservations, Reported, Paid and Final hold the theorems
--   Selector      packages/server/src/ads/selector.ts: `AdSelector`; Filters, Rivals, Tours, Turn,
--                 Prices, Served, Choice, Serves and Slots hold the theorems
--   Campaigns     packages/server/src/ads/campaign-store.ts: `CampaignStore`; Creation and Status
--                 hold the theorems
--   Pools         packages/server/src/pools/: pool-store.ts and reserve.ts; Codes, Closing, Members
--                 and Reserve hold the theorems
--   Wallets       packages/payments/src/wallet.ts: `WalletStore`; Histories, Waiting and Holds hold
--                 the theorems
--   Queue         packages/cli/src/daemon/queue.ts: `ImpressionQueue`; Refinement holds the theorem
--   Sanitize      packages/protocol/src/sanitize.ts; Lines is `renderAdLine`, Widths and Clean hold
--                 the theorems
--
-- Choices. A `bigint` is an integer without bound, and `stroops` is the check for an `int64`, as in
-- the source. There is one asset, USDC, so the tests on it are left out. Times are numbers of
-- milliseconds; differences that the source takes signed are compared as sums. Injected clocks, id
-- generators, configurations and ad sources are parameters: a record that each call is given. A
-- throw is a value beside the state, since what was written before it stays; only the selector and
-- `serveAd` give no state where they throw. Loops are recursion on
-- the list they run over; the five rounds that draw the code of a pool are fuel, as in the source.
-- Notes of reversals are left out: the source drops them too. Functions of texts that go by the
-- tables of Unicode (case, normal form, letters) are parameters, and so is floating-point arithmetic.
-- A sort is a stable insertion. Copies for the disk are left out.
--
-- Not modelled: the other reports of the ledger, withdrawals, the proofs of a wallet, the
-- daemon's sync, the leaderboard; and input and output (HTTP, SQL, sockets, the chain).
pub mod Base
pub mod Thrown
pub mod Money
pub mod Ledger
pub mod RateLimit
pub mod Turns
pub mod Campaigns
pub mod Ingest
pub mod PayoutRecords
pub mod Pipeline
pub mod Pools
pub mod Queue
pub mod Sanitize
pub mod Selector
pub mod Verify
pub mod Wallets
