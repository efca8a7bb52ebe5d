-- ===== src/Postgres/AuctionLog.antt =====
-- What the ledger promises of an auction, without tables, counters and numbers: a log of the bids
-- that were accepted, each known by its place, and the auction's row.
pub mod Places
pub mod Keys
pub mod Refinement
pub mod Simulation
mod Tests
use bid_lane.Prelude.{
  ℕ, zero, suc, ◌+◌, [], ◌∷◌, ◌++◌, List, length, Option, none, some, Bool, not, ◌==◌, Text,
  if◌then◌else◌,
}
use bid_lane.Prelude.Int.{ℤ}
use bid_lane.Go.Time.{Time, before}
use bid_lane.Postgres.Schema.{Uuid, Auction}
use bid_lane.Postgres.Statements.{BidToPersist, eligible, extended_row}

pub record LogEntry : Type 0 where
  pub bidder_id : Uuid
  pub amount : ℤ
  pub idempotency_key : Uuid
  pub stream_entry_id : Text

pub record AuctionLog : Type 0 where
  pub row : Auction
  pub entries : List LogEntry

abbrev pub entry_of : BidToPersist → LogEntry
entry_of bid = record {
  bidder_id = bid.bidder_id;
  amount = bid.amount;
  idempotency_key = bid.idempotency_key;
  stream_entry_id = bid.stream_entry_id;
}

abbrev pub one_more : Option ℕ → Option ℕ
one_more none = none
one_more (some n) = some (suc n)

-- The place of a key, from 1 on.
unfoldable pub place : Uuid → List LogEntry → Option ℕ
place key [] = none
place key (e ∷ entries) = if e.idempotency_key == key then some 1 else one_more (place key entries)

-- Placed at the end, with the auction's close time and extension count; met at its place; or too late.
pub data Verdict : Type 0 where
  placed : ℕ → Bool → Time → ℕ → Verdict
  met : ℕ → Time → ℕ → Verdict
  closed : Verdict

-- An auction is extended by a bid in its last window, while extensions are left.
unfoldable pub after_bid : Time → Auction → Auction
after_bid t row = if eligible t row then extended_row row else row

abbrev pub accept : BidToPersist → Time → AuctionLog → Verdict × AuctionLog
accept bid t log =
    let row = after_bid t log.row in
    (
      placed (length log.entries + 1) (eligible t log.row) row.effective_close_time
          row.extension_count,
      record { row = row; entries = log.entries ++ entry_of bid ∷ [] },
    )

abbrev pub verdict_on : Option ℕ → BidToPersist → Time → AuctionLog → Verdict × AuctionLog
verdict_on (some n) bid t log = (met n log.row.effective_close_time log.row.extension_count, log)
verdict_on none bid t log =
    if not (before t log.row.effective_close_time) then (closed, log) else accept bid t log

-- The submission of a bid.
unfoldable pub submit : BidToPersist → Time → AuctionLog → Verdict × AuctionLog
submit bid t log = verdict_on (place bid.idempotency_key log.entries) bid t log
