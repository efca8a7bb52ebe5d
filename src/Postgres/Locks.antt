-- ===== src/Postgres/Locks.antt =====
-- Calls of AppendBidIdempotentWithAntiSnipe at the same time. Each holds the lock of its auction's row
-- from its SELECT … FOR UPDATE to its end; what it has seen of the tables may be old when it ends, as
-- other transactions commit meanwhile, and its commit publishes the rows of its auction.
pub mod Publish
pub mod Serial
pub mod Ledger
pub mod Linear
mod Tests
use bid_lane.Prelude.{
  refl, ◌≡◌, ◌≢◌, ◌∷◌, [], ◌++◌, List, Option, none, some, false, ◌==◌, not, arith, if◌then◌else◌,
}
use bid_lane.Postgres.Schema.{Uuid, Auction, Bid, AuctionSequence, OutboxRow, Db}
use bid_lane.Postgres.Statements.{has_id}
use bid_lane.Postgres.Transaction.{Result}
use bid_lane.Postgres.AntiSnipe.{AntiSnipeAppendResult, append_bid_idempotent_with_anti_snipe}
use bid_lane.Postgres.AuctionLog.Simulation.{Submission}
use bid_lane.Postgres.Isolation.{rows_of}

-- A transaction that holds a lock: its call, and the tables when it got the lock.
pub record Holder : Type 0 where
  pub call : Submission
  pub seen : Db

-- The committed tables, who holds the lock of each auction, and what the calls that have ended
-- returned, in the order of their ends.
pub record Server : Type 0 where
  pub tables : Db
  pub holders : Uuid → Option Holder
  pub answers : List (Result AntiSnipeAppendResult)

abbrev pub auction_of : Submission → Uuid
auction_of (s, bid, t) = bid.auction_id

abbrev pub holding : Uuid → Option Holder → (Uuid → Option Holder) → Uuid → Option Holder
holding a h holders b = if a == b then h else holders b

-- The rows of the other auctions.
unfoldable pub others_of : {A : Type 0} → (A → Uuid) → Uuid → List A → List A
others_of key a [] = []
others_of key a (r ∷ rows) =
    let rest = others_of key a rows in if key r == a then rest else r ∷ rest

abbrev pub published_rows : {A : Type 0} → (A → Uuid) → Uuid → List A → List A → List A
published_rows key a new old = others_of key a old ++ rows_of key a new

-- The tables with an auction's rows as a transaction has left them.
unfoldable pub publish : Uuid → Db → Db → Db
publish a new old = record {
  auctions = published_rows (λ (r : Auction). r.id) a new.auctions old.auctions;
  bids = published_rows (λ (r : Bid). r.auction_id) a new.bids old.bids;
  sequences = published_rows (λ (r : AuctionSequence). r.auction_id) a new.sequences old.sequences;
  outbox = published_rows (λ (r : OutboxRow). r.aggregate_id) a new.outbox old.outbox;
}

abbrev pub run_call : Submission → Db → Result AntiSnipeAppendResult × Db
run_call (s, bid, t) db = append_bid_idempotent_with_anti_snipe s bid t db

-- SELECT … FOR UPDATE gets the lock.
unfoldable pub locked : Submission → Server → Server
locked c srv = record srv {
  holders = holding (auction_of c) (some (record { call = c; seen = srv.tables })) srv.holders;
}

-- The end of a transaction, on what it has seen; the lock is free again.
unfoldable pub finished : Uuid → Holder → Server → Server
finished a h srv =
    let x = run_call h.call h.seen in
    record {
      tables = publish a x.1 srv.tables;
      holders = holding a none srv.holders;
      answers = srv.answers ++ x.0 ∷ [];
    }

abbrev pub HasNewId : Submission → Db → Type 0
HasNewId (s, bid, t) db = has_id s.new_id db.outbox ≡ false

-- The states that concurrent calls lead to, with the calls that have ended, in that order. Several
-- transactions may be open, one for each auction; gen_random_uuid() gives ids that no event has.
pub data Reach (tables : Db) : List Submission → Server → Type 0 where
  start : Reach tables [] (record { tables = tables; holders = λ _. none; answers = [] })
  lock :
      {ended : List Submission} {srv : Server} (c : Submission)
      → Reach tables ended srv
      → srv.holders (auction_of c) ≡ none
      → Reach tables ended (locked c srv)
  finish :
      {ended : List Submission} {srv : Server} (a : Uuid) (h : Holder)
      → Reach tables ended srv
      → srv.holders a ≡ some h
      → HasNewId h.call h.seen
      → HasNewId h.call srv.tables
      → Reach tables (ended ++ h.call ∷ []) (finished a h srv)
