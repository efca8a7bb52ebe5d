-- ===== src/Postgres/RowLock.antt =====
-- AppendBidIdempotentRowLock and AppendBidRowLock of internal/store/postgres/ledger.go.
pub mod Effects
use bid_lane.Prelude.{ℕ, Option, none, some, Bool, true, false, not, ◌==◌, if◌then◌else◌}
use bid_lane.Prelude.Int.{ℤ, pos}
use bid_lane.Go.Int64.{add64}
use bid_lane.Go.Time.{Time, is_zero, before}
use bid_lane.Postgres.Schema.{Db, Payload}
use bid_lane.Postgres.Statements.{
  BidToPersist, select_auction, select_bid, insert_sequence, select_sequence,
  insert_bid_on_conflict, update_sequence, extend_auction, insert_outbox,
}
use bid_lane.Postgres.Transaction.{
  Call, Service, Error, submission_time_required, bid_at_or_after_close, lock_auction_failed,
  check_existing_failed, ensure_sequence_failed, lock_sequence_failed, insert_bid_failed,
  read_existing_failed, advance_sequence_failed, extend_failed, insert_outbox_failed, advanced_rows,
  inserted_rows, commit_bid_failed, commit_duplicate_failed, Result, ok, err, Tx, ◌>>=◌, pure,
  raise, expect_one, run, require, transact, lock_auction, check_existing, ensure_sequence,
  lock_sequence, insert_bid, read_existing, advance_sequence, extend,
}

-- AppendBidResult
pub record AppendBidResult : Type 0 where
  pub sequence_number : ℤ
  pub inserted : Bool

-- From the UPDATE of the counter on, after a new row has been inserted.
unfoldable pub advance : Service → BidToPersist → ℤ → ℤ → ℤ → Tx (AppendBidResult × Error)
advance s bid last next inserted_sequence = do
  rows ←
      run s Call.advance_sequence advance_sequence_failed (update_sequence bid.auction_id next last)
  _ ← expect_one rows (advanced_rows rows)
  pure (record { sequence_number = inserted_sequence; inserted = true }, commit_bid_failed)

-- The branch of the INSERT that met a row with the bid's key.
unfoldable pub observe : Service → BidToPersist → Tx (AppendBidResult × Error)
observe s bid = do
  row ←
      run s Call.read_existing read_existing_failed (select_bid bid.auction_id bid.idempotency_key)
  n ← require read_existing_failed row
  pure (record { sequence_number = n; inserted = false }, commit_duplicate_failed)

-- From the number that the counter holds on.
unfoldable pub insert_locked : Service → BidToPersist → ℤ → Tx (AppendBidResult × Error)
insert_locked s bid last = do
  let next = add64 last (pos 1)
  inserted ← run s Call.insert_bid insert_bid_failed (insert_bid_on_conflict bid next)
  elim inserted [ none ↦ observe s bid | some n ↦ advance s bid last next n ]

-- The body of the transaction.
unfoldable pub row_lock_body : Service → BidToPersist → Tx (AppendBidResult × Error)
row_lock_body s bid = do
  _ ← run s Call.ensure_sequence ensure_sequence_failed (insert_sequence bid.auction_id)
  row ← run s Call.lock_sequence lock_sequence_failed (select_sequence bid.auction_id)
  last ← require lock_sequence_failed row
  insert_locked s bid last

-- AppendBidIdempotentRowLock
unfoldable pub append_bid_idempotent_row_lock :
    Service → BidToPersist → Db → Result AppendBidResult × Db
unfolding transact
append_bid_idempotent_row_lock s bid db = transact s (row_lock_body s bid) db

-- AppendBidRowLock
pub append_bid_row_lock : Service → BidToPersist → Db → Result ℤ × Db
append_bid_row_lock s bid db =
    let (result, db') = append_bid_idempotent_row_lock s bid db in
    elim result [ ok r ↦ (ok r.sequence_number, db') | err e ↦ (err e, db') ]
