-- ===== src/Postgres/AntiSnipe.antt =====
-- AppendBidIdempotentWithAntiSnipe of internal/store/postgres/anti_snipe.go, and the event that
-- it inserts, internal/store/postgres/outbox_event.go.
pub mod Effects
pub mod Retry
pub mod Replay
pub mod Extension
pub mod Announcement
pub mod Accept
use bid_lane.Prelude.{ℕ, Option, none, some, Bool, true, false, not, ◌==◌, if◌then◌else◌}
use bid_lane.Prelude.Int.{ℤ, pos}
use bid_lane.Go.Int64.{add64}
use bid_lane.Go.Time.{Time, is_zero, before}
use bid_lane.Postgres.Schema.{Db, Payload}
use bid_lane.Postgres.Statements.{
  BidToPersist, select_auction, select_bid, insert_sequence, select_sequence,
  insert_bid_on_conflict, update_sequence, extend_auction, insert_outbox,
}
use bid_lane.Postgres.RowLock.{AppendBidResult}
use bid_lane.Postgres.Transaction.{
  Call, Service, Error, submission_time_required, bid_at_or_after_close, lock_auction_failed,
  check_existing_failed, ensure_sequence_failed, lock_sequence_failed, insert_bid_failed,
  read_existing_failed, advance_sequence_failed, extend_failed, insert_outbox_failed, advanced_rows,
  inserted_rows, commit_bid_failed, commit_duplicate_failed, Result, ok, err, Tx, ◌>>=◌, pure,
  raise, expect_one, run, require, transact, lock_auction, check_existing, ensure_sequence,
  lock_sequence, insert_bid, read_existing, advance_sequence, extend,
}

pub record AntiSnipeAppendResult : Type 0 where
  pub result : AppendBidResult
  pub extended : Bool
  pub effective_close_time : Time
  pub extension_count : ℕ

-- The arguments of insertBidAcceptedOutbox, as its statement builds the payload of them.
abbrev pub payload_of : BidToPersist → ℤ → Time → Time → Bool → ℕ → Payload
payload_of bid n submitted_at close extended count = record {
  auction_id = bid.auction_id;
  sequence_no = n;
  bidder_id = bid.bidder_id;
  amount = bid.amount;
  idempotency_key = bid.idempotency_key;
  stream_entry_id = bid.stream_entry_id;
  correlation_id = bid.correlation_id;
  submitted_at = submitted_at;
  effective_close_time = close;
  extended = extended;
  extension_count = count;
}

-- insertBidAcceptedOutbox
unfoldable pub insert_bid_accepted_outbox : Service → Payload → Tx (Unit {0})
insert_bid_accepted_outbox s payload = do
  rows ← run s Call.insert_outbox insert_outbox_failed (insert_outbox s.new_id s.now payload)
  expect_one rows (inserted_rows rows)

abbrev pub duplicate : ℤ → Time → ℕ → AntiSnipeAppendResult
duplicate n close count = record {
  result = record { sequence_number = n; inserted = false };
  extended = false;
  effective_close_time = close;
  extension_count = count;
}

-- The extension of the auction: what the UPDATE returned, or the values that were locked.
abbrev pub extension : Option (Time × ℕ) → Time → ℕ → Bool × Time × ℕ
extension none close count = (false, close, count)
extension (some (close', count')) close count = (true, close', count')

-- From the UPDATE of the counter on, after a new row has been inserted.
unfoldable pub finish_new :
    Service → BidToPersist → Time → Time → ℕ → ℤ → ℤ → ℤ → Tx (AntiSnipeAppendResult × Error)
finish_new s bid submitted_at close count last next inserted_sequence = do
  rows ←
      run s Call.advance_sequence advance_sequence_failed (update_sequence bid.auction_id next last)
  _ ← expect_one rows (advanced_rows rows)
  row ← run s Call.extend extend_failed (extend_auction bid.auction_id submitted_at)
  let (extended, close', count') = extension row close count
  _ ←
      insert_bid_accepted_outbox s
        (payload_of bid inserted_sequence submitted_at close' extended count')
  pure (
    record {
      result = record { sequence_number = inserted_sequence; inserted = true };
      extended = extended;
      effective_close_time = close';
      extension_count = count';
    },
    commit_bid_failed,
  )

-- The branch of the INSERT that met a row with the bid's key.
unfoldable pub observe_duplicate :
    Service → BidToPersist → Time → ℕ → Tx (AntiSnipeAppendResult × Error)
observe_duplicate s bid close count = do
  row ←
      run s Call.read_existing read_existing_failed (select_bid bid.auction_id bid.idempotency_key)
  n ← require read_existing_failed row
  pure (duplicate n close count, commit_duplicate_failed)

-- From the number that the counter holds on.
unfoldable pub insert_new :
    Service → BidToPersist → Time → Time → ℕ → ℤ → Tx (AntiSnipeAppendResult × Error)
insert_new s bid submitted_at close count last = do
  let next = add64 last (pos 1)
  inserted ← run s Call.insert_bid insert_bid_failed (insert_bid_on_conflict bid next)
  elim inserted [
    | none ↦ observe_duplicate s bid close count
    | some n ↦ finish_new s bid submitted_at close count last next n
  ]

-- From the check of the submission time on.
unfoldable pub append_new :
    Service → BidToPersist → Time → Time → ℕ → Tx (AntiSnipeAppendResult × Error)
append_new s bid submitted_at close count =
    if not (before submitted_at close) then raise bid_at_or_after_close else do
      _ ← run s Call.ensure_sequence ensure_sequence_failed (insert_sequence bid.auction_id)
      row ← run s Call.lock_sequence lock_sequence_failed (select_sequence bid.auction_id)
      last ← require lock_sequence_failed row
      insert_new s bid submitted_at close count last

-- The body of the transaction.
unfoldable pub append_body : Service → BidToPersist → Time → Tx (AntiSnipeAppendResult × Error)
append_body s bid submitted_at = do
  row ← run s Call.lock_auction lock_auction_failed (select_auction bid.auction_id)
  (close, count) ← require lock_auction_failed row
  existing ←
      run s Call.check_existing check_existing_failed
        (select_bid bid.auction_id bid.idempotency_key)
  elim existing [
    | some n ↦ pure (duplicate n close count, commit_duplicate_failed)
    | none ↦ append_new s bid submitted_at close count
  ]

-- AppendBidIdempotentWithAntiSnipe
unfoldable pub append_bid_idempotent_with_anti_snipe :
    Service → BidToPersist → Time → Db → Result AntiSnipeAppendResult × Db
unfolding transact
append_bid_idempotent_with_anti_snipe s bid submitted_at db =
    if is_zero submitted_at
    then (err submission_time_required, db)
    else transact s (append_body s bid submitted_at) db
