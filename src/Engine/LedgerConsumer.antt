-- ===== src/Engine/LedgerConsumer.antt =====
-- internal/engine/ledger_consumer.go: entries of the stream are validated, recorded in the ledger
-- and then acknowledged.
mod Types
pub mod Safety
pub mod Delivery
pub mod Entry
pub mod Loops
pub mod Redelivery
pub mod Persisted
pub mod Sample
mod Tests
pub use Types.*
use bid_lane.Prelude.{
  ℕ, zero, suc, ◌+◌, ◌-◌, ◌∷◌, [], List, Option, none, some, Text, codes, is_empty, text_eq, Bool,
  true, false, not, ◌&&◌, ltb, if◌then◌else◌,
}
use bid_lane.Prelude.Int.{ℤ, pos, leb_ℤ, ltb_ℤ}
use bid_lane.Go.Time.{Time}
use bid_lane.Engine.Validation.{BidValidationResult}
use bid_lane.Postgres.Schema.{Uuid, Db}
use bid_lane.Postgres.Statements.{BidToPersist}
use bid_lane.Postgres.Transaction as Transaction
use bid_lane.Postgres.Transaction.{Service, Result}
use bid_lane.Postgres.RowLock.{AppendBidResult}
use bid_lane.Postgres.AntiSnipe.{AntiSnipeAppendResult, append_bid_idempotent_with_anti_snipe}
use bid_lane.Redis.Message.{BidStreamEntry}
use bid_lane.Redis.StreamId.{TimeResult, at, fails, stream_entry_time}
use bid_lane.Redis.Client.{RedisClient}
use bid_lane.Redis.Streams as Streams
use bid_lane.Redis.Streams.{
  StreamStore, Outcome, StreamError, ensure_consumer_group, read_group, ack, auto_claim_pending,
}

module _ {R E : Type 0} (client : RedisClient R) (parse_uuid : Text → Option Uuid)
    (next_service : E → Service × E) (config : LedgerConsumerConfig E) where
  streams : StreamStore R
  streams = record { client = some client }

  -- The bid of an entry, once its fields are read.
  unfoldable pub read_entry : BidStreamEntry → Attempt (BidToPersist × Time)
  read_entry entry = do
    _ ←
        (if not (text_eq entry.auction_id config.auction_id)
          then failed auction_mismatch
          else done tt)
    a ← or_fail bad_auction_id (parse_uuid entry.auction_id)
    b ← or_fail bad_bidder_id (parse_uuid entry.bidder_id)
    k ← or_fail bad_idempotency_key (parse_uuid entry.idempotency_key)
    t ← time_of (stream_entry_time entry.id)
    done (
      record {
        auction_id = a;
        bidder_id = b;
        amount = entry.amount;
        idempotency_key = k;
        stream_entry_id = entry.id;
        correlation_id = entry.correlation_id;
      },
      t,
    )

  recorded : E → Result AntiSnipeAppendResult × Db → R → Attempt AppendBidResult × World R E
  recorded e (Transaction.ok r, db) redis =
      (done r.result, record { redis = redis; db = db; env = e })
  recorded e (Transaction.err x, db) redis =
      (failed (not_recorded x), record { redis = redis; db = db; env = e })

  persist_read : Attempt (BidToPersist × Time) → World R E → Attempt AppendBidResult × World R E
  unfolding recorded
  persist_read (failed x) w = (failed x, w)
  persist_read (done (bid, t)) w =
      let (service, e) = next_service w.env in
      recorded e (append_bid_idempotent_with_anti_snipe service bid t w.db) w.redis

  -- persistEntry
  unfoldable pub persist_entry : BidStreamEntry → World R E → Attempt AppendBidResult × World R E
  unfolding read_entry persist_read
  persist_entry entry w = persist_read (read_entry entry) w

  acked :
      (StreamError → ConsumerError)
      → World R E
      → Outcome (Unit {0}) × R
      → Option ConsumerError × World R E
  acked wrap w (Streams.ok _, redis) = (none, record w { redis = redis })
  acked wrap w (Streams.err x, redis) = (some (wrap x), record w { redis = redis })

  pub ack_entry :
      (StreamError → ConsumerError) → BidStreamEntry → World R E → Option ConsumerError × World R E
  unfolding acked streams
  ack_entry wrap entry w =
      acked wrap w (ack streams config.auction_id config.group (entry.id ∷ []) w.redis)

  -- The two hooks between the commit and the acknowledgement.
  after_persist :
      Option (BidStreamEntry → AppendBidResult → E → E)
      → BidStreamEntry
      → AppendBidResult
      → World R E
      → World R E
  after_persist none entry result w = w
  after_persist (some hook) entry result w = record w { env = hook entry result w.env }

  hooked : BidStreamEntry → World R E → Option Text × E → Option ConsumerError × World R E
  unfolding ack_entry
  hooked entry w (some x, e) = (some (before_ack_failed x), record w { env = e })
  hooked entry w (none, e) = ack_entry ack_failed entry (record w { env = e })

  before_ack_then_ack :
      Option (BidStreamEntry → E → Option Text × E)
      → BidStreamEntry
      → World R E
      → Option ConsumerError × World R E
  unfolding hooked
  before_ack_then_ack none entry w = ack_entry ack_failed entry w
  before_ack_then_ack (some hook) entry w = hooked entry w (hook entry w.env)

  pub after_persisting :
      BidStreamEntry → Attempt AppendBidResult × World R E → Option ConsumerError × World R E
  unfolding after_persist before_ack_then_ack
  after_persisting entry (failed x, w) = (some x, w)
  after_persisting entry (done result, w) =
      before_ack_then_ack config.before_ack entry
        (after_persist config.after_persist_before_ack entry result w)

  -- The part of the loop of processEntries behind the validation.
  persist_and_ack : BidStreamEntry → World R E → Option ConsumerError × World R E
  unfolding persist_entry after_persisting
  persist_and_ack entry w = after_persisting entry (persist_entry entry w)

  judged : BidStreamEntry → World R E → Validation × E → Option ConsumerError × World R E
  unfolding ack_entry persist_and_ack
  judged entry w (validation_error x, e) = (some (validation_failed x), record w { env = e })
  judged entry w (validated v, e) =
      if not v.accepted
      then ack_entry ack_rejected_failed entry (record w { env = e })
      else persist_and_ack entry (record w { env = e })

  checked :
      Option (BidStreamEntry → E → Validation × E)
      → BidStreamEntry
      → World R E
      → Option ConsumerError × World R E
  unfolding judged persist_and_ack
  checked none entry w = persist_and_ack entry w
  checked (some validate) entry w = judged entry w (validate entry w.env)

  -- One round of the loop of processEntries; no error means that `processed` goes up.
  unfoldable pub process_entry : BidStreamEntry → World R E → Option ConsumerError × World R E
  unfolding checked
  process_entry entry w = checked config.validate_entry entry w

  -- processEntries, from a number of entries that are processed.
  unfoldable pub process_entries :
      List BidStreamEntry → ℕ → World R E → ℕ × Option ConsumerError × World R E
  process_entries [] processed w = (processed, none, w)
  process_entries (entry ∷ entries) processed w =
      let y = process_entry entry w in
      elim y.0 [
        | some x ↦ (processed, some x, y.1)
        | none ↦ process_entries entries (processed + 1) y.1
      ]

  read_then_process :
      World R E → Outcome (List BidStreamEntry) × R → ℕ × Option ConsumerError × World R E
  unfolding process_entries
  read_then_process w (Streams.err x, redis) = (0, some (read_failed x), record w { redis = redis })
  read_then_process w (Streams.ok entries, redis) =
      process_entries entries 0 (record w { redis = redis })

  -- processBatch
  unfoldable pub process_batch : ℤ → World R E → ℕ × Option ConsumerError × World R E
  unfolding read_then_process streams
  process_batch count w = read_then_process w (
      read_group streams config.auction_id config.group config.consumer count config.block_period
        w.redis)
