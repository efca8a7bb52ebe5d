-- ===== src/Engine/LedgerConsumer/Types.antt =====
-- The configuration, the errors and the state of the ledger consumer.
use bid_lane.Prelude.{Option, none, some, Text}
use bid_lane.Prelude.Int.{ℤ}
use bid_lane.Go.Time.{Time}
use bid_lane.Engine.Validation.{BidValidationResult}
use bid_lane.Postgres.Schema.{Db}
use bid_lane.Postgres.Transaction as Transaction
use bid_lane.Postgres.RowLock.{AppendBidResult}
use bid_lane.Redis.Message.{BidStreamEntry}
use bid_lane.Redis.StreamId.{StreamIdError, TimeResult, at, fails}
use bid_lane.Redis.Streams.{StreamError}

-- What the callback ValidateEntry returns.
pub data Validation : Type 0 where
  validated : BidValidationResult → Validation
  validation_error : Text → Validation

-- LedgerConsumerConfig; the callbacks act on a state E of their own.
pub record LedgerConsumerConfig (E : Type 0) : Type 0 where
  pub auction_id : Text
  pub group : Text
  pub consumer : Text
  pub batch_size : ℤ
  pub block_period : ℤ
  pub validate_entry : Option (BidStreamEntry → E → Validation × E)
  pub recovery_min_idle : ℤ
  pub recovery_batch_size : ℤ
  pub after_persist_before_ack : Option (BidStreamEntry → AppendBidResult → E → E)
  pub before_ack : Option (BidStreamEntry → E → Option Text × E)

pub data ConsumerError : Type 0 where
  auction_id_required group_required consumer_required batch_size_not_positive : ConsumerError
  recovery_batch_not_positive expected_count_not_positive : ConsumerError
  ensure_group_failed read_failed claim_failed ack_failed ack_rejected_failed :
      StreamError → ConsumerError
  validation_failed before_ack_failed cursor_stuck : Text → ConsumerError
  auction_mismatch bad_auction_id bad_bidder_id bad_idempotency_key : ConsumerError
  bad_stream_id : StreamIdError → ConsumerError
  not_recorded : Transaction.Error → ConsumerError
  recover_failed : ConsumerError → ConsumerError

-- A value, or the error that the code returns in its place.
pub data Attempt (A : Type 0) : Type 0 where
  done : A → Attempt A
  failed : ConsumerError → Attempt A

infixl 5 ◌>>=◌
abbrev pub ◌>>=◌ : {A B : Type 0} → Attempt A → (A → Attempt B) → Attempt B
done a >>= f = f a
failed x >>= f = failed x

-- `if x, err := …; err != nil { return … }`
abbrev pub or_fail : {A : Type 0} → ConsumerError → Option A → Attempt A
or_fail x none = failed x
or_fail x (some a) = done a

abbrev pub time_of : TimeResult → Attempt Time
time_of (fails e) = failed (bad_stream_id e)
time_of (at t) = done t

-- Redis, the database, and the rest that the consumer meets: the callbacks' state, and what the
-- database service will do.
pub record World (R E : Type 0) : Type 0 where
  pub redis : R
  pub db : Db
  pub env : E

-- Where a loop stands after some rounds: it goes on, or it has returned.
pub data Progress : Type 0 where
  running : Progress
  returned : Option ConsumerError → Progress
