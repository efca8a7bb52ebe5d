-- ===== src/Engine/LedgerConsumer/Entry.antt =====
-- What one round of processEntries does to Redis and to the database.
pub mod Acked
pub mod Read
pub mod Round
use bid_lane.Prelude.{
  ap, refl, subst, sym, ◌∙◌, ◌≡◌, ◌⊎◌, inl, inr, ◌∷◌, [], if◌then◌else◌, List, Option, none, some,
  Bool-cases, Text, false, not, text_eq, arith,
}
use bid_lane.Prelude.Int.{ℤ}
use bid_lane.Go.Time.{Time}
use bid_lane.Engine.Validation.{BidValidationResult}
use bid_lane.Postgres.Schema.{Uuid, Db, find_bid}
use bid_lane.Postgres.Statements.{BidToPersist}
use bid_lane.Postgres.Transaction as Transaction
use bid_lane.Postgres.Transaction.{Service, Result}
use bid_lane.Postgres.RowLock.{AppendBidResult}
use bid_lane.Postgres.AntiSnipe.{AntiSnipeAppendResult, append_bid_idempotent_with_anti_snipe}
use bid_lane.Postgres.AntiSnipe.Effects.{Effect, append-Effect}
use bid_lane.Postgres.AntiSnipe.Retry as Retry
use bid_lane.Redis.Message.{BidStreamEntry}
use bid_lane.Redis.StreamId.{TimeResult, at, fails, stream_entry_time}
use bid_lane.Redis.Client.{RedisClient}
use bid_lane.Redis.Streams.{stream_key, Outcome, StreamError, ack_state}
use bid_lane.Redis.Streams as Streams
use bid_lane.Engine.LedgerConsumer.{
  Attempt, done, failed, LedgerConsumerConfig, ConsumerError, Validation, validated,
  validation_error, World, read_entry, recorded, persist_read, persist_entry, acked, ack_entry,
  after_persist, before_ack_then_ack, after_persisting, persist_and_ack, judged, process_entry,
  checked, hooked, ◌>>=◌, or_fail, auction_mismatch, bad_auction_id, bad_bidder_id,
  bad_idempotency_key, time_of,
}

-- A call of AppendBidIdempotentWithAntiSnipe, and a sequence of such calls.
abbrev pub Submission : Type 0
Submission = Service × (BidToPersist × Time)

unfoldable pub submissions : List Submission → Db → Db
submissions [] db = db
submissions ((s, (bid, t)) ∷ calls) db =
    submissions calls (append_bid_idempotent_with_anti_snipe s bid t db).1

-- The entry's bid has a row in the ledger.
abbrev pub IsRecorded : (Text → Option Uuid) → BidStreamEntry → Db → Type 0
IsRecorded parse_uuid entry db =
    (a : Uuid) × (k : Uuid) × (n : ℤ) × (parse_uuid entry.auction_id ≡ some a)
    × (parse_uuid entry.idempotency_key ≡ some k)
    × (find_bid a k db.bids ≡ some n)

-- The bid and its time are those that the fields of the entry spell.
pub record IsBidOf (parse_uuid : Text → Option Uuid) (entry : BidStreamEntry) (bid : BidToPersist)
    (t : Time) : Type 0 where
  pub auction : parse_uuid entry.auction_id ≡ some bid.auction_id
  pub bidder : parse_uuid entry.bidder_id ≡ some bid.bidder_id
  pub key : parse_uuid entry.idempotency_key ≡ some bid.idempotency_key
  pub amount : bid.amount ≡ entry.amount
  pub stream_entry_id : bid.stream_entry_id ≡ entry.id
  pub correlation_id : bid.correlation_id ≡ entry.correlation_id
  pub time : stream_entry_time entry.id ≡ at t

-- The validator of the configuration turned the entry down.
abbrev pub IsRejected : {E : Type 0} → LedgerConsumerConfig E → BidStreamEntry → Type 0
IsRejected {E} config entry =
    (validate : BidStreamEntry → E → Validation × E) × (e : E) × (r : BidValidationResult)
    × (config.validate_entry ≡ some validate)
    × ((validate entry e).0 ≡ validated r)
    × (r.accepted ≡ false)

-- From w to w' Redis did not change, and the database only by submissions.
abbrev pub Reaches : {R E : Type 0} → World R E → World R E → Type 0
Reaches w w' = (w'.redis ≡ w.redis) × ((calls : List Submission) × (w'.db ≡ submissions calls w.db))

module _ {R E : Type 0} (client : RedisClient R) (parse_uuid : Text → Option Uuid)
    (config : LedgerConsumerConfig E) where
  -- An entry that needs nothing more: recorded, or turned down.
  abbrev pub IsSettled : BidStreamEntry → Db → Type 0
  IsSettled entry db = IsRecorded parse_uuid entry db ⊎ IsRejected config entry

  -- The round changes the database by submissions only, and Redis at most by an XACK of the entry,
  -- which is then settled; so it is if the round ends without an error.
  pub record EntryEffect (entry : BidStreamEntry) (w : World R E)
      (x : Option ConsumerError × World R E) : Type 0 where
    pub calls : List Submission
    pub database : x.1.db ≡ submissions calls w.db
    pub redis :
        (x.1.redis ≡ w.redis)
        ⊎ (IsSettled entry x.1.db
            × (x.1.redis
                ≡ (client.x_ack
                    (stream_key config.auction_id)
                    config.group
                    (entry.id ∷ [])
                    w.redis).1))
    pub success : x.0 ≡ none → IsSettled entry x.1.db
