-- ===== src/Engine/LedgerConsumer/Entry/Read.antt =====
-- The bid that an entry is read as.
use bid_lane.Prelude.{refl, ◌≡◌, if◌then◌else◌, Option, none, some, Text, not, text_eq, arith}
use bid_lane.Go.Time.{Time}
use bid_lane.Postgres.Schema.{Uuid}
use bid_lane.Postgres.Statements.{BidToPersist}
use bid_lane.Postgres.Transaction.{Service}
use bid_lane.Redis.Message.{BidStreamEntry}
use bid_lane.Redis.StreamId.{TimeResult, at, fails, stream_entry_time}
use bid_lane.Redis.Client.{RedisClient}
use bid_lane.Engine.LedgerConsumer.{
  Attempt, done, failed, LedgerConsumerConfig, ConsumerError, read_entry, ◌>>=◌, or_fail,
  auction_mismatch, bad_auction_id, bad_bidder_id, bad_idempotency_key, time_of,
}
use bid_lane.Engine.LedgerConsumer.Entry.{IsBidOf}

module _ {R E : Type 0} (client : RedisClient R) (parse_uuid : Text → Option Uuid)
    (next_service : E → Service × E) (config : LedgerConsumerConfig E) where
  bind_sound :
      {A B : Type 0} (m : Attempt A) (f : A → Attempt B) (b : B)
      → (m >>= f) ≡ done b
      → (a : A) × (m ≡ done a) × (f a ≡ done b)
  bind_sound (done a) f b h = (a, refl, h)
  bind_sound (failed x) f b h = cc

  or_fail-some :
      {A : Type 0} (x : ConsumerError) (o : Option A) (a : A) → or_fail x o ≡ done a → o ≡ some a
  or_fail-some x none a h = cc
  or_fail-some x (some b) a h = cc

  time_of-at : (x : TimeResult) (t : Time) → time_of x ≡ done t → x ≡ at t
  time_of-at (at u) t h = cc
  time_of-at (fails e) t h = cc

  -- A bid that is read is the entry's.
  pub read_entry_sound :
      (entry : BidStreamEntry) (bid : BidToPersist) (t : Time)
      → read_entry client parse_uuid next_service config entry ≡ done (bid, t)
      → IsBidOf parse_uuid entry bid t
  unfolding read_entry
  read_entry_sound entry bid t h =
      let (_, _, h1) =
        bind_sound
          (if not (text_eq entry.auction_id config.auction_id)
            then failed auction_mismatch
            else done (tt {0}))
          _ (bid, t) h in
      let (a, ea, h2) =
        bind_sound (or_fail bad_auction_id (parse_uuid entry.auction_id)) _ (bid, t) h1 in
      let (b, eb, h3) =
        bind_sound (or_fail bad_bidder_id (parse_uuid entry.bidder_id)) _ (bid, t) h2 in
      let (k, ek, h4) =
        bind_sound (or_fail bad_idempotency_key (parse_uuid entry.idempotency_key)) _ (bid, t) h3 in
      let (time, et, h5) = bind_sound (time_of (stream_entry_time entry.id)) _ (bid, t) h4 in
      record {
        auction = ground (arith, or_fail-some _ _ a ea);
        bidder = ground (arith, or_fail-some _ _ b eb);
        key = ground (arith, or_fail-some _ _ k ek);
        amount = ground arith;
        stream_entry_id = ground arith;
        correlation_id = ground arith;
        time = ground (arith, time_of-at _ time et);
      }
