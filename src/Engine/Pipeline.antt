-- ===== src/Engine/Pipeline.antt =====
-- From the reservation of a bid in engine/service.go to its row in the ledger, through the stream.
pub mod Published
mod Tests
use bid_lane.Prelude.{
  ℕ, suc, ◌<◌, ◌^◌, refl, ap, subst, sym, ◌∙◌, ◌≡◌, ◌≢◌, [], ◌∷◌, length, Option, none, some, Text,
  text_eq, text_eq_refl, not, true, false, if◌then◌else◌, arith,
}
use bid_lane.Prelude.Int.{ℤ, pos, ◌≤ℤ◌, leb_ℤ}
use bid_lane.Go.Int64.{IsInt64}
use bid_lane.Go.Time.{Time}
use bid_lane.Postgres.Schema.{Uuid, Db}
use bid_lane.Postgres.Statements.{BidToPersist, has_id}
use bid_lane.Postgres.Transaction as Transaction
use bid_lane.Postgres.Transaction.{Service, Result}
use bid_lane.Postgres.AntiSnipe.{AntiSnipeAppendResult, append_bid_idempotent_with_anti_snipe}
use bid_lane.Postgres.AntiSnipe.Retry.{IsQuiet}
use bid_lane.Postgres.AuctionLog.{AuctionLog, Verdict, placed, met, closed, submit}
use bid_lane.Postgres.AuctionLog.Refinement.{Views, IsSound, Answers, append-Implements}
use bid_lane.Redis.Message.{
  BidIngress, BidStreamEntry, Values, parsed, parse_message, parse_message-append, get_value,
  append_values,
}
use bid_lane.Redis.Client.{RedisClient, reply}
use bid_lane.Redis.Streams.{stream_key}
use bid_lane.Redis.Streams.Inversion.{IsComplete}
use bid_lane.Go.Strconv.{split_once}
use bid_lane.Redis.StreamId.{stream_entry_time, stream_entry_time_sound, at}
use bid_lane.Engine.LedgerConsumer.{LedgerConsumerConfig, ConsumerError, World, process_entry}
use bid_lane.Engine.LedgerConsumer.Persisted.{bid_of, read_entry_complete, persist_entry_ok}
use bid_lane.Engine.LedgerConsumer.Redelivery.{process_entry_persisted}
use bid_lane.Engine.Service.{
  Reservation, reserved, refused, ingress_of, reserve_bid_with_idempotency_key,
}
use bid_lane.Engine.Service.Effects.{
  service, ReservesWithKey, reserve_bid_with_idempotency_key-ReservesWithKey,
}

abbrev pub entry_with : Text → BidIngress → BidStreamEntry
entry_with id bid = record { id = id; ingress = bid }

-- A verdict other than `closed` is answered by a result.
answered :
    (v : Verdict) (x : Result AntiSnipeAppendResult)
    → v ≢ closed
    → Answers v x
    → (r : AntiSnipeAppendResult) × (x ≡ Transaction.ok r)
answered (placed n extended close count) x open_ h = (_, h)
answered (met n close count) x open_ h = (_, h)
answered closed x open_ h = absurd (open_ refl)

-- The amount of a bid that has everything.
complete_amount : (bid : BidIngress) → IsComplete bid → pos 1 ≤ℤ bid.amount
complete_amount bid (h1, h2, h3, h4, h5) = ground (arith, h3)

reserved-IsComplete :
    {R : Type 0} (client : RedisClient R) (parse_uuid : Text → Option Uuid) (bid : BidIngress)
    (r : R) (x : Reservation × R) (id : Text)
    → ReservesWithKey client parse_uuid bid r x
    → x.0 ≡ reserved id
    → IsComplete bid × ((k : Uuid) × (parse_uuid bid.idempotency_key ≡ some k))
reserved-IsComplete client parse_uuid bid r (reserved _, r') id h e = (h.1.0, h.0)
reserved-IsComplete client parse_uuid bid r (refused _, r') id h e = cc

-- An entry of the consumer's auction whose texts are read.
pub record IsReadable {E : Type 0} (parse_uuid : Text → Option Uuid)
    (config : LedgerConsumerConfig E) (entry : BidStreamEntry) (a b k : Uuid) (t : Time)
    : Type 0 where
  pub own : entry.auction_id ≡ config.auction_id
  pub auction : parse_uuid entry.auction_id ≡ some a
  pub bidder : parse_uuid entry.bidder_id ≡ some b
  pub key : parse_uuid entry.idempotency_key ≡ some k
  pub time : stream_entry_time entry.id ≡ at t

-- A consumer that has no validator and no hooks, for an auction and a group with a name.
pub record IsPlain {E : Type 0} (config : LedgerConsumerConfig E) : Type 0 where
  pub no_validator : config.validate_entry ≡ none
  pub no_callback : config.after_persist_before_ack ≡ none
  pub no_hook : config.before_ack ≡ none
  pub auction_named : config.auction_id ≢ []
  pub group_named : config.group ≢ []

-- The log of the auction in the tables, with room in it, and a database service that works.
pub record IsReady (a : Uuid) (s : Service) (db : Db) (log : AuctionLog) : Type 0 where
  pub sound : IsSound a db
  pub view : Views a db log
  pub room : suc (length log.entries) < 2 ^ 63
  pub quiet : IsQuiet s
  pub new_id : has_id s.new_id db.outbox ≡ false

has_an_id : (id : Text) (t : Time) → stream_entry_time id ≡ at t → id ≢ []
unfolding stream_entry_time split_once
has_an_id [] t h = λ e. cc
has_an_id (c ∷ id) t h = λ e. cc

module _ {R E : Type 0} (client : RedisClient R) (parse_uuid : Text → Option Uuid)
    (next_service : E → Service × E) (config : LedgerConsumerConfig E) where
  process_entry-Views :
      (entry : BidStreamEntry) (a b k : Uuid) (t : Time) (log : AuctionLog) (acked : ℕ) (r : R)
      (w : World R E)
      → IsPlain config
      → IsReadable parse_uuid config entry a b k t
      → IsReady a (next_service w.env).0 w.db log
      → pos 1 ≤ℤ entry.amount
      → (submit (bid_of entry a b k) t log).0 ≢ closed
      → client.x_ack (stream_key config.auction_id) config.group (entry.id ∷ []) w.redis
        ≡ (reply acked, r)
      → let x = process_entry client parse_uuid next_service config entry w in
        (x.0 ≡ none) × (x.1.redis ≡ r) × Views a x.1.db (submit (bid_of entry a b k) t log).1
  process_entry-Views entry a b k t log acked r w plain read ready positive open_ answer =
      let bid = bid_of entry a b k in
      let s = (next_service w.env).0 in
      let (_, _, nonzero) = stream_entry_time_sound entry.id t read.time in
      let (verdict, view) =
        append-Implements s ready.quiet bid t w.db log nonzero ready.sound ready.view ready.room
          positive ready.new_id in
      let (result, e) = answered (submit bid t log).0 _ open_ verdict in
      let taken =
        read_entry_complete client parse_uuid next_service config entry a b k t read.own
          read.auction read.bidder read.key read.time in
      let done_ =
        process_entry_persisted client parse_uuid next_service config entry result.result w _ acked
          r plain.no_validator plain.no_callback plain.no_hook plain.auction_named plain.group_named
          (persist_entry_ok client parse_uuid next_service config entry bid t w result taken e)
          answer in
      (
        ap (λ (x : Option ConsumerError × World R E). x.0) done_,
        ap (λ (x : Option ConsumerError × World R E). x.1.redis) done_,
        subst (λ (x : Option ConsumerError × World R E). Views a x.1.db (submit bid t log).1)
            (sym done_) view,
      )

  -- If ReserveBidWithIdempotencyKey returned an id, which is that of a time, for a bid with an int64
  -- amount, whose auction is the consumer's and whose auction and bidder are UUIDs: the key is a UUID,
  -- a message with that id and the fields that were sent is read as that bid, and the ledger
  -- consumer, without a validator and hooks and where nothing fails, acknowledges it and leaves the
  -- tables as the log of the auction says that the submission does, unless the log says that the
  -- auction has closed.
  pub reservation-Views :
      (bid : BidIngress) (r0 : R) (id : Text) (values : Values) (a b : Uuid) (t : Time)
      (log : AuctionLog) (acked : ℕ) (r : R) (w : World R E)
      → IsInt64 bid.amount
      → (reserve_bid_with_idempotency_key parse_uuid
          (service client)
          bid.auction_id
          bid.bidder_id
          bid.amount
          bid.idempotency_key
          bid.correlation_id
          r0).0
        ≡ reserved id
      → ((field : Text)
          → get_value field (append_values bid) ≢ none
          → get_value field values ≡ get_value field (append_values bid))
      → IsPlain config
      → bid.auction_id ≡ config.auction_id
      → parse_uuid bid.auction_id ≡ some a
      → parse_uuid bid.bidder_id ≡ some b
      → stream_entry_time id ≡ at t
      → IsReady a (next_service w.env).0 w.db log
      → ((k : Uuid)
          → parse_uuid bid.idempotency_key ≡ some k
          → (submit (bid_of (entry_with id bid) a b k) t log).0 ≢ closed)
      → client.x_ack (stream_key config.auction_id) config.group (id ∷ []) w.redis
        ≡ (reply acked, r)
      → let x = process_entry client parse_uuid next_service config (entry_with id bid) w in
        (parse_message (record { id = id; values = values }) ≡ parsed (entry_with id bid))
        × (x.0 ≡ none)
        × (x.1.redis ≡ r)
        × ((k : Uuid) × (parse_uuid bid.idempotency_key ≡ some k)
            × Views a x.1.db (submit (bid_of (entry_with id bid) a b k) t log).1)
  reservation-Views bid r0 id values a b t log acked r w int64 sent fields plain own auction bidder
        time ready open_ answer =
      let (complete, (k, key)) =
        reserved-IsComplete client parse_uuid bid r0 _ id
          (reserve_bid_with_idempotency_key-ReservesWithKey client parse_uuid bid.auction_id
            bid.bidder_id bid.amount bid.idempotency_key bid.correlation_id r0)
          sent in
      let read : IsReadable parse_uuid config (entry_with id bid) a b k t = record {
        own = own;
        auction = auction;
        bidder = bidder;
        key = key;
        time = time;
      } in
      let (no_error, redis, view) =
        process_entry-Views (entry_with id bid) a b k t log acked r w plain read ready
          (complete_amount bid complete) (open_ k key) answer in
      (
        parse_message-append id bid values (has_an_id id t time) int64 fields,
        no_error,
        redis,
        (k, key, view),
      )
