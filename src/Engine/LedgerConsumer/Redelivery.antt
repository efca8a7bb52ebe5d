-- ===== src/Engine/LedgerConsumer/Redelivery.antt =====
-- The recovery from a crash between the commit and the acknowledgement: the entry is delivered again.
use bid_lane.Prelude.{◌≡◌, ◌≢◌, ◌∙◌, ap, refl, ◌∷◌, [], ℕ, Option, none, some, Text, false}
use bid_lane.Prelude.Int.{ℤ}
use bid_lane.Go.Time.{Time}
use bid_lane.Postgres.Schema.{Uuid, Auction, find_auction, find_bid}
use bid_lane.Postgres.Statements.{BidToPersist}
use bid_lane.Postgres.Transaction.{Service}
use bid_lane.Postgres.RowLock.{AppendBidResult}
use bid_lane.Postgres.AntiSnipe.Retry.{IsQuiet, replay_answers}
use bid_lane.Redis.Message.{BidStreamEntry}
use bid_lane.Redis.Client.{RedisClient, reply}
use bid_lane.Redis.Streams.{stream_key, StreamError}
use bid_lane.Redis.Streams.Inversion.{ack_ok}
use bid_lane.Redis.StreamId.{stream_entry_time_sound}
use bid_lane.Engine.LedgerConsumer.Entry.Read.{read_entry_sound}
use bid_lane.Engine.LedgerConsumer.{
  done, LedgerConsumerConfig, ConsumerError, ack_failed, Validation, World, read_entry, recorded,
  persist_read, persist_entry, ack_entry, after_persist, before_ack_then_ack, after_persisting,
  persist_and_ack, process_entry, checked,
}

module _ {R E : Type 0} (client : RedisClient R) (parse_uuid : Text → Option Uuid)
    (next_service : E → Service × E) (config : LedgerConsumerConfig E) where
  unchecked :
      (validate : Option (BidStreamEntry → E → Validation × E)) (entry : BidStreamEntry)
      (w : World R E)
      → validate ≡ none
      → checked client parse_uuid next_service config validate entry w
        ≡ persist_and_ack client parse_uuid next_service config entry w
  unfolding checked
  unchecked none entry w e = refl
  unchecked (some v) entry w e = cc

  no_hooks :
      (hook : Option (BidStreamEntry → E → Option Text × E)) (entry : BidStreamEntry)
      (w : World R E)
      → hook ≡ none
      → before_ack_then_ack client parse_uuid next_service config hook entry w
        ≡ ack_entry client parse_uuid next_service config ack_failed entry w
  unfolding before_ack_then_ack
  no_hooks none entry w e = refl
  no_hooks (some h) entry w e = cc

  no_callback :
      (hook : Option (BidStreamEntry → AppendBidResult → E → E)) (entry : BidStreamEntry)
      (result : AppendBidResult) (w : World R E)
      → hook ≡ none
      → after_persist client parse_uuid next_service config hook entry result w ≡ w
  unfolding after_persist
  no_callback none entry result w e = refl
  no_callback (some h) entry result w e = cc

  -- The acknowledgement of an entry, by what XACK answers.
  ack_entry_ok :
      (wrap : StreamError → ConsumerError) (entry : BidStreamEntry) (w : World R E) (k : ℕ) (r : R)
      → config.auction_id ≢ []
      → config.group ≢ []
      → client.x_ack (stream_key config.auction_id) config.group (entry.id ∷ []) w.redis
        ≡ (reply k, r)
      → ack_entry client parse_uuid next_service config wrap entry w
        ≡ (none, record w { redis = r })
  unfolding ack_entry
  ack_entry_ok wrap entry w k r ha hg answer =
      rw (ack_ok client config.auction_id config.group entry.id k w.redis r ha hg answer) refl

  -- A round of a consumer without a validator and hooks, once persistEntry has a result and XACK
  -- answers.
  pub process_entry_persisted :
      (entry : BidStreamEntry) (result : AppendBidResult) (w w1 : World R E) (k : ℕ) (r : R)
      → config.validate_entry ≡ none
      → config.after_persist_before_ack ≡ none
      → config.before_ack ≡ none
      → config.auction_id ≢ []
      → config.group ≢ []
      → persist_entry client parse_uuid next_service config entry w ≡ (done result, w1)
      → client.x_ack (stream_key config.auction_id) config.group (entry.id ∷ []) w1.redis
        ≡ (reply k, r)
      → process_entry client parse_uuid next_service config entry w
        ≡ (none, record w1 { redis = r })
  unfolding process_entry persist_and_ack after_persisting after_persist
  process_entry_persisted entry result w w1 k r hv hp hb ha hg persisted answer =
      unchecked config.validate_entry entry w hv
      ∙ ap (after_persisting client parse_uuid next_service config entry) persisted
      ∙ ap (before_ack_then_ack client parse_uuid next_service config config.before_ack entry)
          (no_callback config.after_persist_before_ack entry _ w1 hp)
      ∙ no_hooks config.before_ack entry w1 hb
      ∙ ack_entry_ok ack_failed entry w1 k r ha hg answer

  -- persistEntry, where the bid is on record: its number, and no change of the tables.
  persist_entry_recorded :
      (entry : BidStreamEntry) (bid : BidToPersist) (t : Time) (w : World R E) (row : Auction)
      (n : ℤ)
      → read_entry client parse_uuid next_service config entry ≡ done (bid, t)
      → IsQuiet (next_service w.env).0
      → find_auction bid.auction_id w.db.auctions ≡ some row
      → find_bid bid.auction_id bid.idempotency_key w.db.bids ≡ some n
      → persist_entry client parse_uuid next_service config entry w ≡ (
        done (record { sequence_number = n; inserted = false }),
        record w { env = (next_service w.env).1 },
      )
  unfolding persist_entry persist_read recorded
  persist_entry_recorded entry bid t w row n read quiet found present =
      let is_bid = read_entry_sound client parse_uuid next_service config entry bid t read in
      let (_, _, nonzero) = stream_entry_time_sound entry.id t is_bid.time in
      rw (read, replay_answers (next_service w.env).0 bid t w.db row n quiet nonzero found present)
        refl

  -- An entry whose bid is on record, delivered again (after a crash between commit and
  -- acknowledgement) to a consumer without a validator and hooks, is acknowledged, if nothing
  -- fails; the database stays as it is, also after the auction has closed.
  pub process_entry_redelivered :
      (entry : BidStreamEntry) (bid : BidToPersist) (t : Time) (w : World R E) (row : Auction)
      (n : ℤ) (k : ℕ) (r : R)
      → config.validate_entry ≡ none
      → config.after_persist_before_ack ≡ none
      → config.before_ack ≡ none
      → config.auction_id ≢ []
      → config.group ≢ []
      → read_entry client parse_uuid next_service config entry ≡ done (bid, t)
      → IsQuiet (next_service w.env).0
      → find_auction bid.auction_id w.db.auctions ≡ some row
      → find_bid bid.auction_id bid.idempotency_key w.db.bids ≡ some n
      → client.x_ack (stream_key config.auction_id) config.group (entry.id ∷ []) w.redis
        ≡ (reply k, r)
      → process_entry client parse_uuid next_service config entry w
        ≡ (none, record { redis = r; db = w.db; env = (next_service w.env).1 })
  process_entry_redelivered entry bid t w row n k r hv hp hb ha hg read quiet found present =
      process_entry_persisted entry _ w (record w { env = (next_service w.env).1 }) k r hv hp hb ha
        hg (persist_entry_recorded entry bid t w row n read quiet found present)
