-- ===== src/Engine/Pipeline/Published.antt =====
-- From an entry of the stream to the receivers of its event: the ledger consumer, then the relay.
use bid_lane.Prelude.{
  ℕ, ◌≤◌, ◌*◌, refl, ap, subst, ◌≡◌, [], ◌∷◌, length, List, Any, Option, Text, Bool, true, ◌⊎◌,
}
use bid_lane.Prelude.Int.{ℤ, pos, ◌≤ℤ◌, pos_part}
use bid_lane.Go.Time.{Time}
use bid_lane.Postgres.Schema.{Uuid, Db}
use bid_lane.Postgres.Statements.{BidToPersist, outbox_row}
use bid_lane.Postgres.Transaction as Transaction
use bid_lane.Postgres.Transaction.{Service}
use bid_lane.Postgres.AntiSnipe.{
  AntiSnipeAppendResult, payload_of, append_bid_idempotent_with_anti_snipe,
}
use bid_lane.Postgres.AuctionLog.{AuctionLog, placed, submit}
use bid_lane.Postgres.AuctionLog.Refinement.{Answers, append-Implements}
use bid_lane.Postgres.Outbox.{RelayService, event_of}
use bid_lane.Postgres.Outbox.Queue.{HasIds, waiting_rows}
use bid_lane.Redis.Message.{BidStreamEntry}
use bid_lane.Redis.Client.{RedisClient, reply}
use bid_lane.Redis.Streams.{stream_key}
use bid_lane.Redis.StreamId.{stream_entry_time_sound}
use bid_lane.Engine.LedgerConsumer.{LedgerConsumerConfig, World, process_entry}
use bid_lane.Engine.LedgerConsumer.Persisted.{bid_of, read_entry_complete, persist_entry_ok}
use bid_lane.Engine.LedgerConsumer.Redelivery.{process_entry_persisted}
use bid_lane.Engine.Pipeline.{IsReadable, IsPlain, IsReady}
use bid_lane.Relay.{PublishedEvent, envelope_of, OutboxRelay, run_relay}
use bid_lane.Relay.Queue.{Delivers}
use bid_lane.Relay.Accepted.{accepted-IsReceived}

-- The envelope of the event of a bid that the log has placed.
abbrev pub envelope_for : Service → BidToPersist → Time → ℕ → Bool → Time → ℕ → PublishedEvent
envelope_for s bid t n extended close count =
    envelope_of
      (event_of (outbox_row s.new_id s.now (payload_of bid (pos n) t close extended count)))

abbrev placed_result : ℕ → Bool → Time → ℕ → AntiSnipeAppendResult
placed_result n extended close count = record {
  result = record { sequence_number = pos n; inserted = true };
  extended = extended;
  effective_close_time = close;
  extension_count = count;
}

module _ {R E F : Type 0} (client : RedisClient R) (parse_uuid : Text → Option Uuid)
    (next_service : E → Service × E) (config : LedgerConsumerConfig E)
    (marshal : PublishedEvent → Text ⊎ Text) (message : PublishedEvent → Text)
    (received : F → List Text) (relay : OutboxRelay F) (relay_service : F → RelayService × F)
    (cancelled : F → Bool) (wait : ℤ → F → Bool × F)
    (works : Delivers marshal message received relay relay_service cancelled wait) where
  -- An entry whose texts are read and whose bid the log of its auction places: where nothing fails
  -- in the ledger consumer, which has no validator and hooks, and then nothing around the relay,
  -- ids being a primary key, and Run of the relay makes rounds enough for the waiting events, the
  -- receivers have got the event of that bid, with the number, close time and extension that the
  -- log gave it.
  pub process_entry-IsReceived :
      (entry : BidStreamEntry) (a b k : Uuid) (t : Time) (log : AuctionLog) (n : ℕ)
      (extended : Bool) (close : Time) (count acked : ℕ) (r : R) (w : World R E) (rounds : ℕ)
      (f : F)
      → IsPlain config
      → IsReadable parse_uuid config entry a b k t
      → IsReady a (next_service w.env).0 w.db log
      → HasIds w.db.outbox
      → pos 1 ≤ℤ entry.amount
      → (submit (bid_of entry a b k) t log).0 ≡ placed n extended close count
      → client.x_ack (stream_key config.auction_id) config.group (entry.id ∷ []) w.redis
        ≡ (reply acked, r)
      → let x = process_entry client parse_uuid next_service config entry w in
        length (waiting_rows x.1.db.outbox) ≤ rounds * pos_part relay.config.batch_size
        → Any
            (λ m.
              m
              ≡ message (
                  envelope_for
                    (next_service w.env).0
                    (bid_of entry a b k)
                    t
                    n
                    extended
                    close
                    count))
            (received (run_relay marshal relay_service cancelled wait relay rounds x.1.db f).2)
  process_entry-IsReceived entry a b k t log n extended close count acked r w rounds f plain read
        ready ids positive verdict answer =
      let bid = bid_of entry a b k in
      let s = (next_service w.env).0 in
      let result = placed_result n extended close count in
      let (_, _, nonzero) = stream_entry_time_sound entry.id t read.time in
      let (answered, _) =
        append-Implements s ready.quiet bid t w.db log nonzero ready.sound ready.view ready.room
          positive ready.new_id in
      let db' : Db = (append_bid_idempotent_with_anti_snipe s bid t w.db).1 in
      let e : (append_bid_idempotent_with_anti_snipe s bid t w.db).0 ≡ Transaction.ok result =
        subst (λ v. Answers v (append_bid_idempotent_with_anti_snipe s bid t w.db).0) verdict
          answered in
      let taken =
        read_entry_complete client parse_uuid next_service config entry a b k t read.own
          read.auction read.bidder read.key read.time in
      let done_ =
        process_entry_persisted client parse_uuid next_service config entry result.result w _ acked
          r plain.no_validator plain.no_callback plain.no_hook plain.auction_named plain.group_named
          (persist_entry_ok client parse_uuid next_service config entry bid t w result taken e)
          answer in
      rw done_ (λ enough.
        accepted-IsReceived marshal message received relay relay_service cancelled wait works s bid
          t w.db db' result rounds f (ap (λ y. (y, db')) e) refl ids ready.new_id enough)
