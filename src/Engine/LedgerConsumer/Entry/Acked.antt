-- ===== src/Engine/LedgerConsumer/Entry/Acked.antt =====
-- An acknowledgement, and what comes before it where the bid is on record.
use bid_lane.Prelude.{refl, subst, sym, ◌∙◌, ◌≡◌, ◌⊎◌, inl, inr, ◌∷◌, [], Option, none, some, Text}
use bid_lane.Postgres.Schema.{Uuid}
use bid_lane.Postgres.Transaction.{Service}
use bid_lane.Postgres.RowLock.{AppendBidResult}
use bid_lane.Redis.Message.{BidStreamEntry}
use bid_lane.Redis.Client.{RedisClient}
use bid_lane.Redis.Streams.{stream_key, Outcome, StreamError, ack_state}
use bid_lane.Redis.Streams as Streams
use bid_lane.Engine.LedgerConsumer.{
  Attempt, done, failed, LedgerConsumerConfig, ConsumerError, World, acked, ack_entry,
  after_persist, before_ack_then_ack, after_persisting, hooked,
}
use bid_lane.Engine.LedgerConsumer.Entry.{IsRecorded, Reaches, IsSettled, EntryEffect}

module _ {R E : Type 0} (client : RedisClient R) (parse_uuid : Text → Option Uuid)
    (next_service : E → Service × E) (config : LedgerConsumerConfig E) where
  pub stopped :
      (entry : BidStreamEntry) (w w' : World R E) (x : ConsumerError)
      → Reaches w w'
      → EntryEffect client parse_uuid config entry w (some x, w')
  stopped entry w w' x (redis, (calls, db)) = record {
    calls = calls;
    database = db;
    redis = inl redis;
    success = λ e. cc;
  }

  acked_effect :
      (wrap : StreamError → ConsumerError) (entry : BidStreamEntry) (w w' : World R E)
      (y : Outcome (Unit {0}) × R)
      → Reaches w w'
      → IsSettled client parse_uuid config entry w'.db
      → (y.1 ≡ w'.redis)
        ⊎ (y.1
            ≡ (client.x_ack (stream_key config.auction_id) config.group (entry.id ∷ []) w'.redis).1)
      → EntryEffect client parse_uuid config entry w
          (acked client parse_uuid next_service config wrap w' y)
  unfolding acked
  acked_effect wrap entry w w' (Streams.ok _, r) (redis, (calls, db)) s h = record {
    calls = calls;
    database = db;
    redis = elim h [ inl e ↦ inl (e ∙ redis) | inr e ↦ inr (s, rw (e, redis) refl) ];
    success = λ e. s;
  }
  acked_effect wrap entry w w' (Streams.err x, r) (redis, (calls, db)) s h = record {
    calls = calls;
    database = db;
    redis = elim h [ inl e ↦ inl (e ∙ redis) | inr e ↦ inr (s, rw (e, redis) refl) ];
    success = λ e. s;
  }

  pub ack_effect :
      (wrap : StreamError → ConsumerError) (entry : BidStreamEntry) (w w' : World R E)
      → Reaches w w'
      → IsSettled client parse_uuid config entry w'.db
      → EntryEffect client parse_uuid config entry w
          (ack_entry client parse_uuid next_service config wrap entry w')
  unfolding ack_entry
  ack_effect wrap entry w w' reaches s =
      acked_effect wrap entry w w' _ reaches s
        (ack_state client config.auction_id config.group entry.id w'.redis)

  hooked_effect :
      (entry : BidStreamEntry) (w w' : World R E) (y : Option Text × E)
      → Reaches w w'
      → IsSettled client parse_uuid config entry w'.db
      → EntryEffect client parse_uuid config entry w
          (hooked client parse_uuid next_service config entry w' y)
  unfolding hooked
  hooked_effect entry w w' (some x, e) reaches s = stopped entry w (record w' { env = e }) _ reaches
  hooked_effect entry w w' (none, e) reaches s =
      ack_effect _ entry w (record w' { env = e }) reaches s

  before_ack_effect :
      (hook : Option (BidStreamEntry → E → Option Text × E)) (entry : BidStreamEntry)
      (w w' : World R E)
      → Reaches w w'
      → IsSettled client parse_uuid config entry w'.db
      → EntryEffect client parse_uuid config entry w
          (before_ack_then_ack client parse_uuid next_service config hook entry w')
  unfolding before_ack_then_ack
  before_ack_effect none entry w w' reaches s = ack_effect _ entry w w' reaches s
  before_ack_effect (some hook) entry w w' reaches s = hooked_effect entry w w' _ reaches s

  after_persist_same :
      (hook : Option (BidStreamEntry → AppendBidResult → E → E)) (entry : BidStreamEntry)
      (result : AppendBidResult) (w : World R E)
      → let w' = after_persist client parse_uuid next_service config hook entry result w in
        (w'.redis ≡ w.redis) × (w'.db ≡ w.db)
  unfolding after_persist
  after_persist_same none entry result w = (refl, refl)
  after_persist_same (some hook) entry result w = (refl, refl)

  -- What persistEntry leaves behind: a bid on record, if it returns a result.
  abbrev pub Persists : BidStreamEntry → World R E → Attempt AppendBidResult × World R E → Type 0
  Persists entry w (done r, w') = Reaches w w' × IsRecorded parse_uuid entry w'.db
  Persists entry w (failed x, w') = Reaches w w'

  pub after_persisting_effect :
      (entry : BidStreamEntry) (w : World R E) (y : Attempt AppendBidResult × World R E)
      → Persists entry w y
      → EntryEffect client parse_uuid config entry w
          (after_persisting client parse_uuid next_service config entry y)
  unfolding after_persisting
  after_persisting_effect entry w (failed x, w') reaches = stopped entry w w' x reaches
  after_persisting_effect entry w (done r, w') ((redis, (calls, db)), on_record) =
      let (same_redis, same_db) = after_persist_same config.after_persist_before_ack entry r w' in
      before_ack_effect config.before_ack entry w _ (same_redis ∙ redis, (calls, same_db ∙ db))
        (inl (subst (IsRecorded parse_uuid entry) (sym same_db) on_record))
