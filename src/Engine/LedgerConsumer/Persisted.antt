-- ===== src/Engine/LedgerConsumer/Persisted.antt =====
-- persistEntry of an entry whose texts are read and whose bid the ledger takes.
use bid_lane.Prelude.{refl, ap, sym, ◌∙◌, ◌≡◌, Option, some, Text, text_eq, text_eq_refl, true}
use bid_lane.Go.Time.{Time}
use bid_lane.Postgres.Schema.{Uuid, Db}
use bid_lane.Postgres.Statements.{BidToPersist}
use bid_lane.Postgres.Transaction as Transaction
use bid_lane.Postgres.Transaction.{Service, Result}
use bid_lane.Postgres.AntiSnipe.{AntiSnipeAppendResult, append_bid_idempotent_with_anti_snipe}
use bid_lane.Redis.Message.{BidStreamEntry}
use bid_lane.Redis.Client.{RedisClient}
use bid_lane.Redis.StreamId.{stream_entry_time, at}
use bid_lane.Engine.LedgerConsumer.{
  done, LedgerConsumerConfig, World, read_entry, recorded, persist_read, persist_entry,
}

-- The bid that an entry stands for, by the UUIDs that its texts spell.
abbrev pub bid_of : BidStreamEntry → Uuid → Uuid → Uuid → BidToPersist
bid_of entry a b k = record {
  auction_id = a;
  bidder_id = b;
  amount = entry.amount;
  idempotency_key = k;
  stream_entry_id = entry.id;
  correlation_id = entry.correlation_id;
}

module _ {R E : Type 0} (client : RedisClient R) (parse_uuid : Text → Option Uuid)
    (next_service : E → Service × E) (config : LedgerConsumerConfig E) where
  pub read_entry_complete :
      (entry : BidStreamEntry) (a b k : Uuid) (t : Time)
      → entry.auction_id ≡ config.auction_id
      → parse_uuid entry.auction_id ≡ some a
      → parse_uuid entry.bidder_id ≡ some b
      → parse_uuid entry.idempotency_key ≡ some k
      → stream_entry_time entry.id ≡ at t
      → read_entry client parse_uuid next_service config entry ≡ done (bid_of entry a b k, t)
  unfolding read_entry
  read_entry_complete entry a b k t own ha hb hk ht =
      let same : text_eq entry.auction_id config.auction_id ≡ true =
        ap (text_eq entry.auction_id) (sym own) ∙ text_eq_refl entry.auction_id in
      rw (same, ha, hb, hk, ht) refl

  recorded_ok :
      (e : E) (x : Result AntiSnipeAppendResult × Db) (redis : R) (r : AntiSnipeAppendResult)
      → x.0 ≡ Transaction.ok r
      → recorded client parse_uuid next_service config e x redis
        ≡ (done r.result, record { redis = redis; db = x.1; env = e })
  unfolding recorded
  recorded_ok e (Transaction.ok q, db) redis r h = let same : q ≡ r = cc h in rw same refl
  recorded_ok e (Transaction.err x, db) redis r h = cc

  pub persist_entry_ok :
      (entry : BidStreamEntry) (bid : BidToPersist) (t : Time) (w : World R E)
      (r : AntiSnipeAppendResult)
      → read_entry client parse_uuid next_service config entry ≡ done (bid, t)
      → (append_bid_idempotent_with_anti_snipe (next_service w.env).0 bid t w.db).0
        ≡ Transaction.ok r
      → persist_entry client parse_uuid next_service config entry w ≡ (
        done r.result,
        record {
          redis = w.redis;
          db = (append_bid_idempotent_with_anti_snipe (next_service w.env).0 bid t w.db).1;
          env = (next_service w.env).1;
        },
      )
  unfolding persist_entry persist_read
  persist_entry_ok entry bid t w r read h =
      rw read (recorded_ok (next_service w.env).1 _ w.redis r h)
