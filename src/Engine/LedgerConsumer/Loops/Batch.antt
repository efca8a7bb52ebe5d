-- ===== src/Engine/LedgerConsumer/Loops/Batch.antt =====
-- One batch of ProcessExactly: what XREADGROUP delivered to it, and the entries that it handled.
use bid_lane.Prelude.{
  ℕ, ◌≤◌, ap, refl, subst, sym, ◌∙◌, ◌≡◌, ◌⊎◌, inl, inr, [], ◌++◌, append-nil, List, Option, none,
  Text, All, length, length-append, arith,
}
use bid_lane.Prelude.Int.{ℤ}
use bid_lane.Postgres.Schema.{Uuid}
use bid_lane.Postgres.Transaction.{Service}
use bid_lane.Redis.Message.{BidStreamEntry, XMessage}
use bid_lane.Redis.Client.{RedisClient, Reply, reply, nothing}
use bid_lane.Redis.Streams as Streams
use bid_lane.Redis.Streams.{Outcome, stream_key, flatten, parse_messages}
use bid_lane.Redis.Streams.Messages.{AreReadFrom, parse_messages-AreReadFrom}
use bid_lane.Redis.Streams.Inversion.{Reads, read_group-Reads, parse_messages-length}
use bid_lane.Engine.LedgerConsumer.{
  LedgerConsumerConfig, ConsumerError, World, read_then_process, process_batch,
}
use bid_lane.Engine.LedgerConsumer.Entry.{IsSettled, Submission, submissions}
use bid_lane.Engine.LedgerConsumer.Safety.{process_entries-EntriesEffect}

module _ {R E : Type 0} (client : RedisClient R) (parse_uuid : Text → Option Uuid)
    (next_service : E → Service × E) (config : LedgerConsumerConfig E) where
  -- The reply of XREADGROUP to the consumer, for a number of entries.
  abbrev pub read_reply : ℤ → R → Reply (List (Text × List XMessage)) × R
  read_reply count r =
      client.x_read_group config.group config.consumer (stream_key config.auction_id) count
        config.block_period r

  -- The entries are those that XREADGROUP delivered, one for each message, or none where none came.
  abbrev pub Delivered : ℤ → R → List BidStreamEntry → Type 0
  Delivered count r entries =
      ((r' : R) × (read_reply count r ≡ (nothing, r')) × (entries ≡ []))
      ⊎ ((streams : List (Text × List XMessage)) × (r' : R) × (read_reply count r
            ≡ (reply streams, r'))
          × AreReadFrom (flatten streams) entries)

  -- The settled entries of a batch, as many as it counts.
  pub record BatchEffect (count : ℤ) (w : World R E) (x : ℕ × Option ConsumerError × World R E)
      : Type 0 where
    pub calls : List Submission
    pub database : x.2.db ≡ submissions calls w.db
    pub handled : List BidStreamEntry
    pub number : x.0 ≡ length handled
    pub settled : All (λ entry. IsSettled client parse_uuid config entry x.2.db) handled
    pub answered :
        (x.0 ≡ 0)
        ⊎ ((streams : List (Text × List XMessage)) × (r : R) × (read_reply count w.redis
              ≡ (reply streams, r))
            × (x.0 ≤ length (flatten streams)))
    pub delivered : x.1 ≡ none → Delivered count w.redis handled
    pub complete :
        x.1 ≡ none
        → ((r : R) × (read_reply count w.redis ≡ (nothing, r)))
          ⊎ ((streams : List (Text × List XMessage)) × (r : R) × (read_reply count w.redis
                ≡ (reply streams, r))
              × (x.0 ≡ length (flatten streams)))

  read-BatchEffect :
      (count : ℤ) (w : World R E) (y : Outcome (List BidStreamEntry) × R)
      → Reads (read_reply count w.redis) y
      → BatchEffect count w (read_then_process client parse_uuid next_service config w y)
  unfolding read_then_process submissions
  read-BatchEffect count w (Streams.err x, redis) h = record {
    calls = [];
    database = refl;
    handled = [];
    number = refl;
    settled = tt;
    answered = inl refl;
    delivered = λ e. cc;
    complete = λ e. cc;
  }
  read-BatchEffect count w (Streams.ok entries, redis) h =
      let k =
        process_entries-EntriesEffect client parse_uuid next_service config entries 0
          (record w { redis = redis }) in
      let parts = ap length k.parts ∙ length-append k.handled k.rest in
      record {
        calls = k.calls;
        database = k.database;
        handled = k.handled;
        number = omega (arith, k.count);
        settled = k.settled;
        answered = elim h [
          | inl (none_came, e) ↦ inl (omega (arith, k.count, parts, ap length e))
          | inr (streams, answer, p) ↦ inr (
            streams,
            redis,
            answer,
            omega (arith, k.count, parts, parse_messages-length (flatten streams) entries p),
          )
        ];
        delivered = λ no_error.
            let whole : entries ≡ k.handled =
              k.parts
              ∙ ap (λ more. k.handled ++ more) (k.complete no_error)
              ∙ append-nil k.handled in
            elim h [
              | inl (none_came, e) ↦ inl (redis, none_came, sym whole ∙ e)
              | inr (streams, answer, p) ↦ inr (
                streams,
                redis,
                answer,
                subst (AreReadFrom (flatten streams)) whole
                    (parse_messages-AreReadFrom (flatten streams) entries p),
              )
            ];
        complete = λ no_error.
            let no_rest = ap length (k.complete no_error) in
            elim h [
              | inl (none_came, e) ↦ inl (redis, none_came)
              | inr (streams, answer, p) ↦ inr (
                streams,
                redis,
                answer,
                omega (
                  arith,
                  k.count,
                  parts,
                  no_rest,
                  parse_messages-length (flatten streams) entries p,
                ),
              )
            ];
      }

  pub process_batch-BatchEffect :
      (count : ℤ) (w : World R E)
      → BatchEffect count w (process_batch client parse_uuid next_service config count w)
  unfolding process_batch
  process_batch-BatchEffect count w = read-BatchEffect count w _ (
      read_group-Reads client config.auction_id config.group config.consumer count
        config.block_period w.redis)
