-- ===== src/Programs.antt =====
-- cmd/engine/main.go and cmd/outbox-relay/main.go: the environment, the connections, and the loop that
-- each starts.
pub mod Stopped
mod Tests
use bid_lane.Prelude.{
  ℕ, [], ◌*◌, ◌^◌, ◌⊎◌, inl, inr, Option, none, some, Text, codes, is_empty, Bool, true, false,
}
use bid_lane.Prelude.Int.{ℤ, pos}
use bid_lane.Go.Strconv.{parse_int}
use bid_lane.Postgres.Schema.{Db}
use bid_lane.Postgres.Connections.{PgxDriver, ConnectError, connect_pool}
use bid_lane.Postgres.Outbox.{RelayService}
use bid_lane.Redis.Client.{RedisClient, Reply, reply, failure, nothing}
use bid_lane.Redis.Streams as Streams
use bid_lane.Redis.Streams.{Outcome, StreamStore, ping}
use bid_lane.Redis.PubSub.{PubSubClient, PubSubError}
use bid_lane.Engine.Consumer as Consumer
use bid_lane.Engine.Consumer.{ConsumerConfig, Consumer, new_consumer, Ending, consume}
use bid_lane.Relay as Relay
use bid_lane.Relay.{
  PublishedEvent, Config, RelayError, OutboxRelay, RelayEnding, default_bid_events_channel,
  new_outbox_relay, run_relay,
}
use bid_lane.Relay.Channel.{pub_sub}

-- The loop still runs, main has returned, os.Exit(1), or a panic about a variable.
pub data Exit : Type 0 where
  serving stopped failed : Exit
  panicked : Text → Exit

-- requiredEnvironment: what happens where the value is empty, and the rest of main.
abbrev pub required_environment : {A : Type 0} → Text → A → (Text → A) → A
required_environment value missing rest = elim (is_empty value) [
  | true ↦ missing
  | false ↦ rest value
]

-- requiredIntegerEnvironment; strconv.Atoi reads an int of 64 bits.
unfoldable parsed_environment : {A : Type 0} → Option ℤ → A → (ℤ → A) → A
parsed_environment none bad rest = bad
parsed_environment (some n) bad rest = rest n

unfoldable pub required_integer_environment : {A : Type 0} → Text → A → (ℤ → A) → A
unfolding parsed_environment
required_integer_environment value bad rest =
    required_environment value bad (λ raw. parsed_environment (parse_int raw) bad rest)

-- cmd/engine/main.go; the client that redis.NewClient makes is a parameter.
module _ {R : Type 0} (new_client : Text → Text → ℤ → RedisClient R) (close_client : R → R)
    (getenv : Text → Text) (cancelled : R → Bool) where
  -- os.Exit skips the deferred Close.
  abbrev consumer_exit : Ending × R → Exit × R
  consumer_exit (Consumer.going, r) = (serving, r)
  consumer_exit (Consumer.ended none, r) = (stopped, close_client r)
  consumer_exit (Consumer.ended (some e), r) = (failed, r)

  unfoldable pinged : ℕ → Consumer R → Outcome (Unit {0}) × R → Exit × R
  pinged rounds c (Streams.ok _, r) = consumer_exit (consume c cancelled rounds r)
  pinged rounds c (Streams.err e, r) = (failed, r)

  unfoldable start_consumer : ℕ → RedisClient R → Text → Text → Text → R → Exit × R
  unfolding pinged
  start_consumer rounds client auction_id group consumer r =
      let streams : StreamStore R = record { client = some client } in
      pinged rounds
        (new_consumer streams (record {
          auction_id = auction_id;
          group = group;
          consumer = consumer;
          batch_size = pos 20;
          block_period = pos (2 * 10 ^ 9);
        }))
        (ping streams r)

  -- main of cmd/engine
  unfoldable pub engine_main : ℕ → R → Exit × R
  unfolding start_consumer
  engine_main rounds r =
      required_environment (getenv (codes "REDIS_ADDR")) (failed, r)
        λ address.
          required_integer_environment (getenv (codes "REDIS_DB")) (failed, r)
            λ database.
              required_environment (getenv (codes "AUCTION_ID")) (failed, r)
                λ auction_id.
                  required_environment (getenv (codes "CONSUMER_GROUP")) (failed, r)
                    λ group.
                      required_environment (getenv (codes "CONSUMER_NAME")) (failed, r)
                        λ consumer.
                          start_consumer rounds
                            (new_client address (getenv (codes "REDIS_PASSWORD")) database)
                            auction_id group consumer r

-- cmd/outbox-relay/main.go; pgx, the clients that redis.NewClient makes, the wording of an error,
-- json.Marshal, and what PostgreSQL and the context do are parameters.
module _ {Conn Pool PoolConfig E : Type 0} (driver : PgxDriver Conn Pool PoolConfig E)
    (new_client : Text → Text → ℤ → RedisClient E × PubSubClient E) (close_client : E → E)
    (message_of : PubSubError → Text) (marshal : PublishedEvent → Text ⊎ Text)
    (next_service : E → RelayService × E) (cancelled : E → Bool) (wait : ℤ → E → Bool × E)
    (getenv : Text → Text) where
  -- The deferred calls of Close, which os.Exit skips.
  abbrev pub closing : Pool → E → E
  closing pool e = driver.close_pool pool (close_client e)

  unfoldable relay_exit : Pool → RelayEnding × Db × E → Exit × Db × E
  relay_exit pool (Relay.polling, db, e) = (serving, db, e)
  relay_exit pool (Relay.ended none, db, e) = (stopped, db, closing pool e)
  relay_exit pool (Relay.ended (some x), db, e) = (failed, db, e)

  unfoldable relay_created : ℕ → Pool → RelayError ⊎ OutboxRelay E → Db → E → Exit × Db × E
  unfolding relay_exit
  relay_created rounds pool (inl x) db e = (failed, db, e)
  relay_created rounds pool (inr relay) db e =
      relay_exit pool (run_relay marshal next_service cancelled wait relay rounds db e)

  abbrev pub relay_config : Config E
  relay_config = record {
    channel = default_bid_events_channel;
    batch_size = pos 100;
    poll_interval = pos (200 * 10 ^ 6);
    after_publish_before_mark = none;
  }

  unfoldable relay_pinged : ℕ → Pool → PubSubClient E → Db → Reply (Unit {0}) × E → Exit × Db × E
  unfolding relay_created
  relay_pinged rounds pool client db (reply _, e) =
      relay_created rounds pool
        (new_outbox_relay true (some (pub_sub message_of client)) relay_config) db e
  relay_pinged rounds pool client db (failure x, e) = (failed, db, e)
  relay_pinged rounds pool client db (nothing, e) = (failed, db, e)

  unfoldable relay_connected : ℕ → Text → Db → (ConnectError ⊎ Pool) × E → Exit × Db × E
  unfolding relay_pinged
  relay_connected rounds address db (inl x, e) = (failed, db, e)
  relay_connected rounds address db (inr pool, e) =
      let (client, publisher) = new_client address [] (pos 0) in
      relay_pinged rounds pool publisher db (client.ping e)

  unfoldable relay_configured : ℕ → Db → E → Text → Exit × Db × E
  unfolding relay_connected
  relay_configured rounds db e dsn =
      required_environment (getenv (codes "REDIS_ADDR")) (panicked (codes "REDIS_ADDR"), db, e)
        λ address.
          relay_connected rounds address db
            (connect_pool driver dsn (codes "bidlane_outbox_relay") e)

  -- main of cmd/outbox-relay
  unfoldable pub relay_main : ℕ → Db → E → Exit × Db × E
  unfolding relay_configured
  relay_main rounds db e =
      required_environment (getenv (codes "POSTGRES_DSN")) (panicked (codes "POSTGRES_DSN"), db, e)
        (relay_configured rounds db e)
