-- ===== src/Programs/Tests.antt =====
-- Runs of the programs, and the theorem at such an input.
use bid_lane.Prelude.{
  ℕ, [], ◌+◌, refl, ◌≡◌, ◌⊎◌, inl, inr, none, Text, codes, text_eq, Bool, true, false, ltb,
  if◌then◌else◌,
}
use bid_lane.Prelude.Int.{ℤ, pos}
use bid_lane.Go.Strconv.{parse_int}
use bid_lane.Postgres.Schema.{Db}
use bid_lane.Postgres.Connections.{PgxDriver, connect_pool, role_statement}
use bid_lane.Postgres.Outbox.{RelayService, publish_next, next_unpublished}
use bid_lane.Postgres.Transaction.{committed}
use bid_lane.Redis.Client.{RedisClient, reply, failure, nothing}
use bid_lane.Redis.Streams.{ping, read_group, ensure_consumer_group}
use bid_lane.Redis.PubSub.{PubSubClient}
use bid_lane.Engine.Consumer.{consume, consume_loop}
use bid_lane.Relay.{PublishedEvent, new_outbox_relay, run_relay, process_batch, process_one}
use bid_lane.Programs.{stopped, failed, required_integer_environment, engine_main, relay_main}
use bid_lane.Programs.Stopped.{StopsCancelled, relay_main-StopsCancelled}

-- The state counts what happened: 1 for the end of the context, 10 and 100 for a call of Close.
abbrev driver : PgxDriver (Unit {0}) (Unit {0}) (Unit {0}) ℕ
driver = record {
  connect = λ dsn e. (inr tt, e);
  ping = λ c e. (none, e);
  close = λ c e. e;
  exec = λ c s e. (none, e);
  parse_config = λ dsn. inr tt;
  new_with_config = λ config hook e. (inr tt, e);
  ping_pool = λ p e. (none, e);
  close_pool = λ p e. e + 100;
}

abbrev client : RedisClient ℕ
client = record {
  ping = λ e. (reply tt, e);
  x_add = λ _ _ e. (nothing, e);
  x_group_create_mk_stream = λ _ _ _ e. (reply tt, e);
  x_read_group = λ _ _ _ _ _ e. (failure [], e + 1);
  x_ack = λ _ _ _ e. (nothing, e);
  x_auto_claim = λ _ _ _ _ _ _ e. (nothing, e);
  x_range = λ _ e. (nothing, e);
  del = λ _ e. (nothing, e);
}

abbrev clients : Text → Text → ℤ → RedisClient ℕ × PubSubClient ℕ
clients address password database = (client, record { publish = λ channel m e. (reply 1, e) })

abbrev cancelled : ℕ → Bool
cancelled e = ltb 0 e

abbrev service : RelayService
service = record {
  begin_fails = false;
  select_fails = false;
  mark_fails = false;
  commit = committed;
  locked = λ r. false;
  now = pos 9;
}

abbrev tables : Db
tables = record { auctions = []; bids = []; sequences = []; outbox = [] }

abbrev getenv : Text → Text
getenv name = if text_eq name (codes "REDIS_DB") then codes "0" else codes "x"

abbrev marshal : PublishedEvent → Text ⊎ Text
marshal event = inl (codes "error")

run_relay_main :
    relay_main driver clients
      (λ e. e + 10)
      (λ x. [])
      marshal
      (λ e. (service, e))
      cancelled
      (λ interval e. (true, 1))
      getenv
      3
      tables
      0
    ≡ (stopped, tables, 111)
unfolding relay_main connect_pool role_statement text_eq new_outbox_relay run_relay process_batch
    process_one publish_next next_unpublished
run_relay_main = refl

-- The read fails, as the context has ended, and the client is closed.
run_engine_main :
    engine_main (λ address password database. client) (λ e. e + 10) getenv cancelled 3 0
    ≡ (stopped, 11)
unfolding engine_main required_integer_environment read_group text_eq parse_int ping
    ensure_consumer_group consume consume_loop
run_engine_main = refl

run_without_auction :
    engine_main
      (λ address password database. client)
      (λ e. e + 10)
      (λ name. if text_eq name (codes "AUCTION_ID") then [] else getenv name)
      cancelled
      3
      0
    ≡ (failed, 0)
unfolding engine_main required_integer_environment text_eq parse_int
run_without_auction = refl

relay_main-StopsCancelled_example :
    StopsCancelled driver clients
      (λ e. e + 10)
      (λ x. [])
      marshal
      (λ e. (service, e))
      cancelled
      (λ interval e. (true, 1))
      getenv
      (λ interval e h. refl)
      0
      (relay_main driver clients
        (λ e. e + 10)
        (λ x. [])
        marshal
        (λ e. (service, e))
        cancelled
        (λ interval e. (true, 1))
        getenv
        3
        tables
        0)
relay_main-StopsCancelled_example =
    relay_main-StopsCancelled driver clients (λ e. e + 10) (λ x. []) marshal (λ e. (service, e))
      cancelled (λ interval e. (true, 1)) getenv (λ interval e h. refl) 3 tables 0
