-- ===== src/Programs/Stopped.antt =====
-- How the programs end.
use bid_lane.Prelude.{
  ℕ, [], refl, ◌≡◌, ◌⊎◌, inl, inr, none, some, Text, codes, is_empty, Bool, Bool-cases, true,
}
use bid_lane.Prelude.Int.{ℤ, pos}
use bid_lane.Postgres.Schema.{Db}
use bid_lane.Postgres.Connections.{PgxDriver, ConnectError, connect_pool}
use bid_lane.Postgres.Outbox.{RelayService}
use bid_lane.Redis.Client.{RedisClient, Reply, reply, failure, nothing}
use bid_lane.Redis.PubSub.{PubSubClient, PubSubError}
use bid_lane.Relay.{
  PublishedEvent, RelayError, OutboxRelay, RelayEnding, polling, ended, new_outbox_relay,
}
use bid_lane.Relay.Stopped.{EndsCancelled, run_relay-EndsCancelled}
use bid_lane.Relay.Channel.{pub_sub}
use bid_lane.Programs.{
  Exit, serving, stopped, failed, panicked, required_environment, relay_exit, relay_created,
  relay_config, relay_pinged, relay_connected, relay_configured, relay_main,
}

required_environment_elim :
    {A : Type 0} (P : A → Type 0) (value : Text) (missing : A) (rest : Text → A)
    → P missing
    → ((v : Text) → P (rest v))
    → P (required_environment value missing rest)
required_environment_elim P value missing rest h k = elim (Bool-cases (is_empty value)) [
  | inl e ↦ rw (required_environment, e) h
  | inr e ↦ rw (required_environment, e) (k value)
]

module _ {Conn Pool PoolConfig E : Type 0} (driver : PgxDriver Conn Pool PoolConfig E)
    (new_client : Text → Text → ℤ → RedisClient E × PubSubClient E) (close_client : E → E)
    (message_of : PubSubError → Text) (marshal : PublishedEvent → Text ⊎ Text)
    (next_service : E → RelayService × E) (cancelled : E → Bool) (wait : ℤ → E → Bool × E)
    (getenv : Text → Text)
    (wait_done : (interval : ℤ) (e : E)
      → (wait interval e).0 ≡ true
      → cancelled (wait interval e).1 ≡ true) where
  -- Where main has returned, the context was cancelled, and then the client was closed and, behind
  -- it, the pool that ConnectPool had returned.
  abbrev pub StopsCancelled : E → Exit × Db × E → Type 0
  StopsCancelled e0 (stopped, db, e') =
      (pool : Pool) × (e : E) × ((connect_pool driver (getenv (codes "POSTGRES_DSN"))
          (codes "bidlane_outbox_relay") e0).0
        ≡ inr pool)
      × (cancelled e ≡ true)
      × (e' ≡ driver.close_pool pool (close_client e))
  StopsCancelled e0 (serving, db, e') = Unit
  StopsCancelled e0 (failed, db, e') = Unit
  StopsCancelled e0 (panicked name, db, e') = Unit

  abbrev IsPoolOf : E → Pool → Type 0
  IsPoolOf e0 pool =
      (connect_pool driver (getenv (codes "POSTGRES_DSN")) (codes "bidlane_outbox_relay") e0).0
      ≡ inr pool

  relay_exit-StopsCancelled :
      (e0 : E) (pool : Pool) (x : RelayEnding × Db × E)
      → IsPoolOf e0 pool
      → EndsCancelled marshal next_service cancelled wait wait_done x
      → StopsCancelled e0 (
          relay_exit driver new_client close_client message_of marshal next_service cancelled wait
            getenv pool x)
  unfolding relay_exit
  relay_exit-StopsCancelled e0 pool (polling, db, e) own h = tt
  relay_exit-StopsCancelled e0 pool (ended none, db, e) own h = (pool, e, own, h, refl)
  relay_exit-StopsCancelled e0 pool (ended (some x), db, e) own h = tt

  created-StopsCancelled :
      (e0 : E) (rounds : ℕ) (pool : Pool) (x : RelayError ⊎ OutboxRelay E) (db : Db) (e : E)
      → IsPoolOf e0 pool
      → StopsCancelled e0 (
          relay_created driver new_client close_client message_of marshal next_service cancelled
            wait getenv rounds pool x db e)
  unfolding relay_created
  created-StopsCancelled e0 rounds pool (inl x) db e own = tt
  created-StopsCancelled e0 rounds pool (inr relay) db e own =
      relay_exit-StopsCancelled e0 pool _ own
        (run_relay-EndsCancelled marshal next_service cancelled wait wait_done relay rounds db e)

  pinged-StopsCancelled :
      (e0 : E) (rounds : ℕ) (pool : Pool) (client : PubSubClient E) (db : Db)
      (y : Reply (Unit {0}) × E)
      → IsPoolOf e0 pool
      → StopsCancelled e0 (
          relay_pinged driver new_client close_client message_of marshal next_service cancelled wait
            getenv rounds pool client db y)
  unfolding relay_pinged
  pinged-StopsCancelled e0 rounds pool client db (reply _, e) own =
      created-StopsCancelled e0 rounds pool
        (new_outbox_relay true (some (pub_sub message_of client)) (
          relay_config driver new_client close_client message_of marshal next_service cancelled wait
            getenv))
        db e own
  pinged-StopsCancelled e0 rounds pool client db (failure x, e) own = tt
  pinged-StopsCancelled e0 rounds pool client db (nothing, e) own = tt

  connected-StopsCancelled :
      (e0 : E) (rounds : ℕ) (address : Text) (db : Db) (x : (ConnectError ⊎ Pool) × E)
      → (connect_pool driver (getenv (codes "POSTGRES_DSN")) (codes "bidlane_outbox_relay") e0).0
        ≡ x.0
      → StopsCancelled e0 (
          relay_connected driver new_client close_client message_of marshal next_service cancelled
            wait getenv rounds address db x)
  unfolding relay_connected
  connected-StopsCancelled e0 rounds address db (inl x, e) own = tt
  connected-StopsCancelled e0 rounds address db (inr pool, e) own =
      pinged-StopsCancelled e0 rounds pool (new_client address [] (pos 0)).1 db
        ((new_client address [] (pos 0)).0.ping e) own

  configured-StopsCancelled :
      (rounds : ℕ) (db : Db) (e : E)
      → StopsCancelled e (
          relay_configured driver new_client close_client message_of marshal next_service cancelled
            wait getenv rounds db e
            (getenv (codes "POSTGRES_DSN")))
  unfolding relay_configured
  configured-StopsCancelled rounds db e =
      let pool =
        connect_pool driver (getenv (codes "POSTGRES_DSN")) (codes "bidlane_outbox_relay") e in
      required_environment_elim (StopsCancelled e) (getenv (codes "REDIS_ADDR"))
        (panicked (codes "REDIS_ADDR"), db, e)
        (λ address.
          relay_connected driver new_client close_client message_of marshal next_service cancelled
            wait getenv rounds address db pool)
        tt (λ address. connected-StopsCancelled e rounds address db pool refl)

  -- If the select of a poll answers by ctx.Done() only where the context is cancelled: main of the
  -- relay has returned only where its context was cancelled, and then the client was closed and, behind it, the pool that
  -- ConnectPool had returned.
  pub relay_main-StopsCancelled :
      (rounds : ℕ) (db : Db) (e : E)
      → StopsCancelled e (
          relay_main driver new_client close_client message_of marshal next_service cancelled wait
            getenv rounds db e)
  unfolding relay_main
  relay_main-StopsCancelled rounds db e =
      elim (Bool-cases (is_empty (getenv (codes "POSTGRES_DSN")))) [
        | inl missing ↦ rw (relay_main, required_environment, missing) tt
        | inr there ↦
            rw (relay_main, required_environment, there) (configured-StopsCancelled rounds db e)
      ]
