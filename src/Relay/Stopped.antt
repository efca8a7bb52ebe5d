-- ===== src/Relay/Stopped.antt =====
-- When Run of the relay ends without an error.
use bid_lane.Prelude.{
  ℕ, zero, suc, ◌≡◌, ◌⊎◌, inl, inr, Option, none, some, Text, Bool, Bool-cases, true,
}
use bid_lane.Prelude.Int.{ℤ}
use bid_lane.Postgres.Schema.{Db}
use bid_lane.Postgres.Outbox.{RelayService, PublishError}
use bid_lane.Relay.{
  PublishedEvent, OutboxRelay, RelayEnding, polling, ended, run_relay, after_batch,
}

module _ {E : Type 0} (marshal : PublishedEvent → Text ⊎ Text) (next_service : E → RelayService × E)
    (cancelled : E → Bool) (wait : ℤ → E → Bool × E)
    (wait_done : (interval : ℤ) (e : E)
      → (wait interval e).0 ≡ true
      → cancelled (wait interval e).1 ≡ true) where
  -- Run has returned without an error only where the context is cancelled.
  abbrev pub EndsCancelled : RelayEnding × Db × E → Type 0
  EndsCancelled (polling, db, e) = Unit
  EndsCancelled (ended none, db, e) = cancelled e ≡ true
  EndsCancelled (ended (some x), db, e) = Unit

  after_batch-EndsCancelled :
      (relay : OutboxRelay E) (x : (ℕ × Option PublishError) × Db × E)
      (rest : Db → E → RelayEnding × Db × E)
      → ((db : Db) (e : E) → EndsCancelled (rest db e))
      → EndsCancelled (after_batch marshal next_service cancelled wait relay x rest)
  unfolding after_batch
  after_batch-EndsCancelled relay ((processed, some y), db, e) rest k =
      elim (Bool-cases (cancelled e)) [
        | inl stop ↦ rw (after_batch, stop) stop
        | inr on ↦ rw (after_batch, on) tt
      ]
  after_batch-EndsCancelled relay ((zero, none), db, e) rest k =
      elim (Bool-cases (wait relay.config.poll_interval e).0) [
        | inl done ↦ rw (after_batch, done) (wait_done relay.config.poll_interval e done)
        | inr on ↦ rw (after_batch, on) (k db _)
      ]
  after_batch-EndsCancelled relay ((suc processed, none), db, e) rest k = k db e

  pub run_relay-EndsCancelled :
      (relay : OutboxRelay E) (rounds : ℕ) (db : Db) (e : E)
      → EndsCancelled (run_relay marshal next_service cancelled wait relay rounds db e)
  unfolding run_relay
  run_relay-EndsCancelled relay zero db e = tt
  run_relay-EndsCancelled relay (suc rounds) db e = elim (Bool-cases (cancelled e)) [
    | inl stop ↦ rw (run_relay, stop) stop
    | inr on ↦
        rw (run_relay, on)
          (after_batch-EndsCancelled relay _ _ (run_relay-EndsCancelled relay rounds))
  ]
