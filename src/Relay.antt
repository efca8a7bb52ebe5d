-- ===== src/Relay.antt =====
-- internal/relay/outbox_relay.go: events of the outbox are published in batches.
pub mod Accepted
pub mod Channel
pub mod Queue
pub mod Sent
pub mod Stopped
mod Tests
use bid_lane.Prelude.{
  ℕ, zero, suc, ◌+◌, ◌⊎◌, inl, inr, Option, none, some, Text, codes, is_empty, Bool, true, false,
  if◌then◌else◌,
}
use bid_lane.Prelude.Int.{ℤ, pos, leb_ℤ, pos_part}
use bid_lane.Go.Time.{Time}
use bid_lane.Postgres.Schema.{Uuid, Payload, Db}
use bid_lane.Postgres.Outbox.{
  OutboxEvent, RelayService, PublishError, Published, ok, err, Callback, publish_next,
}

-- PublishedEvent, the envelope.
pub record PublishedEvent : Type 0 where
  pub event_id : Uuid
  pub event_type : Text
  pub aggregate_type : Text
  pub aggregate_id : Uuid
  pub aggregate_sequence : ℤ
  pub payload : Payload
  pub created_at : Time

abbrev pub envelope_of : OutboxEvent → PublishedEvent
envelope_of event = record {
  event_id = event.id;
  event_type = event.event_type;
  aggregate_type = event.aggregate_type;
  aggregate_id = event.aggregate_id;
  aggregate_sequence = event.aggregate_sequence;
  payload = event.payload;
  created_at = event.created_at;
}

-- Publisher: channel and message.
abbrev pub Publisher : Type 0 → Type 0
Publisher E = Text → Text → E → Option Text × E

pub record Config (E : Type 0) : Type 0 where
  pub channel : Text
  pub batch_size : ℤ
  pub poll_interval : ℤ
  pub after_publish_before_mark : Option (Callback E)

abbrev pub default_bid_events_channel : Text
default_bid_events_channel = codes "bidlane:events:bids"

pub data RelayError : Type 0 where
  outbox_required publisher_required : RelayError

-- The configuration of NewOutboxRelay, with its defaults; a time.Duration counts nanoseconds.
abbrev pub with_defaults : {E : Type 0} → Config E → Config E
with_defaults config = record config {
  channel = if is_empty config.channel then default_bid_events_channel else config.channel;
  batch_size = if leb_ℤ config.batch_size (pos 0) then pos 100 else config.batch_size;
  poll_interval =
      if leb_ℤ config.poll_interval (pos 0) then pos 200000000 else config.poll_interval;
}

-- OutboxRelay
pub record OutboxRelay (E : Type 0) : Type 0 where
  pub publisher : Publisher E
  pub config : Config E

-- NewOutboxRelay; `has_store` tells whether the store is not nil.
unfoldable pub new_outbox_relay :
    {E : Type 0} → Bool → Option (Publisher E) → Config E → RelayError ⊎ OutboxRelay E
new_outbox_relay false publisher config = inl outbox_required
new_outbox_relay true none config = inl publisher_required
new_outbox_relay true (some publisher) config =
    inr (record { publisher = publisher; config = with_defaults config })

-- Still in its loop, or what it has returned.
pub data RelayEnding : Type 0 where
  polling : RelayEnding
  ended : Option PublishError → RelayEnding

-- json.Marshal is a parameter: an error or the message.
module _ {E : Type 0} (marshal : PublishedEvent → Text ⊎ Text) where
  -- The publish function that ProcessOne hands to PublishNext.
  send : OutboxRelay E → Text ⊎ Text → E → Option Text × E
  send relay (inl x) e = (some x, e)
  send relay (inr message) e = relay.publisher relay.config.channel message e

  abbrev pub publish_envelope : OutboxRelay E → Callback E
  unfolding send
  publish_envelope relay event e = send relay (marshal (envelope_of event)) e

  -- ProcessOne
  unfoldable pub process_one : OutboxRelay E → RelayService → Db → E → Published × Db × E
  process_one relay s db e =
      publish_next (some (publish_envelope relay)) relay.config.after_publish_before_mark s db e

  -- The inner loop of Run, up to `n` more events: how many were published, and the error that ended
  -- it. What the service does in each transaction comes from the state.
  unfoldable pub process_batch :
      (E → RelayService × E) → OutboxRelay E → ℕ → ℕ → Db → E → (ℕ × Option PublishError) × Db × E
  unfolding process_one
  process_batch next_service relay zero processed db e = ((processed, none), db, e)
  process_batch next_service relay (suc n) processed db e =
      let x = process_one relay (next_service e).0 db (next_service e).1 in
      elim x.0 [
        | err y ↦ ((processed, some y), x.1, x.2)
        | ok false ↦ ((processed, none), x.1, x.2)
        | ok true ↦ process_batch next_service relay n (processed + 1) x.1 x.2
      ]

  -- `cancelled` tells whether ctx.Err() is set; `wait` is the select between ctx.Done(), which it
  -- answers by true, and the timer of the poll interval.
  module _ (next_service : E → RelayService × E) (cancelled : E → Bool) (wait : ℤ → E → Bool × E)
      (relay : OutboxRelay E) where
    -- What follows a batch, and the rest of the loop behind it.
    unfoldable after_batch :
        (ℕ × Option PublishError) × Db × E → (Db → E → RelayEnding × Db × E) → RelayEnding × Db × E
    after_batch ((processed, some y), db, e) rest =
        (ended (if cancelled e then none else some y), db, e)
    after_batch ((zero, none), db, e) rest =
        let x = wait relay.config.poll_interval e in
        elim x.0 [ true ↦ (ended none, db, x.1) | false ↦ rest db x.1 ]
    after_batch ((suc processed, none), db, e) rest = rest db e

    -- Run, at most `rounds` times through its outer loop.
    unfoldable pub run_relay : ℕ → Db → E → RelayEnding × Db × E
    unfolding after_batch
    run_relay zero db e = (polling, db, e)
    run_relay (suc rounds) db e = elim (cancelled e) [
      | true ↦ (ended none, db, e)
      | false ↦
          after_batch (process_batch next_service relay (pos_part relay.config.batch_size) 0 db e)
            (λ db' e'. run_relay rounds db' e')
    ]
