-- ===== src/Engine/Consumer.antt =====
-- internal/engine/consumer.go: the consumer that logs the bids of an auction and acknowledges them,
-- without a database. A log line has no effect on what is modelled.
pub mod Acknowledged
mod Tests
use bid_lane.Prelude.{ℕ, zero, suc, ◌∷◌, [], List, Option, none, some, Text, Bool, if◌then◌else◌}
use bid_lane.Prelude.Int.{ℤ}
use bid_lane.Redis.Message.{BidStreamEntry}
use bid_lane.Redis.Streams.{
  StreamError, Outcome, ok, err, StreamStore, ensure_consumer_group, read_group, ack,
}

pub record ConsumerConfig : Type 0 where
  pub auction_id : Text
  pub group : Text
  pub consumer : Text
  pub batch_size : ℤ
  pub block_period : ℤ

pub record Consumer (R : Type 0) : Type 0 where
  pub streams : StreamStore R
  pub config : ConsumerConfig

-- NewConsumer
abbrev pub new_consumer : {R : Type 0} → StreamStore R → ConsumerConfig → Consumer R
new_consumer streams config = record { streams = streams; config = config }

pub data ConsumeError : Type 0 where
  group_failed read_failed ack_failed : StreamError → ConsumeError

-- Still in its loop, or what it has returned.
pub data Ending : Type 0 where
  going : Ending
  ended : Option ConsumeError → Ending

module _ {R : Type 0} (c : Consumer R) where
  abbrev pub ack_entry : BidStreamEntry → R → Outcome (Unit {0}) × R
  ack_entry entry r = ack c.streams entry.ingress.auction_id c.config.group (entry.id ∷ []) r

  -- The loop over the entries of one read.
  unfoldable pub consume_entries : List BidStreamEntry → R → Option ConsumeError × R
  consume_entries [] r = (none, r)
  consume_entries (entry ∷ entries) r =
      let x = ack_entry entry r in
      elim x.0 [ err e ↦ (some (ack_failed e), x.1) | ok _ ↦ consume_entries entries x.1 ]

  -- `cancelled` tells whether ctx.Err() is set.
  module _ (cancelled : R → Bool) where
    unfoldable unless_error : Option ConsumeError → Ending × R → Ending × R → Ending × R
    unless_error none failure rest = rest
    unless_error (some e) failure rest = failure

    -- What follows a read, and the rest of the loop behind it.
    unfoldable after_read : Outcome (List BidStreamEntry) × R → (R → Ending × R) → Ending × R
    unfolding unless_error
    after_read (err e, r) rest =
        if cancelled r then (ended none, r) else (ended (some (read_failed e)), r)
    after_read (ok entries, r) rest =
        let y = consume_entries entries r in unless_error y.0 (ended y.0, y.1) (rest y.1)

    -- The loop of Run, at most `rounds` times.
    unfoldable pub consume_loop : ℕ → R → Ending × R
    unfolding after_read
    consume_loop zero r = (going, r)
    consume_loop (suc rounds) r =
        let rest : R → Ending × R = λ r'. consume_loop rounds r' in
        if cancelled r
        then (ended none, r)
        else after_read
            (read_group c.streams c.config.auction_id c.config.group c.config.consumer
              c.config.batch_size c.config.block_period r)
            rest

    unfoldable grouped : ℕ → Outcome (Unit {0}) × R → Ending × R
    unfolding consume_loop
    grouped rounds (err e, r) = (ended (some (group_failed e)), r)
    grouped rounds (ok _, r) = consume_loop rounds r

    -- Run
    unfoldable pub consume : ℕ → R → Ending × R
    unfolding grouped
    consume rounds r =
        grouped rounds (ensure_consumer_group c.streams c.config.auction_id c.config.group r)
