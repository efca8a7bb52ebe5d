-- ===== src/Relay/Queue/Tests.antt =====
-- Two rounds of the relay on an outbox of three events, one at a time.
use bid_lane.Prelude.{refl, ◌≡◌, ◌∷◌, [], map, take, drop, none, some, false, inr}
use bid_lane.Prelude.Int.{pos}
use bid_lane.Postgres.Schema.{OutboxRow, Payload, Db}
use bid_lane.Postgres.Statements.{has_id, bid_accepted}
use bid_lane.Postgres.Outbox.{
  event_of, publish_next, next_unpublished, mark_published, count_marked,
}
use bid_lane.Postgres.Outbox.Queue.{HasIds, waiting_rows}
use bid_lane.Relay.{envelope_of, polling, run_relay, process_one, process_batch, publish_envelope}
use bid_lane.Relay.Queue.Sample.{message, relay, service, relay-Delivers}
use bid_lane.Relay.Queue.{run_relay-publishes}

abbrev payload : Payload
payload = record {
  auction_id = 1;
  sequence_no = pos 1;
  bidder_id = 7;
  amount = pos 50;
  idempotency_key = 11;
  stream_entry_id = [];
  correlation_id = [];
  submitted_at = pos 1;
  effective_close_time = pos 100;
  extended = false;
  extension_count = 0;
}

abbrev row : OutboxRow
row = record {
  id = 20;
  event_type = bid_accepted;
  aggregate_type = [];
  aggregate_id = 1;
  aggregate_sequence = pos 1;
  payload = payload;
  created_at = pos 5;
  published_at = none;
  publish_attempts = 0;
}

-- The latest stands first in the table; two have the same time.
abbrev start : Db
start = record {
  auctions = [];
  bids = [];
  sequences = [];
  outbox =
      record row { id = 21; created_at = pos 6 }
      ∷ record row { id = 23; published_at = some (pos 4) }
      ∷ record row { id = 22 }
      ∷ row
      ∷ [];
}

start-HasIds : HasIds start.outbox
unfolding has_id
start-HasIds = (refl, (refl, (refl, (refl, tt))))

run_two :
    (run_relay
      (λ event. inr (message event))
      (λ e. (service, e))
      (λ e. false)
      (λ interval e. (false, e))
      relay
      2
      start
      []).2
    ≡ (20 ∷ []) ∷ (22 ∷ []) ∷ []
unfolding run_relay process_batch process_one publish_next next_unpublished mark_published
    count_marked publish_envelope
run_two = refl

run_relay-publishes_example :
    let x =
      run_relay
        (λ event. inr (message event))
        (λ e. (service, e))
        (λ e. false)
        (λ interval e. (false, e))
        relay
        2
        start
        [] in
    (x.0 ≡ polling)
    × (x.2 ≡ map (λ r. message (envelope_of (event_of r))) (take 2 (waiting_rows start.outbox)))
    × (waiting_rows x.1.outbox ≡ drop 2 (waiting_rows start.outbox))
run_relay-publishes_example =
    run_relay-publishes (λ event. inr (message event)) message (λ e. e) relay (λ e. (service, e))
      (λ e. false) (λ interval e. (false, e)) relay-Delivers 2 start [] start-HasIds
