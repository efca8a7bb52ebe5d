-- ===== src/Relay/Tests.antt =====
-- A run of the relay on an outbox of two events, the publisher keeping the ids that it was sent.
use bid_lane.Prelude.{
  refl, ◌≡◌, ◌∷◌, [], List, ◌⊎◌, inr, none, some, Text, codes, Bool, true, false, ◌||◌, ◌==◌,
  ==_refl, arith,
}
use bid_lane.Prelude.Int.{pos}
use bid_lane.Postgres.Schema.{Uuid, OutboxRow, Payload, Db}
use bid_lane.Postgres.Transaction.{committed}
use bid_lane.Postgres.Outbox.{
  RelayService, publish_next, next_unpublished, mark_published, count_marked, event_of,
}
use bid_lane.Postgres.Outbox.Sent.{AllSent}
use bid_lane.Postgres.Outbox.{Callback}
use bid_lane.Postgres.Outbox.Next.{Takes, publish_next-Takes}
use bid_lane.Relay.{
  PublishedEvent, OutboxRelay, Config, default_bid_events_channel, new_outbox_relay, process_one,
  process_batch, run_relay, publish_envelope, with_defaults,
}
use bid_lane.Relay.Sent.{run_relay-AllSent}
use bid_lane.Redis.Client.{reply}
use bid_lane.Redis.PubSub.{PubSubClient, PubSubError}
use bid_lane.Relay.Channel.{pub_sub, IsAnswered, publish_envelope-Publishes}

abbrev has : Uuid → List Uuid → Bool
has id [] = false
has id (x ∷ xs) = x == id || has id xs

abbrev push : Text → List Uuid → List Uuid
push [] e = e
push (x ∷ _) e = x ∷ e

-- A message is the id of its event.
abbrev marshal : PublishedEvent → Text ⊎ Text
marshal event = inr (event.event_id ∷ [])

abbrev config : Config (List Uuid)
config = record {
  channel = [];
  batch_size = pos 0;
  poll_interval = pos 5;
  after_publish_before_mark = none;
}

abbrev relay : OutboxRelay (List Uuid)
relay = record {
  publisher = λ channel m e. (none, push m e);
  config = record config { channel = default_bid_events_channel; batch_size = pos 100 };
}

-- The defaults of NewOutboxRelay.
run_defaults :
    new_outbox_relay true (some (λ channel m (e : List Uuid). (none, push m e))) config ≡ inr relay
unfolding new_outbox_relay
run_defaults = refl

abbrev service : RelayService
service = record {
  begin_fails = false;
  select_fails = false;
  mark_fails = false;
  commit = committed;
  locked = λ r. false;
  now = pos 9;
}

abbrev payload : Payload
payload = record {
  auction_id = 1;
  sequence_no = pos 1;
  bidder_id = 7;
  amount = pos 50;
  idempotency_key = 11;
  stream_entry_id = codes "1-0";
  correlation_id = codes "c";
  submitted_at = pos 1;
  effective_close_time = pos 100;
  extended = false;
  extension_count = 0;
}

abbrev row : OutboxRow
row = record {
  id = 20;
  event_type = codes "BidAccepted";
  aggregate_type = codes "auction";
  aggregate_id = 1;
  aggregate_sequence = pos 1;
  payload = payload;
  created_at = pos 5;
  published_at = none;
  publish_attempts = 0;
}

-- The later row stands first in the table.
abbrev start : Db
start = record {
  auctions = [];
  bids = [];
  sequences = [];
  outbox = record row { id = 21; created_at = pos 6 } ∷ row ∷ [];
}

abbrev after : Db
after = record start {
  outbox =
      record row { id = 21; created_at = pos 6 }
      ∷ record row { published_at = some (pos 9); publish_attempts = 1 }
      ∷ [];
}

run_one : process_batch marshal (λ e. (service, e)) relay 1 0 start [] ≡ ((1, none), after, 20 ∷ [])
unfolding process_batch process_one publish_next next_unpublished mark_published count_marked
    publish_envelope
run_one = refl

run_both : (process_batch marshal (λ e. (service, e)) relay 5 0 start []).2 ≡ 21 ∷ 20 ∷ []
unfolding process_batch process_one publish_next next_unpublished mark_published count_marked
    publish_envelope
run_both = refl

abbrev marshal_id : Uuid → Text ⊎ Text
marshal_id id = inr (id ∷ [])

push_sends :
    (id : Uuid) (m : Text) (e : List Uuid) → marshal_id id ≡ inr m → has id (push m e) ≡ true
push_sends id [] e h = cc
push_sends id (x ∷ xs) e h = let same : x ≡ id = cc h in ground (arith, same, ==_refl id)

push_keeps : (m : Text) (id : Uuid) (e : List Uuid) → has id e ≡ true → has id (push m e) ≡ true
push_keeps [] id e h = h
push_keeps (x ∷ xs) id e h = ground (arith, h)

abbrev callback : Callback (List Uuid)
callback event e = (none, event.id ∷ e)

publish_next-Takes_example :
    Takes service start (publish_next (some callback) none service start [])
publish_next-Takes_example = publish_next-Takes (some callback) none service start []

-- The context is cancelled at the first wait.
run_relay-AllSent_example :
    let x =
      run_relay marshal
        (λ e. (service, e))
        (λ e. false)
        (λ interval e. (true, e))
        relay
        3
        start
        [] in
    AllSent has x.1 x.2
run_relay-AllSent_example =
    run_relay-AllSent marshal has (λ e. (service, e)) relay (λ v m e em h. push_sends v.id m e em)
      (λ m id e h. push_keeps m id e h) (λ hook v id e no_hook h. cc no_hook) (λ id e h. h)
      (λ e. false) (λ interval e. (true, e)) (λ interval id e h. h) 3 start []
      (λ h. cc h, (λ h. cc h, tt))

abbrev client : PubSubClient (List Text)
client = record { publish = λ channel m e. (reply 1, channel ∷ m ∷ e) }

abbrev words : PubSubError → Text
words x = codes "refused"

abbrev text_config : Config (List Text)
text_config = record {
  channel = [];
  batch_size = pos 0;
  poll_interval = pos 5;
  after_publish_before_mark = none;
}

publish_envelope-Publishes_example :
    IsAnswered words
      (codes "bidlane:events:bids")
      (reply 1, codes "bidlane:events:bids" ∷ (20 ∷ []) ∷ [])
      (publish_envelope marshal
        (record { publisher = pub_sub words client; config = with_defaults text_config })
        (event_of row)
        [])
unfolding new_outbox_relay
publish_envelope-Publishes_example =
    publish_envelope-Publishes words marshal client text_config
      (record { publisher = pub_sub words client; config = with_defaults text_config })
      (event_of row) [] refl
