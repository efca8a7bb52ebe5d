-- ===== src/Relay/Queue/Sample.antt =====
-- A relay whose receivers keep the messages, each the id of its event; nothing fails around it.
use bid_lane.Prelude.{refl, ◌∷◌, [], ◌++◌, List, none, Text, false, inr}
use bid_lane.Prelude.Int.{pos}
use bid_lane.Postgres.Transaction.{committed}
use bid_lane.Postgres.Outbox.{RelayService}
use bid_lane.Postgres.Outbox.Queue.{IsQuiet}
use bid_lane.Relay.{PublishedEvent, OutboxRelay}
use bid_lane.Relay.Queue.{Delivers}

abbrev pub service : RelayService
service = record {
  begin_fails = false;
  select_fails = false;
  mark_fails = false;
  commit = committed;
  locked = λ r. false;
  now = pos 9;
}

abbrev pub message : PublishedEvent → Text
message event = event.event_id ∷ []

abbrev pub relay : OutboxRelay (List Text)
relay = record {
  publisher = λ channel m e. (none, e ++ m ∷ []);
  config = record {
    channel = [];
    batch_size = pos 1;
    poll_interval = pos 5;
    after_publish_before_mark = none;
  };
}

service-IsQuiet : IsQuiet service
service-IsQuiet = record {
  begins = refl;
  selects = refl;
  marks = refl;
  commits = refl;
  free = λ r. refl;
}

pub relay-Delivers :
    Delivers
      (λ event. inr (message event))
      message
      (λ e. e)
      relay
      (λ e. (service, e))
      (λ e. false)
      (λ interval e. (false, e))
relay-Delivers = record {
  marshals = λ event. refl;
  no_hook = refl;
  publishes = λ m e. (refl, refl);
  quiet = λ e. service-IsQuiet;
  service_keeps = λ e. refl;
  goes_on = λ e. refl;
  polls = λ interval e. refl;
  wait_keeps = λ interval e. refl;
}
