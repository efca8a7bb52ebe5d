-- ===== src/Relay/Accepted.antt =====
-- From a bid that was accepted to its event at the receivers of the relay.
use bid_lane.Prelude.{
  ℕ, ◌≤◌, ◌*◌, refl, ◌≡◌, List, Any, Any-append, Any-map, length, take_all, Text, Bool, false, true,
  ◌⊎◌,
}
use bid_lane.Prelude.Int.{ℤ, pos_part}
use bid_lane.Go.Time.{Time}
use bid_lane.Postgres.Schema.{Db}
use bid_lane.Postgres.Statements.{BidToPersist, has_id}
use bid_lane.Postgres.Transaction.{Service, ok}
use bid_lane.Postgres.AntiSnipe.{AntiSnipeAppendResult, append_bid_idempotent_with_anti_snipe}
use bid_lane.Postgres.Outbox.{RelayService, event_of}
use bid_lane.Postgres.Outbox.Queue.{HasIds, waiting_rows}
use bid_lane.Postgres.Outbox.Queue.Events.{
  event_row, append-event_row, waiting_rows-append, append-HasIds,
}
use bid_lane.Relay.{PublishedEvent, envelope_of, OutboxRelay, run_relay}
use bid_lane.Relay.Queue.{Delivers, run_relay-publishes}

module _ {E : Type 0} (marshal : PublishedEvent → Text ⊎ Text) (message : PublishedEvent → Text)
    (received : E → List Text) (relay : OutboxRelay E) (next_service : E → RelayService × E)
    (cancelled : E → Bool) (wait : ℤ → E → Bool × E)
    (works : Delivers marshal message received relay next_service cancelled wait) where
  -- If AppendBidIdempotentWithAntiSnipe returned that it inserted a bid, and nothing fails around the
  -- relay: after rounds enough for the waiting events the receivers have got the event of the bid.
  pub accepted-IsReceived :
      (s : Service) (bid : BidToPersist) (t : Time) (db db' : Db) (r : AntiSnipeAppendResult)
      (rounds : ℕ) (e : E)
      → append_bid_idempotent_with_anti_snipe s bid t db ≡ (ok r, db')
      → r.result.inserted ≡ true
      → HasIds db.outbox
      → has_id s.new_id db.outbox ≡ false
      → length (waiting_rows db'.outbox) ≤ rounds * pos_part relay.config.batch_size
      → Any
          (λ m. m ≡ message (envelope_of (event_of (event_row s bid t r))))
          (received (run_relay marshal next_service cancelled wait relay rounds db' e).2)
  accepted-IsReceived s bid t db db' r rounds e call inserted ids new enough =
      let written = append-event_row s bid t db db' r call inserted in
      let ids' : HasIds db'.outbox =
        rw written (append-HasIds (event_row s bid t r) db.outbox ids new) in
      let waits : Any (λ q. q ≡ event_row s bid t r) (waiting_rows db'.outbox) =
        rw written (waiting_rows-append (event_row s bid t r) db.outbox refl) in
      let (_, sent, _) =
        run_relay-publishes marshal message received relay next_service cancelled wait works rounds
          db' e ids' in
      rw (sent, take_all _ _ enough) (Any-append (received e) _ (Any-map _ _ _ waits))
