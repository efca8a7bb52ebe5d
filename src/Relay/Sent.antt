-- ===== src/Relay/Sent.antt =====
-- At-least-once publication by the relay.
use bid_lane.Prelude.{
  ℕ, zero, suc, ◌+◌, ◌≤◌, refl, ◌≡◌, ◌⊎◌, inl, inr, none, some, Option, Bool-cases, Text, Bool,
  true, false, arith,
}
use bid_lane.Prelude.Int.{ℤ}
use bid_lane.Postgres.Schema.{Uuid, Db}
use bid_lane.Postgres.Outbox.{OutboxEvent, RelayService, PublishError, Published, ok, err, Callback}
use bid_lane.Postgres.Outbox.Sent.{AllSent, All-later, publish_next-AllSent}
use bid_lane.Relay.{
  PublishedEvent, envelope_of, OutboxRelay, send, publish_envelope, process_one, process_batch,
  RelayEnding, after_batch, run_relay,
}

Published-cases :
    (y : Published) → ((p : PublishError) × (y ≡ err p)) ⊎ (y ≡ ok false) ⊎ (y ≡ ok true)
Published-cases (err p) = inl (p, refl)
Published-cases (ok false) = inr (inl refl)
Published-cases (ok true) = inr (inr refl)

module _ {E : Type 0} (marshal : PublishedEvent → Text ⊎ Text) (sent : Uuid → E → Bool)
    (next_service : E → RelayService × E) (relay : OutboxRelay E)
    (publisher_sends : (v : OutboxEvent) (m : Text) (e : E)
      → marshal (envelope_of v) ≡ inr m
      → (relay.publisher relay.config.channel m e).0 ≡ none
      → sent v.id (relay.publisher relay.config.channel m e).1 ≡ true)
    (publisher_keeps : (m : Text) (id : Uuid) (e : E)
      → sent id e ≡ true
      → sent id (relay.publisher relay.config.channel m e).1 ≡ true)
    (hook_keeps : (hook : Callback E) (v : OutboxEvent) (id : Uuid) (e : E)
      → relay.config.after_publish_before_mark ≡ some hook
      → sent id e ≡ true
      → sent id (hook v e).1 ≡ true)
    (service_keeps : (id : Uuid) (e : E)
      → sent id e ≡ true
      → sent id (next_service e).1 ≡ true) where
  send_sends :
      (v : OutboxEvent) (e : E) (m : Text ⊎ Text)
      → marshal (envelope_of v) ≡ m
      → (send marshal relay m e).0 ≡ none
      → sent v.id (send marshal relay m e).1 ≡ true
  unfolding send
  send_sends v e (inl x) em h = cc
  send_sends v e (inr m) em h = publisher_sends v m e em h

  send_keeps :
      (id : Uuid) (e : E) (m : Text ⊎ Text)
      → sent id e ≡ true
      → sent id (send marshal relay m e).1 ≡ true
  unfolding send
  send_keeps id e (inl x) h = h
  send_keeps id e (inr m) h = publisher_keeps m id e h

  -- One call of ProcessOne.
  process_one-AllSent :
      (s : RelayService) (db : Db) (e : E)
      → AllSent sent db e
      → let x = process_one marshal relay s db e in AllSent sent x.1 x.2
  unfolding process_one publish_envelope
  process_one-AllSent s db e h =
      publish_next-AllSent sent (publish_envelope marshal relay)
        relay.config.after_publish_before_mark
        (λ v e. send_sends v e (marshal (envelope_of v)) refl)
        (λ v id e. send_keeps id e (marshal (envelope_of v))) hook_keeps s db e h

  -- If a publication without an error reaches the receivers, and what has reached them stays so: in a
  -- batch of up to n events, whatever fails, every event that is marked as published has reached
  -- them, if that was so before, and at most n more are counted.
  pub process_batch-AllSent :
      (n processed : ℕ) (db : Db) (e : E)
      → AllSent sent db e
      → let x = process_batch marshal next_service relay n processed db e in
        AllSent sent x.1 x.2 × (x.0.0 ≤ processed + n)
  unfolding process_batch
  process_batch-AllSent zero processed db e h = (h, omega arith)
  process_batch-AllSent (suc n) processed db e h =
      let next = (next_service e).1 in
      let x = process_one marshal relay (next_service e).0 db next in
      let h1 =
        process_one-AllSent (next_service e).0 db next
          (All-later sent e next db.outbox (λ id. service_keeps id e) h) in
      elim (Published-cases x.0) [
        | inl (y, ey) ↦ rw (process_batch, ey) (h1, omega arith)
        | inr (inl ey) ↦ rw (process_batch, ey) (h1, omega arith)
        | inr (inr ey) ↦
            let (sent_all, bound) = process_batch-AllSent n (processed + 1) x.1 x.2 h1 in
            rw (process_batch, ey) (sent_all, omega (arith, bound))
      ]

  -- The outer loop: what follows a batch, and Run.
  module _ (cancelled : E → Bool) (wait : ℤ → E → Bool × E)
      (wait_keeps : (interval : ℤ) (id : Uuid) (e : E)
        → sent id e ≡ true
        → sent id (wait interval e).1 ≡ true) where
    after_batch-AllSent :
        (x : (ℕ × Option PublishError) × Db × E) (rest : Db → E → RelayEnding × Db × E)
        → AllSent sent x.1 x.2
        → ((db : Db) (e : E) → AllSent sent db e → let y = rest db e in AllSent sent y.1 y.2)
        → let y = after_batch marshal next_service cancelled wait relay x rest in
          AllSent sent y.1 y.2
    unfolding after_batch
    after_batch-AllSent ((processed, some y), db, e) rest h k = h
    after_batch-AllSent ((zero, none), db, e) rest h k =
        let interval = relay.config.poll_interval in
        let later =
          All-later sent e (wait interval e).1 db.outbox (λ id. wait_keeps interval id e) h in
        elim (Bool-cases (wait interval e).0) [
          | inl done ↦ rw (after_batch, done) later
          | inr on ↦ rw (after_batch, on) (k db (wait interval e).1 later)
        ]
    after_batch-AllSent ((suc processed, none), db, e) rest h k = k db e h

    -- If a publication without an error reaches the receivers, and nothing makes the receivers
    -- lose what has reached them: however many rounds Run of the relay has made, whether it goes
    -- on or has returned, whatever fails, every event that is marked as published has reached
    -- them, if that was so before.
    pub run_relay-AllSent :
        (rounds : ℕ) (db : Db) (e : E)
        → AllSent sent db e
        → let x = run_relay marshal next_service cancelled wait relay rounds db e in
          AllSent sent x.1 x.2
    unfolding run_relay
    run_relay-AllSent zero db e h = h
    run_relay-AllSent (suc rounds) db e h = elim (Bool-cases (cancelled e)) [
      | inl stop ↦ rw (run_relay, stop) h
      | inr on ↦
          rw (run_relay, on)
            (after_batch-AllSent _ _ (process_batch-AllSent _ 0 db e h).0
              (run_relay-AllSent rounds))
    ]
