-- ===== src/Engine/Consumer/Acknowledged.antt =====
-- What the consumer takes off the pending list, and when it ends without an error.
use bid_lane.Prelude.{
  ℕ, zero, suc, refl, subst, ap, ◌≡◌, ◌⊎◌, inl, inr, ◌∷◌, [], List, All, Option, none, some, Text,
  Bool, true, false, Bool-cases, arith,
}
use bid_lane.Redis.Message.{BidStreamEntry}
use bid_lane.Redis.Client.{RedisClient, reply}
use bid_lane.Redis.Streams.{
  StreamError, Outcome, ok, err, stream_key, ack, ack_state, ensure_consumer_group,
}
use bid_lane.Redis.Streams.Inversion.{Acks, ack-Acks}
use bid_lane.Engine.Consumer.{
  Consumer, new_consumer, ConsumerConfig, ConsumeError, Ending, going, ended, ack_entry,
  consume_entries, consume_loop, consume, after_read, unless_error, grouped,
}

abbrev is_ok : {A : Type 0} → Outcome A → Bool
is_ok (ok a) = true
is_ok (err e) = false

Outcome-cases : (x : Outcome (Unit {0})) → (x ≡ ok tt) ⊎ ((e : StreamError) × (x ≡ err e))
Outcome-cases (ok tt) = inl refl
Outcome-cases (err e) = inr (e, refl)

abbrev pub consumer_of : {R : Type 0} → RedisClient R → ConsumerConfig → Consumer R
consumer_of client config = new_consumer (record { client = some client }) config

module _ {R : Type 0} (client : RedisClient R) (config : ConsumerConfig)
    (is_pending : Text → Text → Text → R → Bool)
    (x_ack-removes : (stream group id : Text) (r r' : R) (k : ℕ)
      → client.x_ack stream group (id ∷ []) r ≡ (reply k, r')
      → is_pending stream group id r' ≡ false)
    (x_ack-adds_none : (stream group acked other_stream other_group other : Text) (r : R)
      → is_pending other_stream other_group other r ≡ false
      → is_pending other_stream other_group other (client.x_ack stream group (acked ∷ []) r).1
        ≡ false) where
  acknowledged :
      (auction_id group id : Text) (r : R) (x : Outcome (Unit {0}) × R)
      → Acks (client.x_ack (stream_key auction_id) group (id ∷ []) r) x
      → x.0 ≡ ok tt
      → is_pending (stream_key auction_id) group id x.1 ≡ false
  acknowledged auction_id group id r (ok _, r') (k, e) h =
      x_ack-removes (stream_key auction_id) group id r r' k e
  acknowledged auction_id group id r (err e, r') a h = cc

  kept :
      (auction_id id other_stream other_group other : Text) (r : R)
      → is_pending other_stream other_group other r ≡ false
      → is_pending other_stream other_group other
          (ack (record { client = some client }) auction_id config.group (id ∷ []) r).1
        ≡ false
  kept auction_id id other_stream other_group other r h =
      elim (ack_state client auction_id config.group id r) [
        | inl e ↦ rw e h
        | inr e ↦ rw e (x_ack-adds_none _ _ id other_stream other_group other r h)
      ]

  consume_entries_kept :
      (entries : List BidStreamEntry) (other_stream other_group other : Text) (r : R)
      → is_pending other_stream other_group other r ≡ false
      → is_pending other_stream other_group other
          (consume_entries (consumer_of client config) entries r).1
        ≡ false
  unfolding consume_entries
  consume_entries_kept [] other_stream other_group other r h = h
  consume_entries_kept (entry ∷ entries) other_stream other_group other r h =
      let x = ack_entry (consumer_of client config) entry r in
      let step = kept entry.ingress.auction_id entry.id other_stream other_group other r h in
      elim (Outcome-cases x.0) [
        | inl e ↦
            rw (consume_entries, e)
              (consume_entries_kept entries other_stream other_group other x.1 step)
        | inr (y, e) ↦ rw (consume_entries, e) step
      ]

  -- If an answered XACK takes its entry off the pending list and no XACK adds one: where the loop
  -- over a read ends without an error, each entry of the read is off the pending list of the
  -- stream that its own auction field names.
  pub consume_entries-IsAcknowledged :
      (entries : List BidStreamEntry) (r r' : R)
      → consume_entries (consumer_of client config) entries r ≡ (none, r')
      → All
          (λ entry.
            is_pending (stream_key entry.ingress.auction_id) config.group entry.id r' ≡ false)
          entries
  unfolding consume_entries
  consume_entries-IsAcknowledged [] r r' h = tt
  consume_entries-IsAcknowledged (entry ∷ entries) r r' h =
      let x = ack_entry (consumer_of client config) entry r in
      elim (Outcome-cases x.0) [
        | inl e ↦
            let rest : consume_entries (consumer_of client config) entries x.1 ≡ (none, r') =
              rw (consume_entries, e) at h in
            let removed =
              acknowledged entry.ingress.auction_id config.group entry.id r x
                (ack-Acks client entry.ingress.auction_id config.group entry.id r) e in
            (
              subst
                  (λ x.
                    is_pending (stream_key entry.ingress.auction_id) config.group entry.id x
                    ≡ false)
                  (ap (λ y. y.1) rest)
                  (consume_entries_kept entries _ config.group entry.id x.1 removed),
              consume_entries-IsAcknowledged entries x.1 r' rest,
            )
        | inr (y, e) ↦ absurd (ground (arith, (rw (consume_entries, e) at h)))
      ]

module _ {R : Type 0} (c : Consumer R) (cancelled : R → Bool) where
  -- It ends without an error only where its context is cancelled.
  abbrev pub EndsCancelled : Ending × R → Type 0
  EndsCancelled (going, r) = Unit
  EndsCancelled (ended none, r) = cancelled r ≡ true
  EndsCancelled (ended (some e), r) = Unit

  unless_error-EndsCancelled :
      (o : Option ConsumeError) (r : R) (rest : Ending × R)
      → EndsCancelled rest
      → EndsCancelled (unless_error c cancelled o (ended o, r) rest)
  unfolding unless_error
  unless_error-EndsCancelled none r rest h = h
  unless_error-EndsCancelled (some e) r rest h = tt

  read-EndsCancelled :
      (rounds : ℕ) (x : Outcome (List BidStreamEntry) × R)
      → ((r : R) → EndsCancelled (consume_loop c cancelled rounds r))
      → EndsCancelled (after_read c cancelled x (λ r. consume_loop c cancelled rounds r))
  unfolding after_read
  read-EndsCancelled rounds (err e, r) h = elim (Bool-cases (cancelled r)) [
    | inl stop ↦ rw stop stop
    | inr on ↦ rw on tt
  ]
  read-EndsCancelled rounds (ok entries, r) h = unless_error-EndsCancelled _ _ _ (h _)

  consume_loop-EndsCancelled :
      (rounds : ℕ) (r : R) → EndsCancelled (consume_loop c cancelled rounds r)
  unfolding consume_loop
  consume_loop-EndsCancelled zero r = tt
  consume_loop-EndsCancelled (suc rounds) r = elim (Bool-cases (cancelled r)) [
    | inl stop ↦ rw stop stop
    | inr on ↦ rw on (read-EndsCancelled rounds _ (consume_loop-EndsCancelled rounds))
  ]

  grouped-EndsCancelled :
      (rounds : ℕ) (x : Outcome (Unit {0}) × R) → EndsCancelled (grouped c cancelled rounds x)
  unfolding grouped
  grouped-EndsCancelled rounds (err e, r) = tt
  grouped-EndsCancelled rounds (ok _, r) = consume_loop-EndsCancelled rounds r

  -- However many rounds Run of the first consumer has made: it has returned without an error only
  -- where its context is cancelled.
  pub consume-EndsCancelled : (rounds : ℕ) (r : R) → EndsCancelled (consume c cancelled rounds r)
  unfolding consume
  consume-EndsCancelled rounds r =
      grouped-EndsCancelled rounds
        (ensure_consumer_group c.streams c.config.auction_id c.config.group r)
