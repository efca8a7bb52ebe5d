-- ===== src/Relay/Channel.antt =====
-- The relay over Redis pub/sub: which PUBLISH an event is.
use bid_lane.Prelude.{
  ℕ, [], ◌≢◌, refl, ap, subst, if◌then◌else◌, ◌≡◌, ◌∷◌, ◌⊎◌, inl, inr, Option, none, some, Text,
  is_empty, true, false, Bool-cases,
}
use bid_lane.Redis.Client.{Reply, reply, failure, nothing}
use bid_lane.Redis.PubSub.{
  PubSubClient, PubSubError, publish_failed, message_empty, published, publish_message,
  new_pub_sub_publisher,
}
use bid_lane.Postgres.Outbox.{OutboxEvent}
use bid_lane.Relay.{
  PublishedEvent, envelope_of, Publisher, Config, default_bid_events_channel, OutboxRelay,
  new_outbox_relay, with_defaults, send, publish_envelope,
}

-- The text of an error is a parameter.
module _ {E : Type 0} (message_of : PubSubError → Text) where
  abbrev worded : Option PubSubError × E → Option Text × E
  worded (none, e) = (none, e)
  worded (some x, e) = (some (message_of x), e)

  -- A PubSubPublisher where the relay wants a Publisher.
  abbrev pub pub_sub : PubSubClient E → Publisher E
  pub_sub client channel message e =
      worded (publish_message (new_pub_sub_publisher (some client)) channel message e)

  abbrev pub channel_of : Config E → Text
  channel_of config = if is_empty config.channel then default_bid_events_channel else config.channel

  channel_of_nonempty : (config : Config E) → is_empty (channel_of config) ≡ false
  channel_of_nonempty config = elim (Bool-cases (is_empty config.channel)) [
    | inl e ↦ rw e refl
    | inr e ↦ rw e e
  ]

  unguarded :
      (client : PubSubClient E) (channel : Text) (b : ℕ) (message : Text) (e : E)
      → is_empty channel ≡ false
      → publish_message (new_pub_sub_publisher (some client)) channel (b ∷ message) e
        ≡ published channel (client.publish channel (b ∷ message) e)
  unfolding publish_message
  unguarded client channel b message e h = rw (publish_message, h) refl

  -- What the relay is told of a message that goes to a channel, by the answer of PUBLISH: nothing
  -- where it was answered, else the failure, in words.
  pub record IsAnswered (channel : Text) (answer : Reply ℕ × E) (x : Option Text × E) : Type 0 where
    pub state : x.1 ≡ answer.1
    pub answered : (receivers : ℕ) → answer.0 ≡ reply receivers → x.0 ≡ none
    pub failed :
        (error : Text)
        → answer.0 ≡ failure error
        → x.0 ≡ some (message_of (publish_failed channel error))
    pub unanswered : answer.0 ≡ nothing → x.0 ≢ none

  published-IsAnswered :
      (channel : Text) (answer : Reply ℕ × E)
      → IsAnswered channel answer (worded (published channel answer))
  published-IsAnswered channel (reply n, e) = record {
    state = refl;
    answered = λ m h. refl;
    failed = λ error h. cc;
    unanswered = λ h. cc;
  }
  published-IsAnswered channel (failure error, e) = record {
    state = refl;
    answered = λ m h. cc;
    failed = λ error' h.
        let same : error ≡ error' = cc h in
        ap (λ y. some (message_of (publish_failed channel y))) same;
    unanswered = λ h. cc;
  }
  published-IsAnswered channel (nothing, e) = record {
    state = refl;
    answered = λ m h. cc;
    failed = λ error h. cc;
    unanswered = λ h k. cc k;
  }

  -- The publication of an event by what encoding/json makes of its envelope: an error, no text, or a
  -- message.
  abbrev pub Publishes : PubSubClient E → Config E → Text ⊎ Text → E → Option Text × E → Type 0
  Publishes client config (inl error) e x = x ≡ (some error, e)
  Publishes client config (inr []) e x = (x.0 ≢ none) × (x.1 ≡ e)
  Publishes client config (inr (b ∷ message)) e x =
      IsAnswered (channel_of config) (client.publish (channel_of config) (b ∷ message) e) x

  no_message :
      (client : PubSubClient E) (channel : Text) (e : E)
      → is_empty channel ≡ false
      → publish_message (new_pub_sub_publisher (some client)) channel [] e ≡ (some message_empty, e)
  unfolding publish_message
  no_message client channel e h = rw (publish_message, h) refl

  made-Publishes :
      (marshal : PublishedEvent → Text ⊎ Text) (client : PubSubClient E) (config : Config E)
      (event : OutboxEvent) (e : E) (m : Text ⊎ Text)
      → marshal (envelope_of event) ≡ m
      → Publishes client config m e (
          publish_envelope marshal
            (record { publisher = pub_sub client; config = with_defaults config })
            event
            e)
  unfolding send
  made-Publishes marshal client config event e (inl error) h = rw h refl
  made-Publishes marshal client config event e (inr []) h =
      rw (h, no_message client (channel_of config) e (channel_of_nonempty config))
        ((λ k. cc k), refl)
  made-Publishes marshal client config event e (inr (b ∷ message)) h =
      rw (h, unguarded client (channel_of config) b message e (channel_of_nonempty config))
        (published-IsAnswered (channel_of config)
          (client.publish (channel_of config) (b ∷ message) e))

  -- For a relay that NewOutboxRelay made over a pub/sub publisher with a client, the publication of
  -- an event is: where its envelope does not encode, that error, and nothing is sent; where it
  -- encodes to no text, an error, and nothing is sent; else one PUBLISH of the message to the
  -- configured channel, or the default one, without an error where it was answered, and with the
  -- failure where it was not.
  pub publish_envelope-Publishes :
      (marshal : PublishedEvent → Text ⊎ Text) (client : PubSubClient E) (config : Config E)
      (relay : OutboxRelay E) (event : OutboxEvent) (e : E)
      → new_outbox_relay true (some (pub_sub client)) config ≡ inr relay
      → Publishes client config
          (marshal (envelope_of event))
          e
          (publish_envelope marshal relay event e)
  unfolding new_outbox_relay
  publish_envelope-Publishes marshal client config relay event e made =
      let made_of : OutboxRelay E = record {
        publisher = pub_sub client;
        config = with_defaults config;
      } in
      let same : made_of ≡ relay = cc made in
      subst
        (λ r.
          Publishes client config (marshal (envelope_of event)) e
            (publish_envelope marshal r event e))
        same (made-Publishes marshal client config event e (marshal (envelope_of event)) refl)
