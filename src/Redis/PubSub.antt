-- ===== src/Redis/PubSub.antt =====
-- internal/store/redis/pubsub.go: one PUBLISH behind its guards.
use bid_lane.Prelude.{ℕ, Option, none, some, Text, is_empty, codes, true, false}
use bid_lane.Redis.Client.{Reply, reply, failure, nothing}

-- The call of go-redis: channel and message; the answer is the number of the receivers.
pub record PubSubClient (R : Type 0) : Type 0 where
  pub publish : Text → Text → R → Reply ℕ × R

pub data PubSubError : Type 0 where
  publisher_not_configured channel_required message_empty : PubSubError
  publish_failed : Text → Text → PubSubError

-- A publisher holds a client, or nil.
pub record PubSubPublisher (R : Type 0) : Type 0 where
  pub client : Option (PubSubClient R)

-- NewPubSubPublisher
abbrev pub new_pub_sub_publisher : {R : Type 0} → Option (PubSubClient R) → PubSubPublisher R
new_pub_sub_publisher client = record { client = client }

abbrev pub published : {R : Type 0} → Text → Reply ℕ × R → Option PubSubError × R
published channel (reply n, r) = (none, r)
published channel (failure e, r) = (some (publish_failed channel e), r)
published channel (nothing, r) = (some (publish_failed channel (codes "redis: nil")), r)

-- Publish
unfoldable pub publish_message :
    {R : Type 0} → PubSubPublisher R → Text → Text → R → Option PubSubError × R
publish_message p channel message r = elim p.client [
  | none ↦ (some publisher_not_configured, r)
  | some c ↦ elim (is_empty channel) [
    | true ↦ (some channel_required, r)
    | false ↦ elim (is_empty message) [
      | true ↦ (some message_empty, r)
      | false ↦ published channel (c.publish channel message r)
    ]
  ]
]
