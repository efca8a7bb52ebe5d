-- ===== src/Redis/Streams.antt =====
-- The operations of internal/store/redis/streams.go and recovery.go, over a Redis client.
pub mod Inversion
pub mod Messages
use bid_lane.Prelude.{
  ◌≡◌, ◌⊎◌, inl, inr, refl, ◌∷◌, [], ◌++◌, List, Option, none, some, Text, codes, is_empty, text_eq,
  Bool, true, false, ◌&&◌, ◌||◌, if◌then◌else◌,
}
use bid_lane.Prelude.Int.{ℤ, pos, leb_ℤ, ltb_ℤ}
use bid_lane.Redis.Message.{
  BidIngress, BidStreamEntry, ParseError, XMessage, parsed, refused, append_values, parse_message,
}
use bid_lane.Redis.Client.{RedisClient, Reply, reply, failure, nothing}

-- The errors of the operations: the argument that is missing or bad, the failure of a call, or the
-- entry that cannot be read.
pub data StreamError : Type 0 where
  not_configured auction_id_required group_required consumer_required : StreamError
  bidder_id_required amount_not_positive idempotency_key_required : StreamError
  correlation_id_required count_not_positive block_negative min_idle_negative : StreamError
  call_failed : Text → StreamError
  entry_unreadable : Text → ParseError → StreamError

pub data Outcome {ℓ} (A : Type ℓ) : Type ℓ where
  ok : A → Outcome A
  err : StreamError → Outcome A

-- StreamKey
unfoldable pub stream_key : Text → Text
stream_key auction_id = codes "auction:" ++ (auction_id ++ codes ":bids")

-- A store holds a client, or nil.
pub record StreamStore (R : Type 0) : Type 0 where
  pub client : Option (RedisClient R)

abbrev pub is_prefix : Text → Text → Bool
is_prefix [] s = true
is_prefix (c ∷ p) [] = false
is_prefix (c ∷ p) (d ∷ s) = text_eq (c ∷ []) (d ∷ []) && is_prefix p s

-- strings.Contains
abbrev pub contains : Text → Text → Bool
contains [] p = is_prefix p []
contains (c ∷ s) p = is_prefix p (c ∷ s) || contains s p

-- The conversion of the messages of a reply, in their order, up to the first that cannot be read.
abbrev prepend : BidStreamEntry → Outcome (List BidStreamEntry) → Outcome (List BidStreamEntry)
prepend entry (ok entries) = ok (entry ∷ entries)
prepend entry (err e) = err e

unfoldable pub parse_messages : List XMessage → Outcome (List BidStreamEntry)
parse_messages [] = ok []
parse_messages (m ∷ messages) =
    let rest = parse_messages messages in
    elim (parse_message m) [
      | parsed entry ↦ prepend entry rest
      | refused e ↦ err (entry_unreadable m.id e)
    ]

unfoldable pub flatten : List (Text × List XMessage) → List XMessage
flatten [] = []
flatten ((_, messages) ∷ streams) = messages ++ flatten streams

-- The cursor of a scan: the beginning, if none is given.
abbrev pub cursor_of : Text → Text
cursor_of start = if is_empty start then codes "0-0" else start

-- An operation of the store, on the state of its client.
abbrev pub Op : Type 0 → Type 0 → Type 0
Op R A = R → Outcome A × R

abbrev with_cursor : Text → Outcome (List BidStreamEntry) → Outcome (List BidStreamEntry × Text)
with_cursor next (ok entries) = ok (entries, next)
with_cursor next (err e) = err e

module _ {R : Type 0} where
  refuse : {A : Type 0} → StreamError → Op R A
  refuse e r = (err e, r)

  -- What is asked of the store: `if s == nil || s.client == nil`.
  configured : {A : Type 0} → StreamStore R → (RedisClient R → Op R A) → Op R A
  unfolding refuse
  configured s f = elim s.client [ none ↦ refuse not_configured | some c ↦ f c ]

  unless : {A : Type 0} → Bool → StreamError → Op R A → Op R A
  unfolding refuse
  unless true e f = refuse e
  unless false e f = f

  -- `if err != nil { return … }`, with redis.Nil as an error like any other.
  plain : {A B : Type 0} → (A → Outcome B) → Reply A × R → Outcome B × R
  plain f (reply a, r) = (f a, r)
  plain f (failure e, r) = (err (call_failed e), r)
  plain f (nothing, r) = (err (call_failed (codes "redis: nil")), r)

  -- AppendBid
  unfoldable pub append_bid : StreamStore R → BidIngress → Op R Text
  unfolding configured unless plain
  append_bid s bid = configured s λ c. unless (is_empty bid.auction_id) auction_id_required (
      unless (is_empty bid.bidder_id) bidder_id_required (
        unless (leb_ℤ bid.amount (pos 0)) amount_not_positive (
          unless (is_empty bid.idempotency_key) idempotency_key_required (
            unless (is_empty bid.correlation_id) correlation_id_required
              (λ r. plain ok (c.x_add (stream_key bid.auction_id) (append_values bid) r))))))

  created : Reply (Unit {0}) × R → Outcome (Unit {0}) × R
  created (reply a, r) = (ok tt, r)
  created (failure e, r) =
      (if contains e (codes "BUSYGROUP") then ok tt else err (call_failed e), r)
  created (nothing, r) = (err (call_failed (codes "redis: nil")), r)

  -- EnsureConsumerGroup
  unfoldable pub ensure_consumer_group : StreamStore R → Text → Text → Op R (Unit {0})
  unfolding configured unless created
  ensure_consumer_group s auction_id group = configured s λ c.
      unless (is_empty auction_id) auction_id_required (
        unless (is_empty group) group_required
          (λ r. created (c.x_group_create_mk_stream (stream_key auction_id) group (codes "0") r)))

  entries_of : Reply (List (Text × List XMessage)) × R → Outcome (List BidStreamEntry) × R
  unfolding flatten
  entries_of (reply streams, r) = (parse_messages (flatten streams), r)
  entries_of (failure e, r) = (err (call_failed e), r)
  entries_of (nothing, r) = (ok [], r)

  -- ReadGroup
  unfoldable pub read_group :
      StreamStore R → Text → Text → Text → ℤ → ℤ → Op R (List BidStreamEntry)
  unfolding configured unless entries_of
  read_group s auction_id group consumer count block = configured s λ c.
      unless (is_empty auction_id) auction_id_required (
        unless (is_empty group) group_required (
          unless (is_empty consumer) consumer_required (
            unless (leb_ℤ count (pos 0)) count_not_positive (
              unless (ltb_ℤ block (pos 0)) block_negative (λ r.
                entries_of
                  (c.x_read_group group consumer (stream_key auction_id) count block r))))))

  -- The call behind the guards of Ack.
  acknowledge : RedisClient R → Text → Text → List Text → Op R (Unit {0})
  unfolding plain
  acknowledge c auction_id group [] r = (ok tt, r)
  acknowledge c auction_id group (id ∷ ids) r =
      plain (λ n. ok tt) (c.x_ack (stream_key auction_id) group (id ∷ ids) r)

  -- Ack
  unfoldable pub ack : StreamStore R → Text → Text → List Text → Op R (Unit {0})
  unfolding configured unless acknowledge
  ack s auction_id group ids = configured s λ c.
      unless (is_empty auction_id) auction_id_required
        (unless (is_empty group) group_required (acknowledge c auction_id group ids))

  -- Range
  unfoldable pub range : StreamStore R → Text → Op R (List BidStreamEntry)
  unfolding configured unless plain
  range s auction_id = configured s λ c.
      unless (is_empty auction_id) auction_id_required
        (λ r. plain parse_messages (c.x_range (stream_key auction_id) r))

  -- DeleteStream
  unfoldable pub delete_stream : StreamStore R → Text → Op R (Unit {0})
  unfolding configured unless plain
  delete_stream s auction_id = configured s λ c.
      unless (is_empty auction_id) auction_id_required
        (λ r. plain (λ n. ok tt) (c.del (stream_key auction_id) r))

  -- Ping
  unfoldable pub ping : StreamStore R → Op R (Unit {0})
  unfolding configured plain
  ping s = configured s λ c r. plain ok (c.ping r)

  claimed : Reply (List XMessage × Text) × R → Outcome (List BidStreamEntry × Text) × R
  claimed (reply (messages, next), r) = (with_cursor next (parse_messages messages), r)
  claimed (failure e, r) = (err (call_failed e), r)
  claimed (nothing, r) = (err (call_failed (codes "redis: nil")), r)

  -- AutoClaimPending, for a store whose client is there: it has no check for that.
  unfoldable pub auto_claim_pending :
      RedisClient R → Text → Text → Text → ℤ → Text → ℤ → Op R (List BidStreamEntry × Text)
  unfolding unless claimed
  auto_claim_pending c auction_id group consumer min_idle start count =
      unless (is_empty auction_id) auction_id_required (
        unless (is_empty group) group_required (
          unless (is_empty consumer) consumer_required (
            unless (ltb_ℤ min_idle (pos 0)) min_idle_negative (
              unless (leb_ℤ count (pos 0)) count_not_positive λ r. claimed (
                c.x_auto_claim (stream_key auction_id) group consumer min_idle (cursor_of start)
                  count r)))))

  plain_state : {A B : Type 0} (f : A → Outcome B) (x : Reply A × R) → (plain f x).1 ≡ x.1
  unfolding plain
  plain_state f (reply a, r) = refl
  plain_state f (failure e, r) = refl
  plain_state f (nothing, r) = refl

  -- Ack of one entry leaves Redis as it is, or calls XACK for that entry.
  pub ack_state :
      (c : RedisClient R) (auction_id group id : Text) (r : R)
      → ((ack (record { client = some c }) auction_id group (id ∷ []) r).1 ≡ r)
        ⊎ ((ack (record { client = some c }) auction_id group (id ∷ []) r).1
            ≡ (c.x_ack (stream_key auction_id) group (id ∷ []) r).1)
  unfolding ack
  ack_state c [] group id r = inl refl
  ack_state c (x ∷ auction_id) [] id r = inl refl
  ack_state c (x ∷ auction_id) (y ∷ group) id r = inr (plain_state _ _)
