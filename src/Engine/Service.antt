-- ===== src/Engine/Service.antt =====
-- internal/engine/service.go: bids are checked and appended to the stream of their auction.
pub mod Effects
mod Tests
use bid_lane.Prelude.{Option, none, some, Text, is_empty, if◌then◌else◌}
use bid_lane.Prelude.Int.{ℤ, pos, leb_ℤ}
use bid_lane.Postgres.Schema.{Uuid}
use bid_lane.Redis.Message.{BidIngress}
use bid_lane.Redis.Streams as Streams
use bid_lane.Redis.Streams.{StreamError, Outcome, StreamStore, append_bid}

pub data ServiceError : Type 0 where
  invalid_idempotency_key : Text → ServiceError
  auction_id_required bidder_id_required amount_not_positive idempotency_key_required : ServiceError
  append_failed : StreamError → ServiceError

-- The stream entry's id, or an error.
pub data Reservation : Type 0 where
  reserved : Text → Reservation
  refused : ServiceError → Reservation

-- Service
pub record BidService (R : Type 0) : Type 0 where
  pub streams : StreamStore R

abbrev pub ingress_of : Text → Text → ℤ → Text → Text → BidIngress
ingress_of auction_id bidder_id amount key correlation_id = record {
  auction_id = auction_id;
  bidder_id = bidder_id;
  amount = amount;
  idempotency_key = key;
  correlation_id = correlation_id;
}

module _ {R : Type 0} where
  appended : Outcome Text × R → Reservation × R
  appended (Streams.ok id, r) = (reserved id, r)
  appended (Streams.err e, r) = (refused (append_failed e), r)

  -- reserveBid; the last text is what uuid.NewString returns for the correlation id.
  unfoldable pub reserve : BidService R → Text → Text → ℤ → Text → Text → R → Reservation × R
  unfolding appended
  reserve s auction_id bidder_id amount key correlation_id r =
      if is_empty auction_id
      then (refused auction_id_required, r)
      else if is_empty bidder_id
      then (refused bidder_id_required, r)
      else if leb_ℤ amount (pos 0)
      then (refused amount_not_positive, r)
      else if is_empty key
      then (refused idempotency_key_required, r)
      else appended
          (append_bid s.streams (ingress_of auction_id bidder_id amount key correlation_id) r)

  -- ReserveBid; the last two texts are what uuid.NewString returns, in this order.
  unfoldable pub reserve_bid : BidService R → Text → Text → ℤ → Text → Text → R → Reservation × R
  reserve_bid s auction_id bidder_id amount new_key correlation_id r =
      reserve s auction_id bidder_id amount new_key correlation_id r

  reserve_parsed : Option Uuid → BidService R → Text → Text → ℤ → Text → Text → R → Reservation × R
  reserve_parsed none s auction_id bidder_id amount key correlation_id r =
      (refused (invalid_idempotency_key key), r)
  reserve_parsed (some _) s auction_id bidder_id amount key correlation_id r =
      reserve s auction_id bidder_id amount key correlation_id r

  -- ReserveBidWithIdempotencyKey
  unfoldable pub reserve_bid_with_idempotency_key :
      (Text → Option Uuid) → BidService R → Text → Text → ℤ → Text → Text → R → Reservation × R
  unfolding reserve_parsed
  reserve_bid_with_idempotency_key parse_uuid s auction_id bidder_id amount key correlation_id r =
      reserve_parsed (parse_uuid key) s auction_id bidder_id amount key correlation_id r
