-- ===== src/Engine/Service/Effects.antt =====
-- What a reservation does to Redis, on every branch.
use bid_lane.Prelude.{refl, ◌≡◌, ◌⊎◌, inl, Option, none, some, Text, is_empty, if_elim}
use bid_lane.Prelude.Int.{ℤ, pos, leb_ℤ}
use bid_lane.Postgres.Schema.{Uuid}
use bid_lane.Redis.Message.{BidIngress, append_values}
use bid_lane.Redis.Client.{RedisClient, reply}
use bid_lane.Redis.Streams as Streams
use bid_lane.Redis.Streams.{StreamError, Outcome, StreamStore, stream_key, append_bid}
use bid_lane.Redis.Streams.Inversion.{Appends, IsComplete, IsUnanswered, append_bid-Appends}
use bid_lane.Engine.Service.{
  Reservation, reserved, refused, BidService, ingress_of, appended, reserve, reserve_parsed,
  reserve_bid_with_idempotency_key,
}

module _ {R : Type 0} (c : RedisClient R) where
  abbrev pub service : BidService R
  service = record { streams = record { client = some c } }

  -- A reservation is one XADD of the bid's fields to the auction's stream, for a bid that has
  -- everything. A refusal leaves Redis as it was, or as an XADD that failed left it.
  abbrev pub Reserves : BidIngress → R → Reservation × R → Type 0
  Reserves bid r (reserved id, r') =
      IsComplete bid × (c.x_add (stream_key bid.auction_id) (append_values bid) r ≡ (reply id, r'))
  Reserves bid r (refused e, r') =
      (r' ≡ r)
      ⊎ (IsComplete bid
          × IsUnanswered (c.x_add (stream_key bid.auction_id) (append_values bid) r) r')

  appended-Reserves :
      (bid : BidIngress) (r : R) (y : Outcome Text × R)
      → Appends bid r (c.x_add (stream_key bid.auction_id) (append_values bid) r) y
      → Reserves bid r (appended y)
  unfolding appended
  appended-Reserves bid r (Streams.ok id, r') h = h
  appended-Reserves bid r (Streams.err e, r') h = h

  pub reserve-Reserves :
      (auction_id bidder_id : Text) (amount : ℤ) (key correlation_id : Text) (r : R)
      → let bid = ingress_of auction_id bidder_id amount key correlation_id in
        Reserves bid r (reserve service auction_id bidder_id amount key correlation_id r)
  unfolding reserve
  reserve-Reserves auction_id bidder_id amount key correlation_id r =
      let bid = ingress_of auction_id bidder_id amount key correlation_id in
      let P = Reserves bid r in
      if_elim P (is_empty auction_id) _ _ (inl refl) (
        if_elim P (is_empty bidder_id) _ _ (inl refl) (
          if_elim P (leb_ℤ amount (pos 0)) _ _ (inl refl) (
            if_elim P (is_empty key) _ _ (inl refl)
              (appended-Reserves bid r _ (append_bid-Appends c bid r)))))

  -- The same of a submission with a key of the caller's, which is then the text of a UUID.
  abbrev pub ReservesWithKey : (Text → Option Uuid) → BidIngress → R → Reservation × R → Type 0
  ReservesWithKey parse_uuid bid r (reserved id, r') =
      ((k : Uuid) × (parse_uuid bid.idempotency_key ≡ some k)) × Reserves bid r (reserved id, r')
  ReservesWithKey parse_uuid bid r (refused e, r') = Reserves bid r (refused e, r')

  with_key :
      (parse_uuid : Text → Option Uuid) (bid : BidIngress) (r : R) (k : Uuid) (y : Reservation × R)
      → parse_uuid bid.idempotency_key ≡ some k
      → Reserves bid r y
      → ReservesWithKey parse_uuid bid r y
  with_key parse_uuid bid r k (reserved id, r') e h = ((k, e), h)
  with_key parse_uuid bid r k (refused x, r') e h = h

  parsed-Reserves :
      (parse_uuid : Text → Option Uuid) (o : Option Uuid) (auction_id bidder_id : Text) (amount : ℤ)
      (key correlation_id : Text) (r : R)
      → parse_uuid key ≡ o
      → let bid = ingress_of auction_id bidder_id amount key correlation_id in
        ReservesWithKey parse_uuid bid r
          (reserve_parsed o service auction_id bidder_id amount key correlation_id r)
  unfolding reserve_parsed
  parsed-Reserves parse_uuid none auction_id bidder_id amount key correlation_id r e = inl refl
  parsed-Reserves parse_uuid (some k) auction_id bidder_id amount key correlation_id r e =
      with_key parse_uuid (ingress_of auction_id bidder_id amount key correlation_id) r k _ e
        (reserve-Reserves auction_id bidder_id amount key correlation_id r)

  -- However ReserveBidWithIdempotencyKey goes: an id that it returns is the answer of XADD to the
  -- fields of exactly this bid, which has everything, and a key that is a UUID; a refusal leaves
  -- Redis as it was, or as an unanswered XADD of such a bid left it.
  pub reserve_bid_with_idempotency_key-ReservesWithKey :
      (parse_uuid : Text → Option Uuid) (auction_id bidder_id : Text) (amount : ℤ)
      (key correlation_id : Text) (r : R)
      → let bid = ingress_of auction_id bidder_id amount key correlation_id in
        ReservesWithKey parse_uuid bid r (
          reserve_bid_with_idempotency_key parse_uuid service auction_id bidder_id amount key
            correlation_id r)
  unfolding reserve_bid_with_idempotency_key
  reserve_bid_with_idempotency_key-ReservesWithKey parse_uuid auction_id bidder_id amount key
        correlation_id r =
      parsed-Reserves parse_uuid (parse_uuid key) auction_id bidder_id amount key correlation_id r
        refl
