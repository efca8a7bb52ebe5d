-- ===== src/Engine/Service/Tests.antt =====
-- A reservation on a concrete client.
use bid_lane.Prelude.{refl, ◌≡◌, ◌∷◌, [], List, Text, codes}
use bid_lane.Prelude.Int.{pos}
use bid_lane.Redis.Client.{RedisClient, reply}
use bid_lane.Redis.Streams.{append_bid, stream_key}
use bid_lane.Engine.LedgerConsumer.Sample as Sample
use bid_lane.Engine.LedgerConsumer.Sample.{parse_uuid}
use bid_lane.Engine.Service.{
  reserved, refused, amount_not_positive, ingress_of, reserve, reserve_parsed,
  reserve_bid_with_idempotency_key,
}
use bid_lane.Engine.Service.Effects.{
  service, ReservesWithKey, reserve_bid_with_idempotency_key-ReservesWithKey,
}

-- Redis is the list of the streams that an entry was added to.
abbrev adding : RedisClient (List Text)
adding = record Sample.client { x_add = λ stream fields r. (reply (codes "1-0"), stream ∷ r) }

run_reserved :
    reserve_bid_with_idempotency_key parse_uuid
      (service adding)
      (codes "a")
      (codes "b")
      (pos 5)
      (codes "k")
      (codes "c")
      []
    ≡ (reserved (codes "1-0"), codes "auction:a:bids" ∷ [])
unfolding reserve_bid_with_idempotency_key reserve_parsed reserve append_bid stream_key
run_reserved = refl

run_refused :
    reserve_bid_with_idempotency_key parse_uuid
      (service adding)
      (codes "a")
      (codes "b")
      (pos 0)
      (codes "k")
      (codes "c")
      []
    ≡ (refused amount_not_positive, [])
unfolding reserve_bid_with_idempotency_key reserve_parsed reserve append_bid stream_key
run_refused = refl

reserve_bid_with_idempotency_key-ReservesWithKey_example :
    ReservesWithKey adding parse_uuid
      (ingress_of (codes "a") (codes "b") (pos 5) (codes "k") (codes "c"))
      []
      (reserve_bid_with_idempotency_key parse_uuid
        (service adding)
        (codes "a")
        (codes "b")
        (pos 5)
        (codes "k")
        (codes "c")
        [])
reserve_bid_with_idempotency_key-ReservesWithKey_example =
    reserve_bid_with_idempotency_key-ReservesWithKey adding parse_uuid (codes "a") (codes "b")
      (pos 5) (codes "k") (codes "c") []
