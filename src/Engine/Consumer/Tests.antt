-- ===== src/Engine/Consumer/Tests.antt =====
-- Runs of the consumer, and the theorems at such inputs.
use bid_lane.Prelude.{
  ℕ, refl, ◌≡◌, ◌∷◌, [], All, List, none, false, Bool, Text, codes, text_eq, ap, arith, subst,
}
use bid_lane.Prelude.Int.{pos}
use bid_lane.Redis.Client.{Reply, reply}
use bid_lane.Redis.Streams.{ack, stream_key}
use bid_lane.Engine.Consumer.{ConsumerConfig, consume_entries}
use bid_lane.Engine.Consumer.Acknowledged.{consumer_of, consume_entries-IsAcknowledged}
use bid_lane.Engine.LedgerConsumer.Sample.{client, entry, is_pending, remove}

abbrev config : ConsumerConfig
config = record {
  auction_id = codes "a";
  group = codes "g";
  consumer = codes "c";
  batch_size = pos 10;
  block_period = pos 0;
}

abbrev pending : Text → Text → Text → List Text → Bool
pending stream group id r = is_pending id r

is_pending-remove : (id : Text) (r : List Text) → is_pending id (remove id r) ≡ false
is_pending-remove id [] = refl
is_pending-remove id (p ∷ r) = ground (arith, is_pending-remove id r)

is_pending-remove_other :
    (acked id : Text) (r : List Text)
    → is_pending id r ≡ false
    → is_pending id (remove acked r) ≡ false
is_pending-remove_other acked id [] h = refl
is_pending-remove_other acked id (p ∷ r) h = ground (arith, is_pending-remove_other acked id r)

answered :
    (r r' : List Text) (id : Text) (k : ℕ)
    → ◌≡◌ {A = Reply ℕ × List Text} (reply 1, remove id r) (reply k, r')
    → is_pending id r' ≡ false
answered r r' id k e =
    subst (λ x. is_pending id x ≡ false) (ap (λ (y : Reply ℕ × List Text). y.1) e)
      (is_pending-remove id r)

run_entries :
    consume_entries (consumer_of client config) (entry ∷ []) (codes "7-0" ∷ codes "8-0" ∷ [])
    ≡ (none, codes "8-0" ∷ [])
unfolding consume_entries ack stream_key text_eq
run_entries = refl

consume_entries-IsAcknowledged_example :
    All (λ x. is_pending x.id (codes "8-0" ∷ []) ≡ false) (entry ∷ [])
consume_entries-IsAcknowledged_example =
    consume_entries-IsAcknowledged client config pending
      (λ stream group id r r' k e. answered r r' id k e)
      (λ stream group acked other_stream other_group other r h.
        is_pending-remove_other acked other r h)
      (entry ∷ []) (codes "7-0" ∷ codes "8-0" ∷ []) (codes "8-0" ∷ []) run_entries
