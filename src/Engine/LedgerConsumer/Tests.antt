-- ===== src/Engine/LedgerConsumer/Tests.antt =====
-- Runs of the consumer on a list of pending ids, and the theorems at such inputs.
use bid_lane.Prelude.{
  refl, ◌≡◌, ◌≢◌, ◌⊎◌, inl, inr, ◌∷◌, [], Any, List, none, some, true, false, Text, codes, text_eq,
  Bool-cases, text_eq_sound, arith,
}
use bid_lane.Prelude.Int.{pos}
use bid_lane.Postgres.Schema.{Auction, find_bid}
use bid_lane.Go.Time.{unix_milli}
use bid_lane.Engine.LedgerConsumer.{World, process_entries, process_batch, process_entry}
use bid_lane.Engine.LedgerConsumer.Entry.{IsSettled}
use bid_lane.Engine.LedgerConsumer.Safety.{process_entries-EntriesEffect, EntriesEffect}
use bid_lane.Engine.LedgerConsumer.Redelivery.{process_entry_redelivered}
use bid_lane.Postgres.Statements.{BidToPersist, bid_row}
use bid_lane.Engine.LedgerConsumer.Delivery.{no_entry_lost}
use bid_lane.Engine.LedgerConsumer.Sample.{
  remove, is_pending, client, parse_uuid, quiet, config, auction, start, entry, world, all_code,
}

text_eq_trans : (p id acked : Text) → text_eq p acked ≡ true → id ≢ acked → text_eq p id ≡ false
text_eq_trans p id acked h ne = elim (Bool-cases (text_eq p id)) [
  | inl e ↦ absurd (ne (cc (text_eq_sound p id e, text_eq_sound p acked h)))
  | inr e ↦ e
]

remove-others :
    (acked id : Text) (ps : List Text)
    → id ≢ acked
    → is_pending id ps ≡ true
    → is_pending id (remove acked ps) ≡ true
remove-others acked id [] ne h = h
remove-others acked id (p ∷ ps) ne h = elim (Bool-cases (text_eq p acked)) [
  | inl e ↦ rw e (remove-others acked id ps ne (ground (arith, text_eq_trans p id acked e ne)))
  | inr e ↦ rw e (ground (arith, remove-others acked id ps ne))
]

-- One entry is delivered, recorded and acknowledged; the other stays pending.
run_batch :
    let (processed, error, w') = process_batch client parse_uuid quiet config (pos 10) world in
    (processed ≡ 1)
    × (error ≡ none)
    × (w'.redis ≡ codes "8-0" ∷ [])
    × (find_bid 1 1 w'.db.bids ≡ some (pos 1))
unfolding all_code
run_batch = (refl, refl, refl, refl)

no_entry_lost_example :
    let w' = (process_entries client parse_uuid quiet config (entry ∷ []) 0 world).2 in
    (is_pending (codes "7-0") w'.redis ≡ true)
    ⊎ Any (λ e. (e.id ≡ codes "7-0") × IsSettled client parse_uuid config e w'.db) (entry ∷ [])
unfolding text_eq
no_entry_lost_example =
    no_entry_lost client parse_uuid quiet config is_pending
      (λ stream group acked id r ne h. remove-others acked id r ne h) (codes "7-0") (entry ∷ []) 0
      world refl

process_entries-EntriesEffect_example :
    EntriesEffect client parse_uuid quiet config
      (entry ∷ [])
      0
      world
      (process_entries client parse_uuid quiet config (entry ∷ []) 0 world)
process_entries-EntriesEffect_example =
    process_entries-EntriesEffect client parse_uuid quiet config (entry ∷ []) 0 world

abbrev bid : BidToPersist
bid = record {
  auction_id = 1;
  bidder_id = 1;
  amount = pos 50;
  idempotency_key = 1;
  stream_entry_id = codes "7-0";
  correlation_id = codes "c";
}

-- The auction has closed since.
abbrev recorded_auction : Auction
recorded_auction = record auction { effective_close_time = pos 8 }

abbrev recorded_world : World (List Text) (Unit {0})
recorded_world = record world {
  db = record start { auctions = recorded_auction ∷ []; bids = bid_row bid (pos 1) ∷ [] };
}

-- The entry is delivered again, behind its commit.
process_entry_redelivered_example :
    process_entry client parse_uuid quiet config entry recorded_world
    ≡ (none, record recorded_world { redis = codes "8-0" ∷ [] })
unfolding all_code
process_entry_redelivered_example =
    process_entry_redelivered client parse_uuid quiet config entry bid (unix_milli 7) recorded_world
      recorded_auction (pos 1) 1 (codes "8-0" ∷ []) refl refl refl (λ e. cc) (λ e. cc) refl
      (record { calls = λ c. refl; commits = refl }) refl refl refl
