-- ===== src/Engine/Pipeline/Tests.antt =====
-- One bid, from its reservation to the ledger.
use bid_lane.Prelude.{
  refl, ◌≡◌, ◌∷◌, [], none, some, arith, codes, List, Text, Any, false, inr, ◌^◌,
}
use bid_lane.Go.Time.{unix_milli}
use bid_lane.Postgres.Schema.{Uuid, find_auction, find_sequence}
use bid_lane.Postgres.Statements.{has_id}
use bid_lane.Postgres.AntiSnipe.Announcement.{announced, bids_of}
use bid_lane.Postgres.AuctionLog.{AuctionLog, submit, place, after_bid}
use bid_lane.Postgres.AuctionLog.Places.{entries_of}
use bid_lane.Postgres.AuctionLog.Refinement.{Views}
use bid_lane.Redis.Message.{append_values, parsed, parse_message}
use bid_lane.Redis.Client.{RedisClient, reply}
use bid_lane.Redis.Streams.{append_bid}
use bid_lane.Engine.Service.{reserve, reserve_bid_with_idempotency_key}
use bid_lane.Engine.LedgerConsumer.{process_entry}
use bid_lane.Engine.LedgerConsumer.Sample as Sample
use bid_lane.Engine.LedgerConsumer.Sample.{
  ingress, parse_uuid, quiet, config, auction, start, world, all_code, start-IsLedger,
}
use bid_lane.Engine.LedgerConsumer.Persisted.{bid_of}
use bid_lane.Engine.Pipeline.{entry_with, IsPlain, IsReadable, IsReady, reservation-Views}
use bid_lane.Engine.Pipeline.Published.{process_entry-IsReceived}
use bid_lane.Postgres.Outbox.Queue.{waiting_rows}
use bid_lane.Relay.{run_relay}
use bid_lane.Relay.Queue.Sample.{message, relay, service, relay-Delivers}
use bid_lane.Prelude.Int.{pos}

abbrev client : RedisClient (List Text)
client = record Sample.client { x_add = λ stream fields r. (reply (codes "7-0"), r) }

abbrev log : AuctionLog
log = record { row = auction; entries = [] }

config-IsPlain : IsPlain config
config-IsPlain = record {
  no_validator = refl;
  no_callback = refl;
  no_hook = refl;
  auction_named = λ e. cc;
  group_named = λ e. cc;
}

entry-IsReadable :
    IsReadable parse_uuid config (entry_with (codes "7-0") ingress) 1 1 1 (unix_milli 7)
unfolding all_code
entry-IsReadable = record { own = refl; auction = refl; bidder = refl; key = refl; time = refl }

start-IsReady : IsReady 1 (quiet tt).0 start log
unfolding all_code announced bids_of entries_of has_id
start-IsReady = record {
  sound = record {
    ledger = start-IsLedger;
    announced = refl;
    auctions = (refl, tt);
    counters = tt;
  };
  view = record { row = refl; entries = refl };
  room = omega arith;
  quiet = record { calls = λ c. refl; commits = refl };
  new_id = refl;
}

reservation-Views_example :
    let x = process_entry client parse_uuid quiet config (entry_with (codes "7-0") ingress) world in
    (parse_message (record { id = codes "7-0"; values = append_values ingress })
      ≡ parsed (entry_with (codes "7-0") ingress))
    × (x.0 ≡ none)
    × (x.1.redis ≡ codes "8-0" ∷ [])
    × ((k : Uuid) × (parse_uuid ingress.idempotency_key ≡ some k)
        × Views 1 x.1.db
            (submit (bid_of (entry_with (codes "7-0") ingress) 1 1 k) (unix_milli 7) log).1)
unfolding all_code reserve_bid_with_idempotency_key reserve append_bid find_auction find_sequence
    announced bids_of entries_of has_id submit place after_bid
reservation-Views_example =
    reservation-Views client parse_uuid quiet config ingress [] (codes "7-0")
      (append_values ingress) 1 1 (unix_milli 7) log 1 (codes "8-0" ∷ []) world
      (omega arith, omega arith) refl (λ field h. refl) config-IsPlain refl refl refl refl
      start-IsReady (λ k h e. cc) refl

process_entry-IsReceived_example :
    Any
      (λ m. m ≡ 100 ∷ [])
      (run_relay
        (λ event. inr (message event))
        (λ e. (service, e))
        (λ e. false)
        (λ interval e. (false, e))
        relay
        1
        (process_entry client parse_uuid quiet config (entry_with (codes "7-0") ingress) world).1.db
        []).2
unfolding all_code submit place after_bid waiting_rows
process_entry-IsReceived_example =
    process_entry-IsReceived client parse_uuid quiet config (λ event. inr (message event)) message
      (λ e. e) relay (λ e. (service, e)) (λ e. false) (λ interval e. (false, e)) relay-Delivers
      (entry_with (codes "7-0") ingress) 1 1 1 (unix_milli 7) log 1 false (pos (10 ^ 30)) 0 1
      (codes "8-0" ∷ []) world 1 [] config-IsPlain entry-IsReadable start-IsReady tt (omega arith)
      refl refl (omega arith)
