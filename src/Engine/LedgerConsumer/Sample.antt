-- ===== src/Engine/LedgerConsumer/Sample.antt =====
-- A Redis client, a configuration and tables for the tests.
use bid_lane.Prelude.{
  refl, ◌^◌, ◌∷◌, [], List, Option, none, some, Bool, false, ◌||◌, Text, codes, text_eq,
  if◌then◌else◌, arith,
}
use bid_lane.Prelude.Int.{pos, ltb_ℤ, ◌+ℤ◌, ◌-ℤ◌}
use bid_lane.Postgres.Schema.{
  Auction, Db, Uuid, find_sequence, find_auction, find_bid, has_sequence,
}
use bid_lane.Postgres.Transaction.{Service, committed, run, transact}
use bid_lane.Postgres.Numbering.{last_seq_of}
use bid_lane.Postgres.Numbering.Invariant.{IsLedger, numbers, keys}
use bid_lane.Redis.Message.{
  XMessage, BidIngress, BidStreamEntry, append_values, get_value, field_string, parse_amount,
  parse_message,
}
use bid_lane.Go.Strconv.{parse_int, parse_uint, split_once, format_int}
use bid_lane.Go.Int64.{add64, wrap64}
use bid_lane.Go.Time.{unix_milli}
use bid_lane.Redis.StreamId.{stream_entry_time}
use bid_lane.Redis.Streams.{read_group, parse_messages, ack, stream_key}
use bid_lane.Postgres.Statements.{
  eligible, extended_row, select_auction, select_bid, insert_sequence, select_sequence,
  insert_bid_on_conflict, update_sequence, extend_auction, insert_outbox,
}
use bid_lane.Postgres.AntiSnipe.{
  append_bid_idempotent_with_anti_snipe, append_body, append_new, insert_new, finish_new,
  observe_duplicate, insert_bid_accepted_outbox,
}
use bid_lane.Redis.Client.{RedisClient, reply, failure}
use bid_lane.Engine.LedgerConsumer.{
  LedgerConsumerConfig, World, process_entries, process_batch, process_entry, persist_entry,
  read_entry,
}

-- Redis is the list of the ids that are pending; XACK takes the first of its ids off.
abbrev pub remove : Text → List Text → List Text
remove id [] = []
remove id (p ∷ ps) = if text_eq p id then remove id ps else p ∷ remove id ps

abbrev pub is_pending : Text → List Text → Bool
is_pending id [] = false
is_pending id (p ∷ ps) = text_eq p id || is_pending id ps

abbrev pub remove_first : List Text → List Text → List Text
remove_first [] ps = ps
remove_first (id ∷ _) ps = remove id ps

abbrev pub ingress : BidIngress
ingress = record {
  auction_id = codes "a";
  bidder_id = codes "b";
  amount = pos 50;
  idempotency_key = codes "k";
  correlation_id = codes "c";
}

-- The entry, as a message of the stream.
abbrev pub message : XMessage
message = record { id = codes "7-0"; values = append_values ingress }

-- The pending list has two pages, the second without an entry.
abbrev pub page : Text → List XMessage × Text
page cursor =
    if text_eq cursor (codes "0-0") then (message ∷ [], codes "7-1") else ([], codes "0-0")

abbrev pub client : RedisClient (List Text)
client = record {
  ping = λ r. (reply tt, r);
  x_add = λ _ _ r. (failure [], r);
  x_group_create_mk_stream = λ _ _ _ r. (reply tt, r);
  x_read_group = λ _ _ stream count _ r.
      (if ltb_ℤ (pos 0) count then reply ((stream, message ∷ []) ∷ []) else failure [], r);
  x_ack = λ _ _ ids r. (reply 1, remove_first ids r);
  x_auto_claim = λ _ _ _ _ cursor _ r. (reply (page cursor), r);
  x_range = λ _ r. (reply [], r);
  del = λ _ r. (reply 0, r);
}

abbrev pub parse_uuid : Text → Option Uuid
parse_uuid [] = none
parse_uuid (c ∷ s) = some 1

abbrev pub quiet : Unit {0} → Service × Unit {0}
quiet u = (record { fails = λ c. false; commit = committed; new_id = 100; now = pos 990 }, u)

abbrev pub config : LedgerConsumerConfig (Unit {0})
config = record {
  auction_id = codes "a";
  group = codes "g";
  consumer = codes "c";
  batch_size = pos 10;
  block_period = pos 0;
  validate_entry = none;
  recovery_min_idle = pos 0;
  recovery_batch_size = pos 0;
  after_persist_before_ack = none;
  before_ack = none;
}

abbrev pub auction : Auction
auction = record {
  id = 1;
  effective_close_time = pos (10 ^ 30);
  extension_window = 30;
  extension_interval = 30;
  max_extensions = 2;
  extension_count = 0;
}

abbrev pub start : Db
start = record { auctions = auction ∷ []; bids = []; sequences = []; outbox = [] }

abbrev pub entry : BidStreamEntry
entry = record { id = codes "7-0"; ingress = ingress }

abbrev pub world : World (List Text) (Unit {0})
world = record { redis = codes "7-0" ∷ codes "8-0" ∷ []; db = start; env = tt }

-- What a run computes with.
unfoldable pub all_code : Unit {0}
unfolding process_batch process_entries process_entry persist_entry read_entry read_group
    parse_messages parse_message field_string get_value parse_amount parse_int stream_entry_time
    split_once parse_uint ack stream_key text_eq append_bid_idempotent_with_anti_snipe append_body
    append_new insert_new finish_new observe_duplicate insert_bid_accepted_outbox transact run
    select_auction select_bid insert_sequence select_sequence insert_bid_on_conflict update_sequence
    extend_auction insert_outbox find_auction find_sequence find_bid has_sequence eligible
    extended_row ◌-ℤ◌ ◌+ℤ◌ add64 wrap64 format_int unix_milli
all_code = tt

pub start-IsLedger : IsLedger 1 start
unfolding last_seq_of find_sequence numbers keys
start-IsLedger = record {
  total = 0;
  bounded = omega arith;
  gap_free = refl;
  counter = refl;
  distinct = tt;
}
