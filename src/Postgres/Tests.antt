-- ===== src/Postgres/Tests.antt =====
-- Runs of the transactions on concrete tables, and the theorems at such inputs.
use bid_lane.Prelude.{refl, ◌≡◌, ◌∷◌, [], ◌++◌, List, true, false, arith, codes}
use bid_lane.Prelude.Int.{pos, ◌+ℤ◌, ◌-ℤ◌}
use bid_lane.Go.Int64.{add64, wrap64}
use bid_lane.Postgres.Schema.{Auction, Bid, Db, find_auction, find_sequence, find_bid, has_sequence}
use bid_lane.Postgres.Statements.{
  BidToPersist, bid_row, outbox_row, eligible, extended_row, select_auction, select_bid,
  insert_sequence, select_sequence, insert_bid_on_conflict, update_sequence, extend_auction,
  insert_outbox,
}
use bid_lane.Postgres.Transaction.{
  Service, committed, lost, ok, err, run, transact, bid_at_or_after_close, commit_bid_failed,
}
use bid_lane.Postgres.RowLock.{
  append_bid_idempotent_row_lock, row_lock_body, insert_locked, advance, observe,
}
use bid_lane.Postgres.RowLock.Effects as RowLockEffects
use bid_lane.Postgres.AntiSnipe.{
  AntiSnipeAppendResult, append_bid_idempotent_with_anti_snipe, append_body, append_new, insert_new,
  finish_new, observe_duplicate, insert_bid_accepted_outbox, payload_of,
}
use bid_lane.Postgres.AntiSnipe.Effects as AntiSnipeEffects
use bid_lane.Postgres.AntiSnipe.Retry.{IsQuiet, retry_agrees}
use bid_lane.Postgres.AntiSnipe.Extension.{IsExtension, append-IsExtension}
use bid_lane.Postgres.AntiSnipe.Announcement.{IsAnnounced, append-IsAnnounced, announced, bids_of}
use bid_lane.Postgres.Numbering.{last_seq_of}
use bid_lane.Postgres.Numbering.Invariant.{IsLedger, numbers, keys}
use bid_lane.Postgres.History.{Operation, row_lock, anti_snipe, history}
use bid_lane.Postgres.History.Ledger.{history-IsLedger, history-append_only}
use bid_lane.Postgres.History.Auctions.{AllExtend, history-AllExtend}

abbrev pub auction : Auction
auction = record {
  id = 1;
  effective_close_time = pos 1000;
  extension_window = 30;
  extension_interval = 30;
  max_extensions = 2;
  extension_count = 0;
}

abbrev pub start : Db
start = record { auctions = auction ∷ []; bids = []; sequences = []; outbox = [] }

abbrev pub bid : BidToPersist
bid = record {
  auction_id = 1;
  bidder_id = 7;
  amount = pos 50;
  idempotency_key = 11;
  stream_entry_id = codes "1-0";
  correlation_id = codes "c";
}

abbrev pub quiet : Service
quiet = record { fails = λ c. false; commit = committed; new_id = 100; now = pos 990 }

abbrev losing : Service
losing = record quiet { commit = lost }

-- What a run computes with.
unfoldable pub all_code : Unit {0}
unfolding append_bid_idempotent_with_anti_snipe append_body append_new insert_new finish_new
    observe_duplicate insert_bid_accepted_outbox append_bid_idempotent_row_lock row_lock_body
    insert_locked advance observe transact run select_auction select_bid insert_sequence
    select_sequence insert_bid_on_conflict update_sequence extend_auction insert_outbox find_auction
    find_sequence find_bid has_sequence eligible extended_row add64 wrap64 ◌-ℤ◌ ◌+ℤ◌
all_code = tt

-- The answer to a new bid in the last window, and the tables behind it.
abbrev answer : AntiSnipeAppendResult
answer = record {
  result = record { sequence_number = pos 1; inserted = true };
  extended = true;
  effective_close_time = pos 1030;
  extension_count = 1;
}

abbrev after : Db
after = record {
  auctions = record auction { effective_close_time = pos 1030; extension_count = 1 } ∷ [];
  bids = bid_row bid (pos 1) ∷ [];
  sequences = record { auction_id = 1; last_seq = pos 1 } ∷ [];
  outbox = outbox_row 100 (pos 990) (payload_of bid (pos 1) (pos 980) (pos 1030) true 1) ∷ [];
}

run_new : append_bid_idempotent_with_anti_snipe quiet bid (pos 980) start ≡ (ok answer, after)
unfolding all_code
run_new = refl

-- The answer to the commit is lost, and the bid submitted again, after the close.
run_lost :
    append_bid_idempotent_with_anti_snipe losing bid (pos 980) start
    ≡ (err commit_bid_failed, after)
unfolding all_code
run_lost = refl

abbrev repeated : AntiSnipeAppendResult
repeated = record {
  result = record { sequence_number = pos 1; inserted = false };
  extended = false;
  effective_close_time = pos 1030;
  extension_count = 1;
}

run_again : append_bid_idempotent_with_anti_snipe quiet bid (pos 2000) after ≡ (ok repeated, after)
unfolding all_code
run_again = refl

run_late :
    append_bid_idempotent_with_anti_snipe quiet bid (pos 1000) start
    ≡ (err bid_at_or_after_close, start)
unfolding all_code
run_late = refl

pub start-IsLedger : IsLedger 1 start
unfolding last_seq_of find_sequence numbers keys
start-IsLedger = record {
  total = 0;
  bounded = omega arith;
  gap_free = refl;
  counter = refl;
  distinct = tt;
}

abbrev calls : List Operation
calls = anti_snipe losing bid (pos 980) ∷ row_lock quiet bid ∷ anti_snipe quiet bid (pos 2000) ∷ []

append-Effect_example :
    AntiSnipeEffects.Effect losing bid
      (pos 980)
      start
      (append_bid_idempotent_with_anti_snipe losing bid (pos 980) start)
append-Effect_example = AntiSnipeEffects.append-Effect losing bid (pos 980) start

row_lock-Effect_example :
    RowLockEffects.Effect losing bid start (append_bid_idempotent_row_lock losing bid start)
row_lock-Effect_example = RowLockEffects.row_lock-Effect losing bid start

history-IsLedger_example : IsLedger 1 (history calls start)
history-IsLedger_example = history-IsLedger 1 calls start start-IsLedger

history-append_only_example : (rows : List Bid) × ((history calls start).bids ≡ start.bids ++ rows)
history-append_only_example = history-append_only calls start

history-AllExtend_example : AllExtend start.auctions (history calls start).auctions
history-AllExtend_example = history-AllExtend calls start

retry_agrees_example :
    (repeated.result ≡ record { sequence_number = answer.result.sequence_number; inserted = false })
    × (repeated.extended ≡ false)
    × (after ≡ after)
retry_agrees_example =
    retry_agrees quiet quiet bid (pos 980) (pos 2000) start after after answer repeated run_new
      run_again

pub quiet-IsQuiet : IsQuiet quiet
quiet-IsQuiet = record { calls = λ c. refl; commits = refl }

append-IsExtension_example : IsExtension (pos 980) auction answer after
unfolding find_auction
append-IsExtension_example =
    append-IsExtension quiet bid (pos 980) start after answer auction (refl, tt) refl run_new refl

append-IsAnnounced_example :
    IsAnnounced 1 (append_bid_idempotent_with_anti_snipe quiet bid (pos 980) start).1
unfolding announced bids_of
append-IsAnnounced_example = append-IsAnnounced 1 quiet bid (pos 980) start refl
