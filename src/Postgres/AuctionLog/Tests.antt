-- ===== src/Postgres/AuctionLog/Tests.antt =====
-- The log and the tables side by side.
use bid_lane.Prelude.{refl, ◌≡◌, [], ◌∷◌, List, true, arith}
use bid_lane.Prelude.Int.{pos}
use bid_lane.Postgres.Schema.{find_auction, find_sequence}
use bid_lane.Postgres.Statements.{BidToPersist, has_id}
use bid_lane.Postgres.AntiSnipe.Announcement.{announced, bids_of}
use bid_lane.Postgres.Tests.{auction, start, bid, quiet, all_code, start-IsLedger, quiet-IsQuiet}
use bid_lane.Postgres.AuctionLog.{
  AuctionLog, placed, met, closed, place, after_bid, submit, entry_of,
}
use bid_lane.Postgres.AuctionLog.Places.{entries_of}
use bid_lane.Postgres.AuctionLog.Refinement.{Views, IsSound}
use bid_lane.Postgres.AuctionLog.Simulation.{
  Submission, AllAnswer, bids_of_calls, submit_all, append_all, append_all-Implements,
}

-- A bid in the last window, the same bid after the close, and another one after the close.
abbrev other_bid : BidToPersist
other_bid = record bid { idempotency_key = 12 }

abbrev calls : List Submission
calls =
    (quiet, bid, pos 980)
    ∷ (record quiet { new_id = 101 }, bid, pos 2000)
    ∷ (record quiet { new_id = 102 }, other_bid, pos 2000)
    ∷ []

abbrev log : AuctionLog
log = record { row = auction; entries = [] }

run_log : submit_all (bids_of_calls calls) log ≡ (
  placed 1 true (pos 1030) 1 ∷ met 1 (pos 1030) 1 ∷ closed ∷ [],
  record {
    row = record auction { effective_close_time = pos 1030; extension_count = 1 };
    entries = entry_of bid ∷ [];
  },
)
unfolding all_code submit_all submit place after_bid
run_log = refl

start-IsSound : IsSound 1 start
unfolding find_auction find_sequence announced bids_of
start-IsSound = record {
  ledger = start-IsLedger;
  announced = refl;
  auctions = (refl, tt);
  counters = tt;
}

start-Views : Views 1 start log
unfolding find_auction entries_of
start-Views = record { row = refl; entries = refl }

append_all-Implements_example :
    let (verdicts, log') = submit_all (bids_of_calls calls) log in
    let (results, db') = append_all calls start in AllAnswer verdicts results × Views 1 db' log'
unfolding all_code has_id
append_all-Implements_example =
    append_all-Implements 1 calls start log
      (
        record {
          own = refl;
          quiet = quiet-IsQuiet;
          nonzero = λ e. cc;
          amount = omega arith;
          new_id = refl;
        },
        (
          record {
            own = refl;
            quiet = record { calls = λ c. refl; commits = refl };
            nonzero = λ e. cc;
            amount = omega arith;
            new_id = refl;
          },
          (
            record {
              own = refl;
              quiet = record { calls = λ c. refl; commits = refl };
              nonzero = λ e. cc;
              amount = omega arith;
              new_id = refl;
            },
            tt,
          ),
        ),
      )
      start-IsSound start-Views (omega arith)
