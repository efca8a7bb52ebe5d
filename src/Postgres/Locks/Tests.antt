-- ===== src/Postgres/Locks/Tests.antt =====
-- Two calls that overlap: the second gets its lock before the first has ended, and ends before it.
use bid_lane.Prelude.{refl, ◌≡◌, [], ◌∷◌, none, arith}
use bid_lane.Prelude.Int.{pos}
use bid_lane.Postgres.Schema.{Db, find_auction, find_sequence}
use bid_lane.Postgres.Statements.{has_id}
use bid_lane.Postgres.Numbering.{last_seq_of}
use bid_lane.Postgres.Numbering.Invariant.{numbers, keys}
use bid_lane.Postgres.AntiSnipe.Announcement.{announced, bids_of}
use bid_lane.Postgres.Tests.{auction, bid, quiet, all_code}
use bid_lane.Postgres.AuctionLog.{AuctionLog}
use bid_lane.Postgres.AuctionLog.Places.{entries_of}
use bid_lane.Postgres.AuctionLog.Refinement.{Views, IsSound}
use bid_lane.Postgres.AuctionLog.Simulation.{
  Submission, AllAnswer, bids_of_calls, submit_all, append_all,
}
use bid_lane.Postgres.Isolation.{restrict, rows_of}
use bid_lane.Postgres.Isolation.Calls.{calls_of, results_of, AllNewIds, append_all-restrict}
use bid_lane.Postgres.Locks.{
  Holder, Server, locked, finished, publish, others_of, Reach, start, lock, finish,
}
use bid_lane.Postgres.Locks.Serial.{IsSerial, Reach-IsSerial}
use bid_lane.Postgres.Locks.Linear.{Reach-Implements}

abbrev tables : Db
tables = record {
  auctions = auction ∷ record auction { id = 2 } ∷ [];
  bids = [];
  sequences = [];
  outbox = [];
}

abbrev first : Submission
first = (quiet, bid, pos 980)

abbrev second : Submission
second = (record quiet { new_id = 101 }, record bid { auction_id = 2 }, pos 980)

abbrev first_holder : Holder
first_holder = record { call = first; seen = tables }

abbrev second_holder : Holder
second_holder = record { call = second; seen = tables }

abbrev idle : Server
idle = record { tables = tables; holders = λ _. none; answers = [] }

abbrev both_locked : Server
both_locked = locked second (locked first idle)

-- The first transaction ends on tables that it saw before the second one's commit.
abbrev both_ended : Server
both_ended = finished 1 first_holder (finished 2 second_holder both_locked)

overlapping : Reach tables (second ∷ first ∷ []) both_ended
unfolding all_code locked finished publish others_of rows_of has_id
overlapping =
    finish 1 first_holder
      (finish 2 second_holder (lock second (lock first start refl) refl) refl refl refl) refl refl
      refl

tables-IsSound : IsSound 1 tables
unfolding find_auction find_sequence announced bids_of last_seq_of numbers keys
tables-IsSound = record {
  ledger = record {
    total = 0;
    bounded = omega arith;
    gap_free = refl;
    counter = refl;
    distinct = tt;
  };
  announced = refl;
  auctions = (refl, (refl, tt));
  counters = tt;
}

abbrev log : AuctionLog
log = record { row = auction; entries = [] }

Reach-IsSerial_example : IsSerial tables (second ∷ first ∷ []) both_ended
Reach-IsSerial_example = Reach-IsSerial overlapping

Reach-Implements_example :
    let (verdicts, log') = submit_all (bids_of_calls (calls_of 1 (second ∷ first ∷ []))) log in
    AllAnswer verdicts (results_of 1 (second ∷ first ∷ []) both_ended.answers)
    × Views 1 both_ended.tables log'
unfolding calls_of find_auction entries_of
Reach-Implements_example =
    Reach-Implements 1 tables (second ∷ first ∷ []) both_ended log overlapping
      (
        record {
          quiet = record { calls = λ c. refl; commits = refl };
          nonzero = λ e. cc;
          amount = omega arith;
        },
        tt,
      )
      tables-IsSound (record { row = refl; entries = refl }) (omega arith)

append_all-restrict_example :
    (results_of 1 (second ∷ first ∷ []) (append_all (second ∷ first ∷ []) tables).0
      ≡ (append_all (calls_of 1 (second ∷ first ∷ [])) (restrict 1 tables)).0)
    × (restrict 1 (append_all (second ∷ first ∷ []) tables).1
        ≡ (append_all (calls_of 1 (second ∷ first ∷ [])) (restrict 1 tables)).1)
unfolding all_code AllNewIds has_id
append_all-restrict_example = append_all-restrict 1 (second ∷ first ∷ []) tables (refl, (refl, tt))
