-- ===== src/Postgres/NativeSequence/Tests.antt =====
-- Runs of the benchmark path, one with a gap, and the theorems at such inputs.
use bid_lane.Prelude.{refl, ◌≡◌, ◌∷◌, [], List, true, false, Bool, Text, codes, text_eq}
use bid_lane.Prelude.Int.{pos}
use bid_lane.Postgres.Schema.{Uuid, find_auction, find_bid, has_sequence}
use bid_lane.Postgres.Statements.{unavailable}
use bid_lane.Postgres.Transaction.{committed}
use bid_lane.Postgres.Tests.{bid, start}
use bid_lane.Postgres.NativeSequence.{
  NativeDb, NativeCall, NativeService, ok, err, insert, insert_failed, with_bid, find_native, bump,
  refusal, per_auction_sequence_name, create_sequence, numbered, insert_and_commit,
  ensure_postgres_sequence, append_bid_postgres_sequence,
}
use bid_lane.Postgres.NativeSequence.Effects.{Effect, native-Effect}
use bid_lane.Postgres.NativeSequence.Increasing.{NativeOperation, ensure, append}

abbrev text_of : Uuid → Text
text_of a = codes "0-1"

abbrev is_insert : NativeCall → Bool
is_insert insert = true
is_insert _ = false

abbrev quiet : NativeService
quiet = record { fails = λ c. false; unanswered = λ c. false; commit = committed }

-- The INSERT fails.
abbrev failing : NativeService
failing = record { fails = is_insert; unanswered = λ c. false; commit = committed }

abbrev name : Text
name = codes "bid_seq_0_1"

abbrev empty : NativeDb
empty = record { tables = start; native = (name, 0) ∷ [] }

unfoldable all_code : Unit {0}
unfolding append_bid_postgres_sequence ensure_postgres_sequence per_auction_sequence_name
    create_sequence find_native bump numbered insert_and_commit refusal find_auction find_bid
    has_sequence text_eq
all_code = tt

-- A failed insertion leaves a gap: the next bid is number 2.
run_failing :
    append_bid_postgres_sequence text_of failing bid empty
    ≡ (err (insert_failed unavailable), record { tables = start; native = (name, 1) ∷ [] })
unfolding all_code
run_failing = refl

run_behind :
    append_bid_postgres_sequence text_of quiet bid
      (record { tables = start; native = (name, 1) ∷ [] })
    ≡ (ok (pos 2), record { tables = with_bid bid (pos 2) start; native = (name, 2) ∷ [] })
unfolding all_code
run_behind = refl

abbrev calls : List NativeOperation
calls = ensure quiet 1 ∷ append failing bid ∷ append quiet bid ∷ []

native-Effect_example :
    Effect
      (per_auction_sequence_name text_of 1)
      failing
      bid
      empty
      (append_bid_postgres_sequence text_of failing bid empty)
native-Effect_example = native-Effect text_of failing bid empty
