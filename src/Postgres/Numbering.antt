-- ===== src/Postgres/Numbering.antt =====
-- The numbering of the bids of an auction, as the statements that insert a bid work it out.
pub mod Counter
pub mod Invariant
use bid_lane.Prelude.{
  ℕ, zero, suc, refl, sym, ap, ◌∙◌, ◌+◌, ◌<◌, ◌^◌, ◌≡◌, ◌≢◌, ◌⊎◌, inl, inr, ◌∷◌, [], ◌++◌,
  append_assoc, append-nil, Option, none, some, List, Bool, true, false, ◌==◌, ◌||◌, arith, is_some,
  Option-cases, Bool-cases, if◌then◌else◌,
}
use bid_lane.Prelude.Int.{ℤ, pos, ◌≤ℤ◌, ◌+ℤ◌}
use bid_lane.Go.Int64.{add64, wrap64_id, wrap64-IsInt64}
use bid_lane.Postgres.Schema.{
  Uuid, Auction, AuctionSequence, Bid, Db, find_auction, find_sequence, find_bid, has_sequence,
}
use bid_lane.Postgres.Statements.{BidToPersist, bid_row, set_matches}

-- The counter rows once the auction has one.
unfoldable pub ensured : Uuid → List AuctionSequence → List AuctionSequence
ensured a rows =
    if is_some (find_sequence a rows)
    then rows
    else rows ++ record { auction_id = a; last_seq = pos 0 } ∷ []

-- The last number that was given out; 0 where the auction has no counter yet.
abbrev pub last_of : Option ℤ → ℤ
last_of none = pos 0
last_of (some n) = n

unfoldable pub last_seq_of : Uuid → Db → ℤ
last_seq_of a db = last_of (find_sequence a db.sequences)

unfoldable pub next_seq : Uuid → Db → ℤ
unfolding last_seq_of
next_seq a db = add64 (last_seq_of a db) (pos 1)

-- What every insertion of a bid does to the ledger: the key was not there, and the row behind the
-- others has the number behind the counter's, which it moves to.
pub record Inserts (bid : BidToPersist) (db : Db) (db' : Db) : Type 0 where
  pub fresh : find_bid bid.auction_id bid.idempotency_key db.bids ≡ none
  pub positive_number : pos 1 ≤ℤ next_seq bid.auction_id db
  pub positive_amount : pos 1 ≤ℤ bid.amount
  pub bids : db'.bids ≡ db.bids ++ bid_row bid (next_seq bid.auction_id db) ∷ []
  pub sequences :
      db'.sequences
      ≡ set_matches bid.auction_id
          (next_seq bid.auction_id db)
          (last_seq_of bid.auction_id db)
          (ensured bid.auction_id db.sequences)
