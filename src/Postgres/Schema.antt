-- ===== src/Postgres/Schema.antt =====
-- The tables of migrations/000001 to 000006. A UUID is the number of its 128 bits, an INTERVAL a
-- number of nanoseconds. Columns that no statement of the program reads or writes (the ids and the
-- times that bids and auctions are given) are left out.
use bid_lane.Prelude.{
  ℕ, ◌∷◌, [], Option, none, some, List, Text, Bool, true, false, ◌&&◌, ◌==◌, if◌then◌else◌,
}
use bid_lane.Prelude.Int.{ℤ, eqb_ℤ}
use bid_lane.Go.Time.{Time}

abbrev pub Uuid : Type 0
Uuid = ℕ

-- auctions
pub record Auction : Type 0 where
  pub id : Uuid
  pub effective_close_time : Time
  pub extension_window : ℕ
  pub extension_interval : ℕ
  pub max_extensions : ℕ
  pub extension_count : ℕ

-- bids
pub record Bid : Type 0 where
  pub auction_id : Uuid
  pub sequence_no : ℤ
  pub amount : ℤ
  pub bidder_id : Uuid
  pub idempotency_key : Uuid
  pub stream_entry_id : Text

-- auction_sequences
pub record AuctionSequence : Type 0 where
  pub auction_id : Uuid
  pub last_seq : ℤ

-- The JSON object that insertBidAcceptedOutbox builds, less its constant version.
pub record Payload : Type 0 where
  pub auction_id : Uuid
  pub sequence_no : ℤ
  pub bidder_id : Uuid
  pub amount : ℤ
  pub idempotency_key : Uuid
  pub stream_entry_id : Text
  pub correlation_id : Text
  pub submitted_at : Time
  pub effective_close_time : Time
  pub extended : Bool
  pub extension_count : ℕ

-- outbox
pub record OutboxRow : Type 0 where
  pub id : Uuid
  pub event_type : Text
  pub aggregate_type : Text
  pub aggregate_id : Uuid
  pub aggregate_sequence : ℤ
  pub payload : Payload
  pub created_at : Time
  pub published_at : Option Time
  pub publish_attempts : ℕ

-- The rows of each table in the order of their insertion.
pub record Db : Type 0 where
  pub auctions : List Auction
  pub bids : List Bid
  pub sequences : List AuctionSequence
  pub outbox : List OutboxRow

-- The constraints that a statement can violate.
pub data Constraint : Type 0 where
  sequence_no_positive amount_positive bid_auction_exists uq_bids_auction_sequence : Constraint
  uq_bids_auction_idempotency : Constraint
  sequence_auction_exists last_seq_nonnegative : Constraint
  aggregate_sequence_positive outbox_id_unique uq_outbox_event : Constraint

-- The row of an auction; `id` is the primary key.
unfoldable pub find_auction : Uuid → List Auction → Option Auction
find_auction a [] = none
find_auction a (r ∷ rows) = if r.id == a then some r else find_auction a rows

-- The counter of an auction; `auction_id` is the primary key.
unfoldable pub find_sequence : Uuid → List AuctionSequence → Option ℤ
find_sequence a [] = none
find_sequence a (r ∷ rows) = if r.auction_id == a then some r.last_seq else find_sequence a rows

-- The sequence number of a logical bid; the index uq_bids_auction_idempotency makes it unique.
unfoldable pub find_bid : Uuid → Uuid → List Bid → Option ℤ
find_bid a key [] = none
find_bid a key (r ∷ rows) =
    if r.auction_id == a && r.idempotency_key == key
    then some r.sequence_no
    else find_bid a key rows

-- Whether a number is taken in an auction, for the constraint uq_bids_auction_sequence.
unfoldable pub has_sequence : Uuid → ℤ → List Bid → Bool
has_sequence a n [] = false
has_sequence a n (r ∷ rows) =
    if r.auction_id == a && eqb_ℤ r.sequence_no n then true else has_sequence a n rows
