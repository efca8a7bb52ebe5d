-- ===== src/Postgres/Isolation.antt =====
-- What a transaction for one auction sees and changes of the tables: the rows of that auction, and of
-- no other.
pub mod Local
pub mod Append
pub mod Calls
pub mod Frame
pub mod Views
use bid_lane.Prelude.{
  ℕ, refl, ap, ◌∙◌, ◌≡◌, ◌∷◌, [], ◌++◌, List, Option, none, some, Text, Bool, true, false, ◌==◌,
  ==_refl, arith, if◌then◌else◌,
}
use bid_lane.Prelude.Int.{ℤ}
use bid_lane.Go.Time.{Time}
use bid_lane.Postgres.Schema.{
  Uuid, Auction, Bid, AuctionSequence, OutboxRow, Db, find_auction, find_sequence, find_bid,
  has_sequence,
}
use bid_lane.Postgres.Statements.{
  count_matches, set_matches, extend_rows, returning, has_event, has_id,
}

-- The rows whose key is an auction.
unfoldable pub rows_of : {A : Type 0} → (A → Uuid) → Uuid → List A → List A
rows_of key a [] = []
rows_of key a (r ∷ rows) = let rest = rows_of key a rows in if key r == a then r ∷ rest else rest

abbrev pub restrict : Uuid → Db → Db
restrict a db = record {
  auctions = rows_of (λ (r : Auction). r.id) a db.auctions;
  bids = rows_of (λ (r : Bid). r.auction_id) a db.bids;
  sequences = rows_of (λ (r : AuctionSequence). r.auction_id) a db.sequences;
  outbox = rows_of (λ (r : OutboxRow). r.aggregate_id) a db.outbox;
}

pub rows_of-append :
    {A : Type 0} (key : A → Uuid) (a : Uuid) (rows more : List A)
    → rows_of key a (rows ++ more) ≡ rows_of key a rows ++ rows_of key a more
unfolding rows_of
rows_of-append key a [] more = refl
rows_of-append key a (r ∷ rows) more = ground (arith, rows_of-append key a rows more)

-- What is looked up for an auction is found among its rows.
pub find_auction-rows_of :
    (a : Uuid) (rows : List Auction)
    → find_auction a (rows_of (λ (r : Auction). r.id) a rows) ≡ find_auction a rows
unfolding rows_of find_auction
find_auction-rows_of a [] = refl
find_auction-rows_of a (r ∷ rows) = ground (arith, find_auction-rows_of a rows)

pub find_sequence-rows_of :
    (a : Uuid) (rows : List AuctionSequence)
    → find_sequence a (rows_of (λ (r : AuctionSequence). r.auction_id) a rows)
      ≡ find_sequence a rows
unfolding rows_of find_sequence
find_sequence-rows_of a [] = refl
find_sequence-rows_of a (r ∷ rows) = ground (arith, find_sequence-rows_of a rows)

pub find_bid-rows_of :
    (a key : Uuid) (rows : List Bid)
    → find_bid a key (rows_of (λ (r : Bid). r.auction_id) a rows) ≡ find_bid a key rows
unfolding rows_of find_bid
find_bid-rows_of a key [] = refl
find_bid-rows_of a key (r ∷ rows) = ground (arith, find_bid-rows_of a key rows)

pub has_sequence-rows_of :
    (a : Uuid) (n : ℤ) (rows : List Bid)
    → has_sequence a n (rows_of (λ (r : Bid). r.auction_id) a rows) ≡ has_sequence a n rows
unfolding rows_of has_sequence
has_sequence-rows_of a n [] = refl
has_sequence-rows_of a n (r ∷ rows) = ground (arith, has_sequence-rows_of a n rows)

pub has_event-rows_of :
    (kind : Text) (a : Uuid) (n : ℤ) (rows : List OutboxRow)
    → has_event kind a n (rows_of (λ (r : OutboxRow). r.aggregate_id) a rows)
      ≡ has_event kind a n rows
unfolding rows_of has_event
has_event-rows_of kind a n [] = refl
has_event-rows_of kind a n (r ∷ rows) = ground (arith, has_event-rows_of kind a n rows)

pub count_matches-rows_of :
    (a : Uuid) (old : ℤ) (rows : List AuctionSequence)
    → count_matches a old (rows_of (λ (r : AuctionSequence). r.auction_id) a rows)
      ≡ count_matches a old rows
unfolding rows_of count_matches
count_matches-rows_of a old [] = refl
count_matches-rows_of a old (r ∷ rows) = ground (arith, count_matches-rows_of a old rows)

pub returning-rows_of :
    (a : Uuid) (t : Time) (rows : List Auction)
    → returning a t (rows_of (λ (r : Auction). r.id) a rows) ≡ returning a t rows
unfolding rows_of returning
returning-rows_of a t [] = refl
returning-rows_of a t (r ∷ rows) = ground (arith, returning-rows_of a t rows)

-- What is set for an auction is set in its rows.
pub set_matches-rows_of :
    (a : Uuid) (new old : ℤ) (rows : List AuctionSequence)
    → set_matches a new old (rows_of (λ (r : AuctionSequence). r.auction_id) a rows)
      ≡ rows_of (λ (r : AuctionSequence). r.auction_id) a (set_matches a new old rows)
unfolding rows_of set_matches
set_matches-rows_of a new old [] = refl
set_matches-rows_of a new old (r ∷ rows) = ground (arith, set_matches-rows_of a new old rows)

pub extend_rows-rows_of :
    (a : Uuid) (t : Time) (rows : List Auction)
    → extend_rows a t (rows_of (λ (r : Auction). r.id) a rows)
      ≡ rows_of (λ (r : Auction). r.id) a (extend_rows a t rows)
unfolding rows_of extend_rows
extend_rows-rows_of a t [] = refl
extend_rows-rows_of a t (r ∷ rows) = ground (arith, extend_rows-rows_of a t rows)

-- An id that no event has is the id of none of an auction's.
pub has_id-rows_of :
    (i a : Uuid) (rows : List OutboxRow)
    → has_id i rows ≡ false
    → has_id i (rows_of (λ (r : OutboxRow). r.aggregate_id) a rows) ≡ false
unfolding rows_of has_id
has_id-rows_of i a [] h = refl
has_id-rows_of i a (r ∷ rows) h = ground (arith, has_id-rows_of i a rows)
