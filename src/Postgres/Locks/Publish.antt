-- ===== src/Postgres/Locks/Publish.antt =====
-- A commit publishes the rows of its auction, and no others.
use bid_lane.Prelude.{refl, ◌∙◌, ◌≡◌, ◌≢◌, ◌∷◌, [], append-nil, List, arith}
use bid_lane.Postgres.Schema.{Uuid, Auction, Bid, AuctionSequence, OutboxRow, Db}
use bid_lane.Postgres.Isolation.{rows_of, restrict, rows_of-append}
use bid_lane.Postgres.Locks.{others_of, published_rows, publish}

rows_of-others_self :
    {A : Type 0} (key : A → Uuid) (a : Uuid) (rows : List A)
    → rows_of key a (others_of key a rows) ≡ []
unfolding rows_of others_of
rows_of-others_self key a [] = refl
rows_of-others_self key a (r ∷ rows) = ground (arith, rows_of-others_self key a rows)

rows_of-others :
    {A : Type 0} (key : A → Uuid) (a b : Uuid) (rows : List A)
    → a ≢ b
    → rows_of key b (others_of key a rows) ≡ rows_of key b rows
unfolding rows_of others_of
rows_of-others key a b [] ne = refl
rows_of-others key a b (r ∷ rows) ne = ground (arith, rows_of-others key a b rows ne)

rows_of-rows_of :
    {A : Type 0} (key : A → Uuid) (a : Uuid) (rows : List A)
    → rows_of key a (rows_of key a rows) ≡ rows_of key a rows
unfolding rows_of
rows_of-rows_of key a [] = refl
rows_of-rows_of key a (r ∷ rows) = ground (arith, rows_of-rows_of key a rows)

rows_of-rows_of_other :
    {A : Type 0} (key : A → Uuid) (a b : Uuid) (rows : List A)
    → a ≢ b
    → rows_of key b (rows_of key a rows) ≡ []
unfolding rows_of
rows_of-rows_of_other key a b [] ne = refl
rows_of-rows_of_other key a b (r ∷ rows) ne = ground (arith, rows_of-rows_of_other key a b rows ne)

published_self :
    {A : Type 0} (key : A → Uuid) (a : Uuid) (new old : List A)
    → rows_of key a (published_rows key a new old) ≡ rows_of key a new
published_self key a new old =
    rows_of-append key a (others_of key a old) (rows_of key a new)
    ∙ rw (rows_of-others_self key a old) (rows_of-rows_of key a new)

published_other :
    {A : Type 0} (key : A → Uuid) (a b : Uuid) (new old : List A)
    → a ≢ b
    → rows_of key b (published_rows key a new old) ≡ rows_of key b old
published_other key a b new old ne =
    rows_of-append key b (others_of key a old) (rows_of key a new)
    ∙ rw (rows_of-others key a b old ne, rows_of-rows_of_other key a b new ne) (append-nil _)

pub restrict-publish : (a : Uuid) (new old : Db) → restrict a (publish a new old) ≡ restrict a new
unfolding publish
restrict-publish a new old = λ i. record {
  auctions = published_self (λ (r : Auction). r.id) a new.auctions old.auctions i;
  bids = published_self (λ (r : Bid). r.auction_id) a new.bids old.bids i;
  sequences =
      published_self (λ (r : AuctionSequence). r.auction_id) a new.sequences old.sequences i;
  outbox = published_self (λ (r : OutboxRow). r.aggregate_id) a new.outbox old.outbox i;
}

pub restrict-publish_other :
    (a b : Uuid) (new old : Db) → a ≢ b → restrict b (publish a new old) ≡ restrict b old
unfolding publish
restrict-publish_other a b new old ne = λ i. record {
  auctions = published_other (λ (r : Auction). r.id) a b new.auctions old.auctions ne i;
  bids = published_other (λ (r : Bid). r.auction_id) a b new.bids old.bids ne i;
  sequences =
      published_other (λ (r : AuctionSequence). r.auction_id) a b new.sequences old.sequences ne i;
  outbox = published_other (λ (r : OutboxRow). r.aggregate_id) a b new.outbox old.outbox ne i;
}
