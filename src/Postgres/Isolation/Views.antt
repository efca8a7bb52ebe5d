-- ===== src/Postgres/Isolation/Views.antt =====
-- What is said of an auction in the tables is said of its rows.
use bid_lane.Prelude.{
  refl, ap, sym, ◌∙◌, ◌≡◌, inl, inr, ◌∷◌, [], List, none, Bool-cases, ◌==◌, arith,
}
use bid_lane.Postgres.Schema.{
  Uuid, Auction, AuctionSequence, Bid, OutboxRow, Db, find_auction, find_sequence,
}
use bid_lane.Postgres.Numbering.{last_of, last_seq_of}
use bid_lane.Postgres.Numbering.Invariant.{IsLedger, numbers, keys}
use bid_lane.Postgres.AntiSnipe.Accept.{HasCounterKey}
use bid_lane.Postgres.AntiSnipe.Extension.{HasPrimaryKey}
use bid_lane.Postgres.AntiSnipe.Announcement.{announced, bids_of}
use bid_lane.Postgres.AuctionLog.{AuctionLog}
use bid_lane.Postgres.AuctionLog.Places.{entries_of}
use bid_lane.Postgres.AuctionLog.Refinement.{Views, IsSound}
use bid_lane.Postgres.Isolation.{rows_of, restrict, find_auction-rows_of, find_sequence-rows_of}

numbers-rows_of :
    (a : Uuid) (rows : List Bid)
    → numbers a (rows_of (λ (r : Bid). r.auction_id) a rows) ≡ numbers a rows
unfolding rows_of numbers
numbers-rows_of a [] = refl
numbers-rows_of a (r ∷ rows) = ground (arith, numbers-rows_of a rows)

keys-rows_of :
    (a : Uuid) (rows : List Bid) → keys a (rows_of (λ (r : Bid). r.auction_id) a rows) ≡ keys a rows
unfolding rows_of keys
keys-rows_of a [] = refl
keys-rows_of a (r ∷ rows) = ground (arith, keys-rows_of a rows)

entries_of-rows_of :
    (a : Uuid) (rows : List Bid)
    → entries_of a (rows_of (λ (r : Bid). r.auction_id) a rows) ≡ entries_of a rows
unfolding rows_of entries_of
entries_of-rows_of a [] = refl
entries_of-rows_of a (r ∷ rows) = ground (arith, entries_of-rows_of a rows)

bids_of-rows_of :
    (a : Uuid) (rows : List Bid)
    → bids_of a (rows_of (λ (r : Bid). r.auction_id) a rows) ≡ bids_of a rows
unfolding rows_of bids_of
bids_of-rows_of a [] = refl
bids_of-rows_of a (r ∷ rows) = ground (arith, bids_of-rows_of a rows)

announced-rows_of :
    (a : Uuid) (rows : List OutboxRow)
    → announced a (rows_of (λ (r : OutboxRow). r.aggregate_id) a rows) ≡ announced a rows
unfolding rows_of announced
announced-rows_of a [] = refl
announced-rows_of a (r ∷ rows) = ground (arith, announced-rows_of a rows)

find_auction-none :
    (b a : Uuid) (rows : List Auction)
    → find_auction b rows ≡ none
    → find_auction b (rows_of (λ (r : Auction). r.id) a rows) ≡ none
unfolding rows_of find_auction
find_auction-none b a [] e = refl
find_auction-none b a (r ∷ rows) e = ground (arith, find_auction-none b a rows)

find_sequence-none :
    (b a : Uuid) (rows : List AuctionSequence)
    → find_sequence b rows ≡ none
    → find_sequence b (rows_of (λ (r : AuctionSequence). r.auction_id) a rows) ≡ none
unfolding rows_of find_sequence
find_sequence-none b a [] e = refl
find_sequence-none b a (r ∷ rows) e = ground (arith, find_sequence-none b a rows)

rows_of-HasPrimaryKey :
    (a : Uuid) (rows : List Auction)
    → HasPrimaryKey rows
    → HasPrimaryKey (rows_of (λ (r : Auction). r.id) a rows)
unfolding rows_of
rows_of-HasPrimaryKey a [] k = tt
rows_of-HasPrimaryKey a (r ∷ rows) k = elim (Bool-cases (r.id == a)) [
  | inl e ↦ rw (rows_of, e) (find_auction-none r.id a rows k.0, rows_of-HasPrimaryKey a rows k.1)
  | inr e ↦ rw (rows_of, e) (rows_of-HasPrimaryKey a rows k.1)
]

rows_of-HasCounterKey :
    (a : Uuid) (rows : List AuctionSequence)
    → HasCounterKey rows
    → HasCounterKey (rows_of (λ (r : AuctionSequence). r.auction_id) a rows)
unfolding rows_of
rows_of-HasCounterKey a [] k = tt
rows_of-HasCounterKey a (r ∷ rows) k = elim (Bool-cases (r.auction_id == a)) [
  | inl e ↦
      rw (rows_of, e) (find_sequence-none r.auction_id a rows k.0, rows_of-HasCounterKey a rows k.1)
  | inr e ↦ rw (rows_of, e) (rows_of-HasCounterKey a rows k.1)
]

restrict-last_seq : (a : Uuid) (db : Db) → last_seq_of a (restrict a db) ≡ last_seq_of a db
unfolding last_seq_of
restrict-last_seq a db = ap last_of (find_sequence-rows_of a db.sequences)

pub restrict-IsLedger : (a : Uuid) (db : Db) → IsLedger a db → IsLedger a (restrict a db)
restrict-IsLedger a db l = record {
  total = l.total;
  bounded = l.bounded;
  gap_free = numbers-rows_of a db.bids ∙ l.gap_free;
  counter = restrict-last_seq a db ∙ l.counter;
  distinct = rw (keys-rows_of a db.bids) l.distinct;
}

pub unrestrict-IsLedger : (a : Uuid) (db : Db) → IsLedger a (restrict a db) → IsLedger a db
unrestrict-IsLedger a db l = record {
  total = l.total;
  bounded = l.bounded;
  gap_free = sym (numbers-rows_of a db.bids) ∙ l.gap_free;
  counter = sym (restrict-last_seq a db) ∙ l.counter;
  distinct = rw (← keys-rows_of a db.bids) l.distinct;
}

pub restrict-IsSound : (a : Uuid) (db : Db) → IsSound a db → IsSound a (restrict a db)
restrict-IsSound a db h = record {
  ledger = restrict-IsLedger a db h.ledger;
  announced = announced-rows_of a db.outbox ∙ h.announced ∙ sym (bids_of-rows_of a db.bids);
  auctions = rows_of-HasPrimaryKey a db.auctions h.auctions;
  counters = rows_of-HasCounterKey a db.sequences h.counters;
}

pub restrict-Views :
    (a : Uuid) (db : Db) (log : AuctionLog) → Views a db log → Views a (restrict a db) log
restrict-Views a db log v = record {
  row = find_auction-rows_of a db.auctions ∙ v.row;
  entries = entries_of-rows_of a db.bids ∙ v.entries;
}

pub unrestrict-Views :
    (a : Uuid) (db : Db) (log : AuctionLog) → Views a (restrict a db) log → Views a db log
unrestrict-Views a db log v = record {
  row = sym (find_auction-rows_of a db.auctions) ∙ v.row;
  entries = sym (entries_of-rows_of a db.bids) ∙ v.entries;
}
