-- ===== src/Postgres/Isolation/Frame.antt =====
-- A transaction leaves the rows of the other auctions.
use bid_lane.Prelude.{
  refl, ap, ◌∙◌, ◌≡◌, ◌≢◌, inl, inr, ◌∷◌, [], ◌++◌, List, arith, is_some, if_elim,
}
use bid_lane.Prelude.Int.{ℤ}
use bid_lane.Go.Time.{Time}
use bid_lane.Postgres.Schema.{Uuid, Auction, AuctionSequence, Bid, OutboxRow, Db, find_sequence}
use bid_lane.Postgres.Statements.{BidToPersist, bid_row, outbox_row, set_matches, extend_rows}
use bid_lane.Postgres.Transaction.{Service, Result, ok, err}
use bid_lane.Postgres.Numbering.{ensured, next_seq, last_seq_of}
use bid_lane.Postgres.AntiSnipe.{AntiSnipeAppendResult, append_bid_idempotent_with_anti_snipe}
use bid_lane.Postgres.AntiSnipe.Effects.{Effect, new_db, payload_for, append-Effect}
use bid_lane.Postgres.Isolation.{rows_of, restrict}

-- A row of another auction, behind the others.
rows_of-append_other :
    {A : Type 0} (key : A → Uuid) (a : Uuid) (rows : List A) (r : A)
    → a ≢ key r
    → rows_of key a (rows ++ r ∷ []) ≡ rows_of key a rows
unfolding rows_of
rows_of-append_other key a [] r ne = ground arith
rows_of-append_other key a (q ∷ rows) r ne = ground (arith, rows_of-append_other key a rows r ne)

rows_of-extend_other :
    (a b : Uuid) (t : Time) (rows : List Auction)
    → a ≢ b
    → rows_of (λ (r : Auction). r.id) a (extend_rows b t rows)
      ≡ rows_of (λ (r : Auction). r.id) a rows
unfolding rows_of extend_rows
rows_of-extend_other a b t [] ne = refl
rows_of-extend_other a b t (r ∷ rows) ne = ground (arith, rows_of-extend_other a b t rows ne)

rows_of-set_matches_other :
    (a b : Uuid) (new old : ℤ) (rows : List AuctionSequence)
    → a ≢ b
    → rows_of (λ (r : AuctionSequence). r.auction_id) a (set_matches b new old rows)
      ≡ rows_of (λ (r : AuctionSequence). r.auction_id) a rows
unfolding rows_of set_matches
rows_of-set_matches_other a b new old [] ne = refl
rows_of-set_matches_other a b new old (r ∷ rows) ne =
    ground (arith, rows_of-set_matches_other a b new old rows ne)

rows_of-ensured_other :
    (a b : Uuid) (rows : List AuctionSequence)
    → a ≢ b
    → rows_of (λ (r : AuctionSequence). r.auction_id) a (ensured b rows)
      ≡ rows_of (λ (r : AuctionSequence). r.auction_id) a rows
unfolding ensured
rows_of-ensured_other a b rows ne =
    if_elim
      (λ (x : List AuctionSequence).
        rows_of (λ (r : AuctionSequence). r.auction_id) a x
        ≡ rows_of (λ (r : AuctionSequence). r.auction_id) a rows)
      (is_some (find_sequence b rows)) _ _ refl
      (rows_of-append_other (λ (r : AuctionSequence). r.auction_id) a rows _ ne)

-- An insertion, on the rows of an auction other than the bid's.
restrict-new_other :
    (a : Uuid) (s : Service) (bid : BidToPersist) (t : Time) (db : Db) (r : AntiSnipeAppendResult)
    → a ≢ bid.auction_id
    → restrict a (new_db s bid t db r) ≡ restrict a db
unfolding new_db next_seq last_seq_of ensured payload_for
restrict-new_other a s bid t db r ne = λ i. record {
  auctions = rows_of-extend_other a bid.auction_id t db.auctions ne i;
  bids =
      rows_of-append_other (λ (x : Bid). x.auction_id) a db.bids
        (bid_row bid (next_seq bid.auction_id db)) ne i;
  sequences =
      (rows_of-set_matches_other a bid.auction_id (next_seq bid.auction_id db)
            (last_seq_of bid.auction_id db) (ensured bid.auction_id db.sequences) ne
          ∙ rows_of-ensured_other a bid.auction_id db.sequences ne)
        i;
  outbox =
      rows_of-append_other (λ (x : OutboxRow). x.aggregate_id) a db.outbox
        (outbox_row s.new_id s.now (payload_for bid t db r)) ne i;
}

restrict-Effect :
    (a : Uuid) (s : Service) (bid : BidToPersist) (t : Time) (db : Db)
    (x : Result AntiSnipeAppendResult × Db)
    → a ≢ bid.auction_id
    → Effect s bid t db x
    → restrict a x.1 ≡ restrict a db
restrict-Effect a s bid t db (ok r, db') ne (inl d) = ap (restrict a) d.tables
restrict-Effect a s bid t db (ok r, db') ne (inr n) =
    ap (restrict a) n.tables ∙ restrict-new_other a s bid t db r ne
restrict-Effect a s bid t db (err e, db') ne (inl same) = ap (restrict a) same
restrict-Effect a s bid t db (err e, db') ne (inr (_, (r, n))) =
    ap (restrict a) n.tables ∙ restrict-new_other a s bid t db r ne

-- Whatever fails.
pub append-restrict_other :
    (a : Uuid) (s : Service) (bid : BidToPersist) (t : Time) (db : Db)
    → a ≢ bid.auction_id
    → restrict a (append_bid_idempotent_with_anti_snipe s bid t db).1 ≡ restrict a db
append-restrict_other a s bid t db ne = restrict-Effect a s bid t db _ ne (append-Effect s bid t db)
