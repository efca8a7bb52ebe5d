-- ===== src/Postgres/Statements.antt =====
-- The SQL statements of package postgresstore, as the source writes them, over the tables.
use bid_lane.Prelude.{
  ℕ, suc, ◌+◌, ◌∷◌, [], ◌++◌, Option, none, some, List, Text, codes, text_eq, Bool, true, false,
  ◌&&◌, ◌==◌, ltb, is_some, if◌then◌else◌,
}
use bid_lane.Prelude.Int.{ℤ, pos, ◌+ℤ◌, ◌-ℤ◌, eqb_ℤ, ltb_ℤ, leb_ℤ}
use bid_lane.Go.Time.{Time}
use bid_lane.Postgres.Schema.{
  Uuid, Auction, Bid, AuctionSequence, Payload, OutboxRow, Db, Constraint, sequence_no_positive,
  amount_positive, bid_auction_exists, uq_bids_auction_sequence, sequence_auction_exists,
  last_seq_nonnegative, aggregate_sequence_positive, outbox_id_unique, uq_outbox_event,
  find_auction, find_sequence, find_bid, has_sequence,
}

-- What a statement ends with: a result and the tables, or an error.
pub data PgError : Type 0 where
  no_rows unavailable : PgError
  violates : Constraint → PgError

pub data Outcome (A : Type 0) : Type 0 where
  done : A → Db → Outcome A
  failed : PgError → Outcome A

abbrev pub Statement : Type 0 → Type 0
Statement A = Db → Outcome A

pub record BidToPersist : Type 0 where
  pub auction_id : Uuid
  pub bidder_id : Uuid
  pub amount : ℤ
  pub idempotency_key : Uuid
  pub stream_entry_id : Text
  pub correlation_id : Text

-- SELECT effective_close_time, extension_count FROM auctions WHERE id = $1 FOR UPDATE
unfoldable pub select_auction : Uuid → Statement (Option (Time × ℕ))
select_auction a db = elim (find_auction a db.auctions) [
  | none ↦ done none db
  | some r ↦ done (some (r.effective_close_time, r.extension_count)) db
]

-- SELECT sequence_no FROM bids WHERE auction_id = $1 AND idempotency_key = $2
unfoldable pub select_bid : Uuid → Uuid → Statement (Option ℤ)
select_bid a key db = done (find_bid a key db.bids) db

-- INSERT INTO auction_sequences VALUES ($1, 0) ON CONFLICT (auction_id) DO NOTHING
unfoldable pub insert_sequence : Uuid → Statement (Unit {0})
insert_sequence a db =
    if is_some (find_sequence a db.sequences)
    then done tt db
    else if is_some (find_auction a db.auctions)
    then done tt
        (record db { sequences = db.sequences ++ record { auction_id = a; last_seq = pos 0 } ∷ [] })
    else failed (violates sequence_auction_exists)

-- SELECT last_seq FROM auction_sequences WHERE auction_id = $1 FOR UPDATE
unfoldable pub select_sequence : Uuid → Statement (Option ℤ)
select_sequence a db = done (find_sequence a db.sequences) db

abbrev pub bid_row : BidToPersist → ℤ → Bid
bid_row bid n = record {
  auction_id = bid.auction_id;
  sequence_no = n;
  amount = bid.amount;
  bidder_id = bid.bidder_id;
  idempotency_key = bid.idempotency_key;
  stream_entry_id = bid.stream_entry_id;
}

-- INSERT INTO bids … ON CONFLICT (auction_id, idempotency_key) DO NOTHING RETURNING sequence_no:
-- the checks of the row come before the conflict, the other constraints after it.
unfoldable pub insert_bid_on_conflict : BidToPersist → ℤ → Statement (Option ℤ)
insert_bid_on_conflict bid n db =
    if leb_ℤ n (pos 0)
    then failed (violates sequence_no_positive)
    else if leb_ℤ bid.amount (pos 0)
    then failed (violates amount_positive)
    else if is_some (find_bid bid.auction_id bid.idempotency_key db.bids)
    then done none db
    else if has_sequence bid.auction_id n db.bids
    then failed (violates uq_bids_auction_sequence)
    else if is_some (find_auction bid.auction_id db.auctions)
    then done (some n) (record db { bids = db.bids ++ bid_row bid n ∷ [] })
    else failed (violates bid_auction_exists)

-- The rows that `WHERE auction_id = $1 AND last_seq = $3` selects, counted and set to $2.
unfoldable pub matches : Uuid → ℤ → AuctionSequence → Bool
matches a old r = r.auction_id == a && eqb_ℤ r.last_seq old

unfoldable pub count_matches : Uuid → ℤ → List AuctionSequence → ℕ
unfolding matches
count_matches a old [] = 0
count_matches a old (r ∷ rows) =
    let n = count_matches a old rows in if matches a old r then suc n else n

unfoldable pub set_matches : Uuid → ℤ → ℤ → List AuctionSequence → List AuctionSequence
unfolding matches
set_matches a new old [] = []
set_matches a new old (r ∷ rows) =
    (if matches a old r then record r { last_seq = new } else r) ∷ set_matches a new old rows

-- UPDATE auction_sequences SET last_seq = $2 WHERE auction_id = $1 AND last_seq = $3
unfoldable pub update_sequence : Uuid → ℤ → ℤ → Statement ℕ
unfolding count_matches set_matches
update_sequence a new old db =
    if ltb 0 (count_matches a old db.sequences) && ltb_ℤ new (pos 0)
    then failed (violates last_seq_nonnegative)
    else done (count_matches a old db.sequences)
        (record db { sequences = set_matches a new old db.sequences })

-- The conditions on the row in the UPDATE that extends an auction, $2 being the submission time.
unfoldable pub eligible : Time → Auction → Bool
eligible submitted_at r =
    ltb_ℤ submitted_at r.effective_close_time
    && leb_ℤ (r.effective_close_time -ℤ pos r.extension_window) submitted_at
    && ltb r.extension_count r.max_extensions

unfoldable pub extended_row : Auction → Auction
extended_row r = record r {
  effective_close_time = r.effective_close_time +ℤ pos r.extension_interval;
  extension_count = r.extension_count + 1;
}

unfoldable pub extend_rows : Uuid → Time → List Auction → List Auction
unfolding eligible extended_row
extend_rows a t [] = []
extend_rows a t (r ∷ rows) =
    (if r.id == a && eligible t r then extended_row r else r) ∷ extend_rows a t rows

unfoldable pub returning : Uuid → Time → List Auction → Option (Time × ℕ)
unfolding eligible extended_row
returning a t [] = none
returning a t (r ∷ rows) =
    if r.id == a && eligible t r
    then some ((extended_row r).effective_close_time, (extended_row r).extension_count)
    else returning a t rows

-- UPDATE auctions SET effective_close_time = effective_close_time + extension_interval,
-- extension_count = extension_count + 1 WHERE id = $1 AND … RETURNING both
unfoldable pub extend_auction : Uuid → Time → Statement (Option (Time × ℕ))
unfolding extend_rows returning
extend_auction a t db =
    done (returning a t db.auctions) (record db { auctions = extend_rows a t db.auctions })

unfoldable pub has_event : Text → Uuid → ℤ → List OutboxRow → Bool
has_event kind a n [] = false
has_event kind a n (r ∷ rows) =
    if text_eq r.event_type kind && r.aggregate_id == a && eqb_ℤ r.aggregate_sequence n
    then true
    else has_event kind a n rows

unfoldable pub has_id : Uuid → List OutboxRow → Bool
has_id i [] = false
has_id i (r ∷ rows) = if r.id == i then true else has_id i rows

abbrev pub bid_accepted : Text
bid_accepted = codes "BidAccepted"

-- A row as INSERT INTO outbox makes it, with the id and the time that the server gives it.
abbrev pub outbox_row : Uuid → Time → Payload → OutboxRow
outbox_row i now payload = record {
  id = i;
  event_type = bid_accepted;
  aggregate_type = codes "auction";
  aggregate_id = payload.auction_id;
  aggregate_sequence = payload.sequence_no;
  payload = payload;
  created_at = now;
  published_at = none;
  publish_attempts = 0;
}

-- INSERT INTO outbox (…) VALUES ('BidAccepted', 'auction', $1, $2, jsonb_build_object(…)); the
-- result is the number of rows.
unfoldable pub insert_outbox : Uuid → Time → Payload → Statement ℕ
unfolding has_event has_id
insert_outbox i now payload db =
    if leb_ℤ payload.sequence_no (pos 0)
    then failed (violates aggregate_sequence_positive)
    else if has_id i db.outbox
    then failed (violates outbox_id_unique)
    else if has_event bid_accepted payload.auction_id payload.sequence_no db.outbox
    then failed (violates uq_outbox_event)
    else done 1 (record db { outbox = db.outbox ++ outbox_row i now payload ∷ [] })
