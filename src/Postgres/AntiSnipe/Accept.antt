-- ===== src/Postgres/AntiSnipe/Accept.antt =====
-- A new bid, where no call fails: each part of the transaction ends with its result.
use bid_lane.Prelude.{
  ℕ, refl, ◌∙◌, ◌≡◌, ◌≢◌, inl, inr, ◌∷◌, [], ◌++◌, List, none, some, true, false, arith,
  Option-cases, Bool-cases, ==_iff, ◌==◌, subst,
}
use bid_lane.Prelude.Int.{ℤ, pos, ◌≤ℤ◌, ◌<ℤ◌, eqb_ℤ_iff}
use bid_lane.Go.Int64.{add64}
use bid_lane.Go.Time.{Time, zero_time}
use bid_lane.Postgres.Schema.{
  Uuid, Auction, AuctionSequence, Db, Payload, find_auction, find_sequence, find_bid, has_sequence,
}
use bid_lane.Postgres.Statements.{
  BidToPersist, bid_row, outbox_row, bid_accepted, has_event, has_id, select_auction, select_bid,
  insert_sequence, select_sequence, insert_bid_on_conflict, update_sequence, extend_auction,
  insert_outbox, count_matches, set_matches, extend_rows, returning,
}
use bid_lane.Postgres.Numbering.{ensured, last_seq_of, next_seq}
use bid_lane.Postgres.Numbering.Counter.{find_sequence-append, find_sequence-ensured}
use bid_lane.Postgres.Transaction.{
  Service, Call, Error, bid_at_or_after_close, commit_bid_failed, ok, err, run,
}
use bid_lane.Postgres.AntiSnipe.{
  AntiSnipeAppendResult, extension, payload_of, finish_new, insert_new, append_new, append_body,
  append_bid_idempotent_with_anti_snipe, insert_bid_accepted_outbox,
}
use bid_lane.Postgres.AntiSnipe.Effects.{new_result, payload_for, new_db}
use bid_lane.Postgres.AntiSnipe.Retry.{IsQuiet}

-- `auction_id` is the primary key of the counters.
abbrev pub HasCounterKey : List AuctionSequence → Type 0
HasCounterKey [] = Unit
HasCounterKey (r ∷ rows) = (find_sequence r.auction_id rows ≡ none) × HasCounterKey rows

count_matches-none :
    (a : Uuid) (old : ℤ) (rows : List AuctionSequence)
    → find_sequence a rows ≡ none
    → count_matches a old rows ≡ 0
unfolding count_matches find_sequence
count_matches-none a old [] e = refl
count_matches-none a old (r ∷ rows) e = ground (arith, count_matches-none a old rows)

-- The UPDATE of a counter finds its row, and no other.
count_matches-found :
    (a : Uuid) (old : ℤ) (rows : List AuctionSequence)
    → HasCounterKey rows
    → find_sequence a rows ≡ some old
    → count_matches a old rows ≡ 1
unfolding count_matches find_sequence
count_matches-found a old [] k e = cc
count_matches-found a old (r ∷ rows) k e = elim (Bool-cases (r.auction_id == a)) [
  | inl same ↦
      let at_head = (==_iff r.auction_id a).0 same in
      ground (
        arith,
        eqb_ℤ_iff r.last_seq old,
        count_matches-none a old rows (subst (λ x. find_sequence x rows ≡ none) at_head k.0),
      )
  | inr other ↦ ground (arith, count_matches-found a old rows k.1)
]

module _ (s : Service) (quiet : IsQuiet s) where
  insert_outbox_quiet :
      (p : Payload) (db : Db)
      → pos 1 ≤ℤ p.sequence_no
      → has_id s.new_id db.outbox ≡ false
      → has_event bid_accepted p.auction_id p.sequence_no db.outbox ≡ false
      → insert_bid_accepted_outbox s p db
        ≡ ok (tt, record db { outbox = db.outbox ++ outbox_row s.new_id s.now p ∷ [] })
  unfolding insert_bid_accepted_outbox run insert_outbox
  insert_outbox_quiet p db positive new_id new_event =
      ground (arith, quiet.calls Call.insert_outbox)

  finish_new_quiet :
      (bid : BidToPersist) (t close : Time) (count : ℕ) (last next : ℤ) (db : Db)
      → pos 1 ≤ℤ next
      → count_matches bid.auction_id last db.sequences ≡ 1
      → has_id s.new_id db.outbox ≡ false
      → has_event bid_accepted bid.auction_id next db.outbox ≡ false
      → let (extended, close', count') =
          extension (returning bid.auction_id t db.auctions) close count in
        finish_new s bid t close count last next next db
        ≡ ok (
          (
            record {
              result = record { sequence_number = next; inserted = true };
              extended = extended;
              effective_close_time = close';
              extension_count = count';
            },
            commit_bid_failed,
          ),
          record {
            auctions = extend_rows bid.auction_id t db.auctions;
            bids = db.bids;
            sequences = set_matches bid.auction_id next last db.sequences;
            outbox =
                db.outbox
                ++ outbox_row s.new_id s.now (payload_of bid next t close' extended count') ∷ [];
          },
        )
  unfolding finish_new run update_sequence extend_auction
  finish_new_quiet bid t close count last next db positive one new_id new_event =
      let a = bid.auction_id in
      let tables : Db = record {
        auctions = extend_rows a t db.auctions;
        bids = db.bids;
        sequences = set_matches a next last db.sequences;
        outbox = db.outbox;
      } in
      elim (Option-cases (returning a t db.auctions)) [
        | inl e ↦ ground (
          arith,
          quiet.calls Call.advance_sequence,
          quiet.calls Call.extend,
          insert_outbox_quiet (payload_of bid next t close false count) tables positive new_id
              new_event,
        )
        | inr ((close', count'), e) ↦ ground (
          arith,
          quiet.calls Call.advance_sequence,
          quiet.calls Call.extend,
          insert_outbox_quiet (payload_of bid next t close' true count') tables positive new_id
              new_event,
        )
      ]

  insert_new_quiet :
      (bid : BidToPersist) (t close : Time) (count : ℕ) (last : ℤ) (db : Db) (row : Auction)
      → let next = add64 last (pos 1) in
        pos 1 ≤ℤ next
        → pos 1 ≤ℤ bid.amount
        → find_auction bid.auction_id db.auctions ≡ some row
        → find_bid bid.auction_id bid.idempotency_key db.bids ≡ none
        → has_sequence bid.auction_id next db.bids ≡ false
        → insert_new s bid t close count last db
          ≡ finish_new s bid t close count last next next
              (record db { bids = db.bids ++ bid_row bid next ∷ [] })
  unfolding insert_new run insert_bid_on_conflict
  insert_new_quiet bid t close count last db row positive amount found fresh unused =
      ground (arith, quiet.calls Call.insert_bid)

  append_new_quiet :
      (bid : BidToPersist) (t close : Time) (count : ℕ) (db : Db) (row : Auction)
      → t <ℤ close
      → find_auction bid.auction_id db.auctions ≡ some row
      → append_new s bid t close count db
        ≡ insert_new s bid t close count
            (last_seq_of bid.auction_id db)
            (record db { sequences = ensured bid.auction_id db.sequences })
  unfolding append_new run insert_sequence select_sequence ensured last_seq_of
  append_new_quiet bid t close count db row in_time found =
      elim (Option-cases (find_sequence bid.auction_id db.sequences)) [
        | inl e ↦ ground (
          arith,
          quiet.calls Call.ensure_sequence,
          quiet.calls Call.lock_sequence,
          find_sequence-append bid.auction_id db.sequences e,
        )
        | inr (n, e) ↦
            ground (arith, quiet.calls Call.ensure_sequence, quiet.calls Call.lock_sequence)
      ]

  append_body_quiet :
      (bid : BidToPersist) (t : Time) (db : Db) (row : Auction)
      → find_auction bid.auction_id db.auctions ≡ some row
      → find_bid bid.auction_id bid.idempotency_key db.bids ≡ none
      → append_body s bid t db ≡ append_new s bid t row.effective_close_time row.extension_count db
  unfolding append_body run select_auction select_bid
  append_body_quiet bid t db row found fresh =
      ground (arith, quiet.calls Call.lock_auction, quiet.calls Call.check_existing)

  -- A transaction whose body succeeds commits its tables.
  append_committed :
      (bid : BidToPersist) (t : Time) (db db' : Db) (r : AntiSnipeAppendResult) (e : Error)
      → t ≢ zero_time
      → append_body s bid t db ≡ ok ((r, e), db')
      → append_bid_idempotent_with_anti_snipe s bid t db ≡ (ok r, db')
  unfolding append_bid_idempotent_with_anti_snipe
  append_committed bid t db db' r e nonzero body =
      ground (arith, quiet.calls Call.begin, quiet.commits, eqb_ℤ_iff t zero_time)

  -- The bid of a closed auction is refused, and nothing changes.
  pub append_closed :
      (bid : BidToPersist) (t : Time) (db : Db) (row : Auction)
      → t ≢ zero_time
      → find_auction bid.auction_id db.auctions ≡ some row
      → find_bid bid.auction_id bid.idempotency_key db.bids ≡ none
      → row.effective_close_time ≤ℤ t
      → append_bid_idempotent_with_anti_snipe s bid t db ≡ (err bid_at_or_after_close, db)
  unfolding append_bid_idempotent_with_anti_snipe append_new
  append_closed bid t db row nonzero found fresh late = ground (
    arith,
    quiet.calls Call.begin,
    eqb_ℤ_iff t zero_time,
    append_body_quiet bid t db row found fresh,
  )

  -- A new bid in time is recorded, if the number behind the counter's is a positive int64, and it and
  -- the event's id are not in use.
  pub append_new_bid :
      (bid : BidToPersist) (t : Time) (db : Db) (row : Auction)
      → t ≢ zero_time
      → find_auction bid.auction_id db.auctions ≡ some row
      → find_bid bid.auction_id bid.idempotency_key db.bids ≡ none
      → t <ℤ row.effective_close_time
      → pos 1 ≤ℤ bid.amount
      → pos 1 ≤ℤ next_seq bid.auction_id db
      → has_sequence bid.auction_id (next_seq bid.auction_id db) db.bids ≡ false
      → HasCounterKey (ensured bid.auction_id db.sequences)
      → has_id s.new_id db.outbox ≡ false
      → has_event bid_accepted bid.auction_id (next_seq bid.auction_id db) db.outbox ≡ false
      → let r = new_result bid t db row.effective_close_time row.extension_count in
        append_bid_idempotent_with_anti_snipe s bid t db ≡ (ok r, new_db s bid t db r)
  unfolding new_result new_db next_seq last_seq_of payload_for
  append_new_bid bid t db row nonzero found fresh in_time amount positive unused key new_id
        new_event =
      let a = bid.auction_id in
      let close = row.effective_close_time in
      let last = last_seq_of a db in
      let next = add64 last (pos 1) in
      let tables : Db = record db {
        sequences = ensured a db.sequences;
        bids = db.bids ++ bid_row bid next ∷ [];
      } in
      append_committed bid t db _ _ commit_bid_failed nonzero (
        append_body_quiet bid t db row found fresh
        ∙ append_new_quiet bid t close row.extension_count db row in_time found
        ∙ insert_new_quiet bid t close row.extension_count last
            (record db { sequences = ensured a db.sequences }) row positive amount found fresh
            unused
        ∙ finish_new_quiet bid t close row.extension_count last next tables positive
            (count_matches-found a last (ensured a db.sequences) key
              (find_sequence-ensured a db.sequences))
            new_id new_event)
