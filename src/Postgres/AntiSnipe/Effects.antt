-- ===== src/Postgres/AntiSnipe/Effects.antt =====
-- What a transaction that reaches its commit has done to the tables.
use bid_lane.Prelude.{
  ap, ℕ, refl, ◌∙◌, ◌≡◌, ◌⊎◌, inl, inr, ◌∷◌, [], ◌++◌, none, some, true, false, arith, Option-cases,
  Bool-cases,
}
use bid_lane.Prelude.Int.{ℤ, pos, ◌≤ℤ◌, ◌<ℤ◌}
use bid_lane.Go.Int64.{add64}
use bid_lane.Go.Time.{Time, is_zero}
use bid_lane.Postgres.Schema.{
  Auction, Db, Payload, find_auction, find_sequence, find_bid, has_sequence,
}
use bid_lane.Postgres.Statements.{
  BidToPersist, bid_row, outbox_row, select_auction, select_bid, insert_sequence, select_sequence,
  insert_bid_on_conflict, update_sequence, extend_auction, insert_outbox, set_matches, extend_rows,
  returning,
}
use bid_lane.Postgres.Numbering.{Inserts, ensured, last_seq_of, next_seq}
use bid_lane.Postgres.Numbering.Counter.{find_sequence-append}
use bid_lane.Postgres.Transaction.{
  Service, Error, Result, ok, err, run, CommitOutcome, lost, committed, aborted, end_tx, begin,
}
use bid_lane.Postgres.AntiSnipe.{
  AntiSnipeAppendResult, duplicate, extension, payload_of, finish_new, insert_new, append_new,
  append_body, append_bid_idempotent_with_anti_snipe, insert_bid_accepted_outbox,
}

-- The result and the tables of a new bid, for the values that were locked.
unfoldable pub new_result : BidToPersist → Time → Db → Time → ℕ → AntiSnipeAppendResult
unfolding next_seq
new_result bid submitted_at db close count =
    let (extended, close', count') =
      extension (returning bid.auction_id submitted_at db.auctions) close count in
    record {
      result = record { sequence_number = next_seq bid.auction_id db; inserted = true };
      extended = extended;
      effective_close_time = close';
      extension_count = count';
    }

unfoldable pub payload_for : BidToPersist → Time → Db → AntiSnipeAppendResult → Payload
unfolding next_seq
payload_for bid submitted_at db r =
    payload_of bid (next_seq bid.auction_id db) submitted_at r.effective_close_time r.extended
      r.extension_count

unfoldable pub new_db : Service → BidToPersist → Time → Db → AntiSnipeAppendResult → Db
unfolding next_seq last_seq_of ensured payload_for
new_db s bid submitted_at db r =
    let n = next_seq bid.auction_id db in
    record {
      auctions = extend_rows bid.auction_id submitted_at db.auctions;
      bids = db.bids ++ bid_row bid n ∷ [];
      sequences =
          set_matches bid.auction_id n (last_seq_of bid.auction_id db)
            (ensured bid.auction_id db.sequences);
      outbox = db.outbox ++ outbox_row s.new_id s.now (payload_for bid submitted_at db r) ∷ [];
    }

-- What holds where a transaction has inserted the bid.
pub record IsNew (s : Service) (bid : BidToPersist) (submitted_at : Time) (db : Db)
    (r : AntiSnipeAppendResult) (db' : Db) : Type 0 where
  pub row : Auction
  pub found : find_auction bid.auction_id db.auctions ≡ some row
  pub fresh : find_bid bid.auction_id bid.idempotency_key db.bids ≡ none
  pub in_time : submitted_at <ℤ row.effective_close_time
  pub positive_number : pos 1 ≤ℤ next_seq bid.auction_id db
  pub positive_amount : pos 1 ≤ℤ bid.amount
  pub unused : has_sequence bid.auction_id (next_seq bid.auction_id db) db.bids ≡ false
  pub answer : r ≡ new_result bid submitted_at db row.effective_close_time row.extension_count
  pub tables : db' ≡ new_db s bid submitted_at db r

-- An insertion with anti-sniping is an insertion.
pub IsNew-Inserts :
    {s : Service} {bid : BidToPersist} {t : Time} {db db' : Db} {r : AntiSnipeAppendResult}
    → IsNew s bid t db r db'
    → Inserts bid db db'
unfolding new_db
IsNew-Inserts n = record {
  fresh = n.fresh;
  positive_number = n.positive_number;
  positive_amount = n.positive_amount;
  bids = ap (λ (x : Db). x.bids) n.tables;
  sequences = ap (λ (x : Db). x.sequences) n.tables;
}

-- What holds where it has met the bid's key.
pub record IsDuplicate (bid : BidToPersist) (db : Db) (r : AntiSnipeAppendResult) (db' : Db)
    : Type 0 where
  pub row : Auction
  pub number : ℤ
  pub found : find_auction bid.auction_id db.auctions ≡ some row
  pub present : find_bid bid.auction_id bid.idempotency_key db.bids ≡ some number
  pub answer : r ≡ duplicate number row.effective_close_time row.extension_count
  pub tables : db' ≡ db

-- The extension, the event and the result of finish_new.
finish_new_effect :
    (s : Service) (bid : BidToPersist) (t close : Time) (count : ℕ) (last next n : ℤ) (db : Db)
    {r : AntiSnipeAppendResult} {e : Error} {db' : Db}
    → finish_new s bid t close count last next n db ≡ ok ((r, e), db')
    → let (extended, close', count') =
        extension (returning bid.auction_id t db.auctions) close count in
      (r ≡ record {
        result = record { sequence_number = n; inserted = true };
        extended = extended;
        effective_close_time = close';
        extension_count = count';
      })
      × (db' ≡ record {
        auctions = extend_rows bid.auction_id t db.auctions;
        bids = db.bids;
        sequences = set_matches bid.auction_id next last db.sequences;
        outbox =
            db.outbox ++ outbox_row s.new_id s.now (payload_of bid n t close' extended count') ∷ [];
      })
unfolding finish_new run update_sequence extend_auction insert_outbox insert_bid_accepted_outbox
finish_new_effect s bid t close count last next n db h =
    elim (Option-cases (returning bid.auction_id t db.auctions)) [
      | inl e ↦ ground arith
      | inr (p, e) ↦ ground arith
    ]

-- The INSERT takes effect, as no row has the key.
insert_new_effect :
    (s : Service) (bid : BidToPersist) (t close : Time) (count : ℕ) (last : ℤ) (db : Db)
    (out : (AntiSnipeAppendResult × Error) × Db)
    → find_bid bid.auction_id bid.idempotency_key db.bids ≡ none
    → insert_new s bid t close count last db ≡ ok out
    → let n = add64 last (pos 1) in
      (pos 1 ≤ℤ n)
      × (pos 1 ≤ℤ bid.amount)
      × (has_sequence bid.auction_id n db.bids ≡ false)
      × (finish_new s bid t close count last n n
            (record db { bids = db.bids ++ bid_row bid n ∷ [] })
          ≡ ok out)
unfolding insert_new run insert_bid_on_conflict
insert_new_effect s bid t close count last db out fresh h = ground arith

-- The counter is there after the first INSERT, and holds what it held, or 0.
append_new_effect :
    (s : Service) (bid : BidToPersist) (t close : Time) (count : ℕ) (db : Db)
    (out : (AntiSnipeAppendResult × Error) × Db)
    → append_new s bid t close count db ≡ ok out
    → (t <ℤ close)
      × (insert_new s bid t close count
            (last_seq_of bid.auction_id db)
            (record db { sequences = ensured bid.auction_id db.sequences })
          ≡ ok out)
unfolding append_new run insert_sequence select_sequence ensured last_seq_of
append_new_effect s bid t close count db out h =
    elim (Option-cases (find_sequence bid.auction_id db.sequences)) [
      | inl e ↦ ground (arith, find_sequence-append bid.auction_id db.sequences e)
      | inr (n, e) ↦ ground arith
    ]

append_new-IsNew :
    (s : Service) (bid : BidToPersist) (t : Time) (db : Db) (row : Auction)
    (r : AntiSnipeAppendResult) (e : Error) (db' : Db)
    → find_auction bid.auction_id db.auctions ≡ some row
    → find_bid bid.auction_id bid.idempotency_key db.bids ≡ none
    → append_new s bid t row.effective_close_time row.extension_count db ≡ ok ((r, e), db')
    → IsNew s bid t db r db'
unfolding new_result new_db
append_new-IsNew s bid t db row r e db' found fresh h =
    let out : (AntiSnipeAppendResult × Error) × Db = ((r, e), db') in
    let close = row.effective_close_time in
    let (in_time, inserting) = append_new_effect s bid t close row.extension_count db out h in
    let (number, amount, unused, finishing) =
      insert_new_effect s bid t close row.extension_count _ _ out fresh inserting in
    let (answer, tables) = finish_new_effect s bid t close row.extension_count _ _ _ _ finishing in
    record {
      row = row;
      found = found;
      fresh = fresh;
      in_time = in_time;
      positive_number = number;
      positive_amount = amount;
      unused = unused;
      answer = answer;
      tables = tables ∙ rw answer;
    }

append_body_effect :
    (s : Service) (bid : BidToPersist) (t : Time) (db : Db) (r : AntiSnipeAppendResult) (e : Error)
    (db' : Db)
    → append_body s bid t db ≡ ok ((r, e), db')
    → IsDuplicate bid db r db' ⊎ IsNew s bid t db r db'
unfolding append_body run select_auction select_bid
append_body_effect s bid t db r e db' h =
    elim (Option-cases (find_auction bid.auction_id db.auctions)) [
      | inl missing ↦ absurd (ground arith)
      | inr (row, found) ↦
          elim (Option-cases (find_bid bid.auction_id bid.idempotency_key db.bids)) [
            | inl fresh ↦ inr (append_new-IsNew s bid t db row r e db' found fresh (ground arith))
            | inr (n, present) ↦ inl (record {
              row = row;
              number = n;
              found = found;
              present = present;
              answer = ground arith;
              tables = ground arith;
            })
          ]
    ]

-- How a call can end: with a result, for a bid that it met or inserted; or with an error, and
-- then the tables are as they were, or the answer to a commit of the new bid was lost.
abbrev pub Effect : Service → BidToPersist → Time → Db → Result AntiSnipeAppendResult × Db → Type 0
Effect s bid t db (ok r, db') = IsDuplicate bid db r db' ⊎ IsNew s bid t db r db'
Effect s bid t db (err e, db') =
    (db' ≡ db) ⊎ ((s.commit ≡ lost) × ((r : AntiSnipeAppendResult) × IsNew s bid t db r db'))

end_tx-Effect :
    (s : Service) (bid : BidToPersist) (t : Time) (db : Db) (c : CommitOutcome)
    (r : AntiSnipeAppendResult) (e : Error) (db' : Db)
    → s.commit ≡ c
    → IsDuplicate bid db r db' ⊎ IsNew s bid t db r db'
    → Effect s bid t db (end_tx c db db' r e)
end_tx-Effect s bid t db committed r e db' ec effect = effect
end_tx-Effect s bid t db aborted r e db' ec effect = inl refl
end_tx-Effect s bid t db lost r e db' ec (inl d) = inl d.tables
end_tx-Effect s bid t db lost r e db' ec (inr n) = inr (ec, (r, n))

transact-Effect :
    (s : Service) (bid : BidToPersist) (t : Time) (db : Db)
    (x : Result ((AntiSnipeAppendResult × Error) × Db))
    → append_body s bid t db ≡ x
    → Effect s bid t db
        (elim x [ ok ((a, e), db') ↦ end_tx s.commit db db' a e | err e ↦ (err e, db) ])
transact-Effect s bid t db (ok ((r, e), db')) h =
    end_tx-Effect s bid t db s.commit r e db' refl (append_body_effect s bid t db r e db' h)
transact-Effect s bid t db (err e) h = inl refl

-- Whatever calls of the service fail: a result means that the bid was met or inserted as a whole,
-- an error that nothing was changed, unless a commit of the whole insertion was not confirmed.
pub append-Effect :
    (s : Service) (bid : BidToPersist) (t : Time) (db : Db)
    → Effect s bid t db (append_bid_idempotent_with_anti_snipe s bid t db)
unfolding append_bid_idempotent_with_anti_snipe
append-Effect s bid t db = elim (Bool-cases (is_zero t)) [
  | inl e ↦ rw e (inl refl)
  | inr e ↦ elim (Bool-cases (s.fails begin)) [
    | inl b ↦ rw (e, b) (inl refl)
    | inr b ↦ rw (e, b) (transact-Effect s bid t db (append_body s bid t db) refl)
  ]
]
