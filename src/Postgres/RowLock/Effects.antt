-- ===== src/Postgres/RowLock/Effects.antt =====
-- What a transaction of AppendBidIdempotentRowLock has done to the tables.
use bid_lane.Prelude.{
  refl, ap, ◌≡◌, ◌⊎◌, inl, inr, ◌∷◌, [], ◌++◌, none, some, true, false, arith, Option-cases,
  Bool-cases,
}
use bid_lane.Prelude.Int.{ℤ, pos, ◌≤ℤ◌}
use bid_lane.Go.Int64.{add64}
use bid_lane.Postgres.Schema.{Db, find_sequence, find_bid}
use bid_lane.Postgres.Statements.{
  BidToPersist, bid_row, select_bid, insert_sequence, select_sequence, insert_bid_on_conflict,
  update_sequence, set_matches,
}
use bid_lane.Postgres.Numbering.{ensured, last_seq_of, next_seq, Inserts}
use bid_lane.Postgres.Numbering.Counter.{find_sequence-append}
use bid_lane.Postgres.Transaction.{
  Service, Error, Result, ok, err, run, CommitOutcome, lost, committed, aborted, end_tx, begin,
}
use bid_lane.Postgres.RowLock.{
  AppendBidResult, advance, observe, insert_locked, row_lock_body, append_bid_idempotent_row_lock,
}

-- A new bid: the ledger gets its row, and no other table but the counters changes.
pub record IsAppended (bid : BidToPersist) (db : Db) (r : AppendBidResult) (db' : Db) : Type 0 where
  pub inserts : Inserts bid db db'
  pub answer : r ≡ record { sequence_number = next_seq bid.auction_id db; inserted = true }
  pub auctions : db'.auctions ≡ db.auctions
  pub outbox : db'.outbox ≡ db.outbox

-- A bid whose key was met: the ledger stays, with at most a counter of 0 for a new auction.
pub record IsObserved (bid : BidToPersist) (db : Db) (r : AppendBidResult) (db' : Db) : Type 0 where
  pub number : ℤ
  pub present : find_bid bid.auction_id bid.idempotency_key db.bids ≡ some number
  pub answer : r ≡ record { sequence_number = number; inserted = false }
  pub tables : db' ≡ record db { sequences = ensured bid.auction_id db.sequences }

advance_effect :
    (s : Service) (bid : BidToPersist) (last next n : ℤ) (db : Db) (r : AppendBidResult) (e : Error)
    (db' : Db)
    → advance s bid last next n db ≡ ok ((r, e), db')
    → (r ≡ record { sequence_number = n; inserted = true })
      × (db' ≡ record db { sequences = set_matches bid.auction_id next last db.sequences })
unfolding advance run update_sequence
advance_effect s bid last next n db r e db' h = ground arith

locked_effect :
    (s : Service) (bid : BidToPersist) (db : Db) (out : (AppendBidResult × Error) × Db)
    → row_lock_body s bid db ≡ ok out
    → insert_locked s bid
        (last_seq_of bid.auction_id db)
        (record db { sequences = ensured bid.auction_id db.sequences })
      ≡ ok out
unfolding row_lock_body run insert_sequence select_sequence ensured last_seq_of
locked_effect s bid db out h = elim (Option-cases (find_sequence bid.auction_id db.sequences)) [
  | inl e ↦ ground (arith, find_sequence-append bid.auction_id db.sequences e)
  | inr (n, e) ↦ ground arith
]

fresh_effect :
    (s : Service) (bid : BidToPersist) (last : ℤ) (db : Db) (out : (AppendBidResult × Error) × Db)
    → find_bid bid.auction_id bid.idempotency_key db.bids ≡ none
    → insert_locked s bid last db ≡ ok out
    → let n = add64 last (pos 1) in
      (pos 1 ≤ℤ n)
      × (pos 1 ≤ℤ bid.amount)
      × (advance s bid last n n (record db { bids = db.bids ++ bid_row bid n ∷ [] }) ≡ ok out)
unfolding insert_locked run insert_bid_on_conflict
fresh_effect s bid last db out fresh h = ground arith

met_effect :
    (s : Service) (bid : BidToPersist) (last number : ℤ) (db : Db) (r : AppendBidResult) (e : Error)
    (db' : Db)
    → find_bid bid.auction_id bid.idempotency_key db.bids ≡ some number
    → insert_locked s bid last db ≡ ok ((r, e), db')
    → (r ≡ record { sequence_number = number; inserted = false }) × (db' ≡ db)
unfolding insert_locked observe run insert_bid_on_conflict select_bid
met_effect s bid last number db r e db' met h = ground arith

row_lock_body_effect :
    (s : Service) (bid : BidToPersist) (db : Db) (r : AppendBidResult) (e : Error) (db' : Db)
    → row_lock_body s bid db ≡ ok ((r, e), db')
    → IsObserved bid db r db' ⊎ IsAppended bid db r db'
unfolding next_seq
row_lock_body_effect s bid db r e db' h =
    let out : (AppendBidResult × Error) × Db = ((r, e), db') in
    let locked = locked_effect s bid db out h in
    elim (Option-cases (find_bid bid.auction_id bid.idempotency_key db.bids)) [
      | inl fresh ↦
          let (number, amount, advancing) = fresh_effect s bid _ _ out fresh locked in
          let (answer, tables) = advance_effect s bid _ _ _ _ r e db' advancing in
          inr (record {
            inserts = record {
              fresh = fresh;
              positive_number = number;
              positive_amount = amount;
              bids = ap (λ (x : Db). x.bids) tables;
              sequences = ap (λ (x : Db). x.sequences) tables;
            };
            answer = answer;
            auctions = ap (λ (x : Db). x.auctions) tables;
            outbox = ap (λ (x : Db). x.outbox) tables;
          })
      | inr (n, present) ↦
          let (answer, tables) = met_effect s bid _ n _ r e db' present locked in
          inl (record { number = n; present = present; answer = answer; tables = tables })
    ]

-- How a call can end: as with anti-sniping, but that an unconfirmed commit of a bid that was met
-- may have left the auction a counter of 0.
abbrev pub Effect : Service → BidToPersist → Db → Result AppendBidResult × Db → Type 0
Effect s bid db (ok r, db') = IsObserved bid db r db' ⊎ IsAppended bid db r db'
Effect s bid db (err e, db') =
    (db' ≡ db)
    ⊎ ((s.commit ≡ lost)
        × ((r : AppendBidResult) × (IsObserved bid db r db' ⊎ IsAppended bid db r db')))

end_tx-Effect :
    (s : Service) (bid : BidToPersist) (db : Db) (c : CommitOutcome) (r : AppendBidResult)
    (e : Error) (db' : Db)
    → s.commit ≡ c
    → IsObserved bid db r db' ⊎ IsAppended bid db r db'
    → Effect s bid db (end_tx c db db' r e)
end_tx-Effect s bid db committed r e db' ec effect = effect
end_tx-Effect s bid db aborted r e db' ec effect = inl refl
end_tx-Effect s bid db lost r e db' ec effect = inr (ec, (r, effect))

transact-Effect :
    (s : Service) (bid : BidToPersist) (db : Db) (x : Result ((AppendBidResult × Error) × Db))
    → row_lock_body s bid db ≡ x
    → Effect s bid db
        (elim x [ ok ((a, e), db') ↦ end_tx s.commit db db' a e | err e ↦ (err e, db) ])
transact-Effect s bid db (ok ((r, e), db')) h =
    end_tx-Effect s bid db s.commit r e db' refl (row_lock_body_effect s bid db r e db' h)
transact-Effect s bid db (err e) h = inl refl

-- Whatever calls of the service fail: a result means that the bid was met or inserted as a whole,
-- an error that nothing was changed, unless the answer to the commit was lost.
pub row_lock-Effect :
    (s : Service) (bid : BidToPersist) (db : Db)
    → Effect s bid db (append_bid_idempotent_row_lock s bid db)
unfolding append_bid_idempotent_row_lock
row_lock-Effect s bid db = elim (Bool-cases (s.fails begin)) [
  | inl b ↦ rw b (inl refl)
  | inr b ↦ rw b (transact-Effect s bid db (row_lock_body s bid db) refl)
]
