-- ===== src/Postgres/AntiSnipe/Retry.antt =====
-- A logical bid is recorded once, however often it is submitted and however its calls end.
use bid_lane.Prelude.{
  subst, sym, ◌∙◌, ◌≡◌, ◌⊎◌, inl, inr, ◌∷◌, [], ◌++◌, none, some, List, false, arith,
}
use bid_lane.Prelude.Int.{ℤ}
use bid_lane.Go.Time.{Time, zero_time}
use bid_lane.Prelude.Int.{eqb_ℤ_iff}
use bid_lane.Prelude.{◌≢◌}
use bid_lane.Postgres.Schema.{Auction, Bid, Db, find_auction, find_bid}
use bid_lane.Postgres.Statements.{BidToPersist, bid_row, select_auction, select_bid}
use bid_lane.Postgres.Transaction.{Service, Call, committed, ok, run}
use bid_lane.Postgres.AntiSnipe.{
  AntiSnipeAppendResult, duplicate, append_body, append_bid_idempotent_with_anti_snipe,
}
use bid_lane.Postgres.AntiSnipe.Effects.{
  IsNew, IsDuplicate, Effect, append-Effect, new_result, new_db,
}

find_bid-append :
    (bid : BidToPersist) (n : ℤ) (rows : List Bid)
    → find_bid bid.auction_id bid.idempotency_key rows ≡ none
    → find_bid bid.auction_id bid.idempotency_key (rows ++ bid_row bid n ∷ []) ≡ some n
unfolding find_bid
find_bid-append bid n [] e = ground arith
find_bid-append bid n (r ∷ rows) e = ground (arith, find_bid-append bid n rows)

-- After a call that returned a result the bid is on record under the number returned.
pub recorded :
    (s : Service) (bid : BidToPersist) (t : Time) (db db' : Db) (r : AntiSnipeAppendResult)
    → IsDuplicate bid db r db' ⊎ IsNew s bid t db r db'
    → find_bid bid.auction_id bid.idempotency_key db'.bids ≡ some r.result.sequence_number
unfolding new_result new_db
recorded s bid t db db' r (inl d) = rw (d.tables, d.answer) d.present
recorded s bid t db db' r (inr n) = rw (n.tables, n.answer) (find_bid-append bid _ db.bids n.fresh)

-- A bid that is on record is answered by its number, and nothing changes.
repeated :
    (s : Service) (bid : BidToPersist) (t : Time) (n : ℤ) (db db' : Db) (r : AntiSnipeAppendResult)
    → find_bid bid.auction_id bid.idempotency_key db.bids ≡ some n
    → IsDuplicate bid db r db' ⊎ IsNew s bid t db r db'
    → (r.result ≡ record { sequence_number = n; inserted = false })
      × (r.extended ≡ false)
      × (db' ≡ db)
repeated s bid t n db db' r e (inl d) =
    let same : d.number ≡ n = cc (sym d.present ∙ e) in (rw (d.answer, same), rw d.answer, d.tables)
repeated s bid t n db db' r e (inr i) = cc (sym i.fresh ∙ e)

-- If a call returned a result, then a later call for the same bid that returns a result returns
-- the same number, says that it inserted and extended nothing, and changes nothing.
pub retry_agrees :
    (s s' : Service) (bid : BidToPersist) (t t' : Time) (db db' db'' : Db)
    (r r' : AntiSnipeAppendResult)
    → append_bid_idempotent_with_anti_snipe s bid t db ≡ (ok r, db')
    → append_bid_idempotent_with_anti_snipe s' bid t' db' ≡ (ok r', db'')
    → (r'.result ≡ record { sequence_number = r.result.sequence_number; inserted = false })
      × (r'.extended ≡ false)
      × (db'' ≡ db')
retry_agrees s s' bid t t' db db' db'' r r' first second =
    repeated s' bid t' r.result.sequence_number db' db'' r'
      (recorded s bid t db db' r (subst (Effect s bid t db) first (append-Effect s bid t db)))
      (subst (Effect s' bid t' db') second (append-Effect s' bid t' db'))

-- Nothing fails in the calls of a transaction, and its commit is confirmed.
pub record IsQuiet (s : Service) : Type 0 where
  pub calls : (c : Call) → s.fails c ≡ false
  pub commits : s.commit ≡ committed

-- If nothing fails, a bid that is on record is answered by its number, with the auction's close time
-- and extension count and no change, also after the auction has closed.
pub replay_answers :
    (s : Service) (bid : BidToPersist) (t : Time) (db : Db) (row : Auction) (n : ℤ)
    → IsQuiet s
    → t ≢ zero_time
    → find_auction bid.auction_id db.auctions ≡ some row
    → find_bid bid.auction_id bid.idempotency_key db.bids ≡ some n
    → append_bid_idempotent_with_anti_snipe s bid t db
      ≡ (ok (duplicate n row.effective_close_time row.extension_count), db)
unfolding append_bid_idempotent_with_anti_snipe append_body run select_auction select_bid
replay_answers s bid t db row n q nonzero found present = ground (
  arith,
  q.commits,
  q.calls Call.begin,
  q.calls Call.lock_auction,
  q.calls Call.check_existing,
  eqb_ℤ_iff t zero_time,
)
