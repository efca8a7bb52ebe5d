-- ===== src/Postgres/History/Ledger.antt =====
-- The ledger over a history: numbered without gaps, append-only, one row for each logical bid.
use bid_lane.Prelude.{
  ap, sym, ◌∙◌, ◌≡◌, ◌⊎◌, inl, inr, ◌∷◌, [], ◌++◌, append_assoc, append-nil, List,
}
use bid_lane.Go.Time.{Time}
use bid_lane.Postgres.Schema.{Uuid, Bid, Db}
use bid_lane.Postgres.Statements.{BidToPersist}
use bid_lane.Postgres.Transaction.{Service, Result, ok, err}
use bid_lane.Postgres.Numbering.{last_seq_of, Inserts}
use bid_lane.Postgres.Numbering.Counter.{last_seq-ensured}
use bid_lane.Postgres.Numbering.Invariant.{IsLedger, Inserts-IsLedger}
use bid_lane.Postgres.RowLock.{AppendBidResult}
use bid_lane.Postgres.RowLock.Effects as RowLock
use bid_lane.Postgres.AntiSnipe.{AntiSnipeAppendResult}
use bid_lane.Postgres.AntiSnipe.Effects as AntiSnipe
use bid_lane.Postgres.History.{Operation, row_lock, anti_snipe, apply, history}

-- What a call does to the ledger: an insertion, or nothing that the ledger shows.
pub data LedgerStep (db db' : Db) : Type 0 where
  inserts : (bid : BidToPersist) → Inserts bid db db' → LedgerStep db db'
  keeps :
      db'.bids ≡ db.bids → ((a : Uuid) → last_seq_of a db' ≡ last_seq_of a db) → LedgerStep db db'

same : (db db' : Db) → db' ≡ db → LedgerStep db db'
same db db' e = keeps (ap (λ (x : Db). x.bids) e) (λ a. ap (last_seq_of a) e)

anti_snipe_step :
    (s : Service) (bid : BidToPersist) (t : Time) (db : Db) (x : Result AntiSnipeAppendResult × Db)
    → AntiSnipe.Effect s bid t db x
    → LedgerStep db x.1
anti_snipe_step s bid t db (ok r, db') (inl d) = same db db' d.tables
anti_snipe_step s bid t db (ok r, db') (inr n) = inserts bid (AntiSnipe.IsNew-Inserts n)
anti_snipe_step s bid t db (err e, db') (inl unchanged) = same db db' unchanged
anti_snipe_step s bid t db (err e, db') (inr (_, (r, n))) = inserts bid (AntiSnipe.IsNew-Inserts n)

row_lock_ok :
    (bid : BidToPersist) (db db' : Db) (r : AppendBidResult)
    → RowLock.IsObserved bid db r db' ⊎ RowLock.IsAppended bid db r db'
    → LedgerStep db db'
row_lock_ok bid db db' r (inl o) =
    keeps (ap (λ (x : Db). x.bids) o.tables)
      (λ a. ap (last_seq_of a) o.tables ∙ last_seq-ensured a bid.auction_id db)
row_lock_ok bid db db' r (inr i) = inserts bid i.inserts

row_lock_step :
    (s : Service) (bid : BidToPersist) (db : Db) (x : Result AppendBidResult × Db)
    → RowLock.Effect s bid db x
    → LedgerStep db x.1
row_lock_step s bid db (ok r, db') h = row_lock_ok bid db db' r h
row_lock_step s bid db (err e, db') (inl unchanged) = same db db' unchanged
row_lock_step s bid db (err e, db') (inr (_, (r, h))) = row_lock_ok bid db db' r h

-- Every call is a step of the ledger, whatever fails in it.
pub apply-LedgerStep : (o : Operation) (db : Db) → LedgerStep db (apply o db)
unfolding apply
apply-LedgerStep (row_lock s bid) db = row_lock_step s bid db _ (RowLock.row_lock-Effect s bid db)
apply-LedgerStep (anti_snipe s bid t) db =
    anti_snipe_step s bid t db _ (AntiSnipe.append-Effect s bid t db)

pub step-IsLedger : (a : Uuid) (db db' : Db) → LedgerStep db db' → IsLedger a db → IsLedger a db'
step-IsLedger a db db' (inserts bid i) l = Inserts-IsLedger a bid db db' i l
step-IsLedger a db db' (keeps rows counters) l = record {
  total = l.total;
  bounded = l.bounded;
  gap_free = rw rows l.gap_free;
  counter = counters a ∙ l.counter;
  distinct = rw rows l.distinct;
}

-- Whatever calls are made and whatever fails in them, the bids of an auction stay numbered 1, 2, …, n
-- in the order of their insertion, its counter stays at n, and their keys stay distinct.
pub history-IsLedger :
    (a : Uuid) (os : List Operation) (db : Db) → IsLedger a db → IsLedger a (history os db)
unfolding history
history-IsLedger a [] db l = l
history-IsLedger a (o ∷ os) db l =
    history-IsLedger a os (apply o db) (step-IsLedger a db _ (apply-LedgerStep o db) l)

step-append : (db db' : Db) → LedgerStep db db' → (rows : List Bid) × (db'.bids ≡ db.bids ++ rows)
step-append db db' (inserts bid i) = (_, i.bids)
step-append db db' (keeps rows counters) = ([], rows ∙ sym (append-nil db.bids))

-- No call changes or removes a row of the ledger: a history appends rows to it.
pub history-append_only :
    (os : List Operation) (db : Db) → (rows : List Bid) × ((history os db).bids ≡ db.bids ++ rows)
unfolding history
history-append_only [] db = ([], sym (append-nil db.bids))
history-append_only (o ∷ os) db =
    let (rows, e) = step-append db _ (apply-LedgerStep o db) in
    let (more, e') = history-append_only os (apply o db) in
    (rows ++ more, e' ∙ ap (λ (x : List Bid). x ++ more) e ∙ append_assoc db.bids rows more)
