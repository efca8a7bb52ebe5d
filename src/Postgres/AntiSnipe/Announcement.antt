-- ===== src/Postgres/AntiSnipe/Announcement.antt =====
-- The transactional outbox: every bid inserted with anti-sniping is announced by one event, in the
-- same transaction.
use bid_lane.Prelude.{
  ◌≡◌, inl, inr, ◌∷◌, [], ◌++◌, List, Bool, true, ◌&&◌, ◌==◌, arith, text_eq, text_eq_refl,
  if◌then◌else◌,
}
use bid_lane.Go.Time.{Time}
use bid_lane.Postgres.Schema.{Uuid, Bid, OutboxRow, Db}
use bid_lane.Postgres.Statements.{BidToPersist, outbox_row, bid_accepted}
use bid_lane.Postgres.Transaction.{Service, Result, ok, err}
use bid_lane.Postgres.AntiSnipe.{AntiSnipeAppendResult, append_bid_idempotent_with_anti_snipe}
use bid_lane.Postgres.AntiSnipe.Effects.{IsNew, Effect, append-Effect, new_db, payload_for}

-- What an event says of a bid, and what its row in the ledger says.
abbrev pub announced_bid : OutboxRow → Bid
announced_bid o = record {
  auction_id = o.aggregate_id;
  sequence_no = o.aggregate_sequence;
  amount = o.payload.amount;
  bidder_id = o.payload.bidder_id;
  idempotency_key = o.payload.idempotency_key;
  stream_entry_id = o.payload.stream_entry_id;
}

-- The bids of an auction, and those that its BidAccepted events announce, each in order.
unfoldable pub bids_of : Uuid → List Bid → List Bid
bids_of a [] = []
bids_of a (r ∷ rows) = let rest = bids_of a rows in if r.auction_id == a then r ∷ rest else rest

is_event_of : Uuid → OutboxRow → Bool
is_event_of a o = text_eq o.event_type bid_accepted && o.aggregate_id == a

unfoldable pub announced : Uuid → List OutboxRow → List Bid
unfolding is_event_of
announced a [] = []
announced a (o ∷ rows) =
    let rest = announced a rows in if is_event_of a o then announced_bid o ∷ rest else rest

-- The events of an auction announce its bids, one for one and in the order of their numbers.
abbrev pub IsAnnounced : Uuid → Db → Type 0
IsAnnounced a db = announced a db.outbox ≡ bids_of a db.bids

bids_of-append :
    (a : Uuid) (rows : List Bid) (r : Bid)
    → bids_of a (rows ++ r ∷ [])
      ≡ (if r.auction_id == a then bids_of a rows ++ r ∷ [] else bids_of a rows)
unfolding bids_of
bids_of-append a [] r = ground arith
bids_of-append a (q ∷ rows) r = ground (arith, bids_of-append a rows r)

announced-append :
    (a : Uuid) (rows : List OutboxRow) (o : OutboxRow)
    → text_eq o.event_type bid_accepted ≡ true
    → announced a (rows ++ o ∷ [])
      ≡ (if o.aggregate_id == a then announced a rows ++ announced_bid o ∷ [] else announced a rows)
unfolding announced
announced-append a [] o e = ground arith
announced-append a (q ∷ rows) o e = ground (arith, announced-append a rows o e)

new-IsAnnounced :
    (a : Uuid) (s : Service) (bid : BidToPersist) (t : Time) (db db' : Db)
    (r : AntiSnipeAppendResult)
    → IsNew s bid t db r db'
    → IsAnnounced a db
    → IsAnnounced a db'
unfolding new_db payload_for
new-IsAnnounced a s bid t db db' r n h =
    let event = outbox_row s.new_id s.now (payload_for bid t db r) in
    rw (n.tables, announced-append a db.outbox event (text_eq_refl bid_accepted), bids_of-append, h)

Effect-IsAnnounced :
    (a : Uuid) (s : Service) (bid : BidToPersist) (t : Time) (db : Db)
    (x : Result AntiSnipeAppendResult × Db)
    → Effect s bid t db x
    → IsAnnounced a db
    → IsAnnounced a x.1
Effect-IsAnnounced a s bid t db (ok r, db') (inl d) h = rw d.tables h
Effect-IsAnnounced a s bid t db (ok r, db') (inr n) h = new-IsAnnounced a s bid t db db' r n h
Effect-IsAnnounced a s bid t db (err e, db') (inl same) h = rw same h
Effect-IsAnnounced a s bid t db (err e, db') (inr (_, (r, n))) h =
    new-IsAnnounced a s bid t db db' r n h

-- However a call with anti-sniping ends, the BidAccepted events of each auction still announce its
-- bids, one for one, in order, with number, amount, bidder, key and stream entry.
pub append-IsAnnounced :
    (a : Uuid) (s : Service) (bid : BidToPersist) (t : Time) (db : Db)
    → IsAnnounced a db
    → IsAnnounced a (append_bid_idempotent_with_anti_snipe s bid t db).1
append-IsAnnounced a s bid t db h = Effect-IsAnnounced a s bid t db _ (append-Effect s bid t db) h
