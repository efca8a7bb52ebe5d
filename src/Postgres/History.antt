-- ===== src/Postgres/History.antt =====
-- Histories: any number of calls of the two idempotent append functions, one transaction behind
-- the other, with whatever the service does in each. The row locks of the statements (`FOR UPDATE`
-- on the auction and on its counter) put the transactions of an auction in such an order.
pub mod Ledger
pub mod Auctions
use bid_lane.Prelude.{List, [], ◌∷◌}
use bid_lane.Go.Time.{Time}
use bid_lane.Postgres.Schema.{Db}
use bid_lane.Postgres.Statements.{BidToPersist}
use bid_lane.Postgres.Transaction.{Service}
use bid_lane.Postgres.RowLock.{append_bid_idempotent_row_lock}
use bid_lane.Postgres.AntiSnipe.{append_bid_idempotent_with_anti_snipe}

pub data Operation : Type 0 where
  row_lock : Service → BidToPersist → Operation
  anti_snipe : Service → BidToPersist → Time → Operation

unfoldable pub apply : Operation → Db → Db
apply (row_lock s bid) db = (append_bid_idempotent_row_lock s bid db).1
apply (anti_snipe s bid t) db = (append_bid_idempotent_with_anti_snipe s bid t db).1

unfoldable pub history : List Operation → Db → Db
unfolding apply
history [] db = db
history (o ∷ os) db = history os (apply o db)
