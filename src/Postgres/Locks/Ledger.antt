-- ===== src/Postgres/Locks/Ledger.antt =====
-- The ledger of an auction under concurrent calls.
use bid_lane.Prelude.{sym, subst, ◌∷◌, [], List}
use bid_lane.Postgres.Schema.{Uuid, Db}
use bid_lane.Postgres.Numbering.Invariant.{IsLedger}
use bid_lane.Postgres.History.{anti_snipe, apply}
use bid_lane.Postgres.History.Ledger.{apply-LedgerStep, step-IsLedger}
use bid_lane.Postgres.AuctionLog.Simulation.{Submission, append_all}
use bid_lane.Postgres.Isolation.Views.{restrict-IsLedger, unrestrict-IsLedger}
use bid_lane.Postgres.Locks.{Server, Reach}
use bid_lane.Postgres.Locks.Serial.{Reach-IsSerial}

append_all-IsLedger :
    (a : Uuid) (calls : List Submission) (db : Db)
    → IsLedger a db
    → IsLedger a (append_all calls db).1
unfolding append_all apply
append_all-IsLedger a [] db l = l
append_all-IsLedger a ((s, bid, t) ∷ calls) db l =
    append_all-IsLedger a calls _
      (step-IsLedger a db _ (apply-LedgerStep (anti_snipe s bid t) db) l)

-- However calls of AppendBidIdempotentWithAntiSnipe overlap and whatever fails in them, the bids of an
-- auction stay numbered without gaps in the order of insertion, with distinct keys.
pub Reach-IsLedger :
    (a : Uuid) (tables : Db) (ended : List Submission) (srv : Server)
    → Reach tables ended srv
    → IsLedger a tables
    → IsLedger a srv.tables
Reach-IsLedger a tables ended srv r l = unrestrict-IsLedger a srv.tables (
    subst (IsLedger a) (sym ((Reach-IsSerial r).rows a))
      (restrict-IsLedger a _ (append_all-IsLedger a ended tables l)))
