-- ===== src/Postgres/AuctionLog/Simulation.antt =====
-- Any number of submissions to an auction: the tables follow the log.
use bid_lane.Prelude.{
  ℕ, suc, ◌+◌, ◌<◌, ◌≤◌, ◌^◌, sym, subst, ◌≡◌, ◌≢◌, inl, inr, [], ◌∷◌, List, length, length-append,
  Option, none, some, false, not, arith, if_elim,
}
use bid_lane.Prelude.Int.{pos, ◌≤ℤ◌}
use bid_lane.Go.Time.{Time, zero_time, before}
use bid_lane.Postgres.Schema.{Uuid, Db}
use bid_lane.Postgres.Statements.{BidToPersist, has_id}
use bid_lane.Postgres.Transaction.{Service, Result, ok, err}
use bid_lane.Postgres.History.{anti_snipe, apply}
use bid_lane.Postgres.History.Ledger.{apply-LedgerStep, step-IsLedger}
use bid_lane.Postgres.AntiSnipe.{AntiSnipeAppendResult, append_bid_idempotent_with_anti_snipe}
use bid_lane.Postgres.AntiSnipe.Effects.{IsNew, Effect, append-Effect, new_db}
use bid_lane.Postgres.AntiSnipe.Retry.{IsQuiet}
use bid_lane.Postgres.AntiSnipe.Accept.{HasCounterKey}
use bid_lane.Postgres.AntiSnipe.Extension.{HasPrimaryKey}
use bid_lane.Postgres.AntiSnipe.Announcement.{append-IsAnnounced}
use bid_lane.Postgres.AuctionLog.Keys.{
  extend_rows-HasPrimaryKey, set_matches-HasCounterKey, ensured-HasCounterKey,
}
use bid_lane.Postgres.AuctionLog.{AuctionLog, Verdict, place, verdict_on, submit}
use bid_lane.Postgres.AuctionLog.Refinement.{Views, IsSound, Answers, Implements, append-Implements}

-- A submission without faults, on tables that do not have its event's id yet.
pub record IsFaultFree (a : Uuid) (s : Service) (bid : BidToPersist) (t : Time) (db : Db)
    : Type 0 where
  pub own : bid.auction_id ≡ a
  pub quiet : IsQuiet s
  pub nonzero : t ≢ zero_time
  pub amount : pos 1 ≤ℤ bid.amount
  pub new_id : has_id s.new_id db.outbox ≡ false

-- The keys of the tables behind a call, however it goes.
new-Keys :
    {s : Service} {bid : BidToPersist} {t : Time} {db db' : Db} {r : AntiSnipeAppendResult}
    → IsNew s bid t db r db'
    → HasPrimaryKey db.auctions
    → HasCounterKey db.sequences
    → HasPrimaryKey db'.auctions × HasCounterKey db'.sequences
unfolding new_db
new-Keys {bid} {t} {db} n k c = rw n.tables (
  extend_rows-HasPrimaryKey bid.auction_id t db.auctions k,
  set_matches-HasCounterKey bid.auction_id _ _ _
      (ensured-HasCounterKey bid.auction_id db.sequences c),
)

same-Keys :
    (db db' : Db)
    → db' ≡ db
    → HasPrimaryKey db.auctions
    → HasCounterKey db.sequences
    → HasPrimaryKey db'.auctions × HasCounterKey db'.sequences
same-Keys db db' e k c = rw e (k, c)

Effect-Keys :
    (s : Service) (bid : BidToPersist) (t : Time) (db : Db) (x : Result AntiSnipeAppendResult × Db)
    → Effect s bid t db x
    → HasPrimaryKey db.auctions
    → HasCounterKey db.sequences
    → HasPrimaryKey x.1.auctions × HasCounterKey x.1.sequences
Effect-Keys s bid t db (ok r, db') (inl d) k c = same-Keys db db' d.tables k c
Effect-Keys s bid t db (ok r, db') (inr n) k c = new-Keys n k c
Effect-Keys s bid t db (err e, db') (inl same) k c = same-Keys db db' same k c
Effect-Keys s bid t db (err e, db') (inr (_, (r, n))) k c = new-Keys n k c

append-IsSound :
    (a : Uuid) (s : Service) (bid : BidToPersist) (t : Time) (db : Db)
    → IsSound a db
    → IsSound a (append_bid_idempotent_with_anti_snipe s bid t db).1
unfolding apply
append-IsSound a s bid t db h =
    let (k, c) = Effect-Keys s bid t db _ (append-Effect s bid t db) h.auctions h.counters in
    record {
      ledger = step-IsLedger a db _ (apply-LedgerStep (anti_snipe s bid t) db) h.ledger;
      announced = append-IsAnnounced a s bid t db h.announced;
      auctions = k;
      counters = c;
    }

-- The submissions in their order: to the log, and to the tables.
unfoldable pub submit_all : List (BidToPersist × Time) → AuctionLog → List Verdict × AuctionLog
submit_all [] log = ([], log)
submit_all ((bid, t) ∷ bids) log =
    let x = submit bid t log in let rest = submit_all bids x.1 in (x.0 ∷ rest.0, rest.1)

abbrev pub Submission : Type 0
Submission = Service × BidToPersist × Time

abbrev pub bids_of_calls : List Submission → List (BidToPersist × Time)
bids_of_calls [] = []
bids_of_calls ((s, bid, t) ∷ calls) = (bid, t) ∷ bids_of_calls calls

unfoldable pub append_all : List Submission → Db → List (Result AntiSnipeAppendResult) × Db
append_all [] db = ([], db)
append_all ((s, bid, t) ∷ calls) db =
    let x = append_bid_idempotent_with_anti_snipe s bid t db in
    let rest = append_all calls x.1 in (x.0 ∷ rest.0, rest.1)

abbrev pub AllFaultFree : Uuid → List Submission → Db → Type 0
AllFaultFree a [] db = Unit
AllFaultFree a ((s, bid, t) ∷ calls) db =
    IsFaultFree a s bid t db
    × AllFaultFree a calls (append_bid_idempotent_with_anti_snipe s bid t db).1

abbrev pub AllAnswer : List Verdict → List (Result AntiSnipeAppendResult) → Type 0
AllAnswer [] [] = Unit
AllAnswer [] (_ ∷ _) = ⊥
AllAnswer (_ ∷ _) [] = ⊥
AllAnswer (v ∷ vs) (x ∷ xs) = Answers v x × AllAnswer vs xs

-- A submission adds one entry at most.
verdict_on-length :
    (o : Option ℕ) (bid : BidToPersist) (t : Time) (log : AuctionLog)
    → length (verdict_on o bid t log).1.entries ≤ length log.entries + 1
verdict_on-length (some n) bid t log = omega arith
verdict_on-length none bid t log =
    if_elim (λ (x : Verdict × AuctionLog). length x.1.entries ≤ length log.entries + 1)
      (not (before t log.row.effective_close_time)) _ _ (omega arith)
      (omega (arith, length-append {0} log.entries _))

submit-length :
    (bid : BidToPersist) (t : Time) (log : AuctionLog)
    → length (submit bid t log).1.entries ≤ length log.entries + 1
unfolding submit
submit-length bid t log = verdict_on-length (place bid.idempotency_key log.entries) bid t log

one_call :
    (a : Uuid) (s : Service) (bid : BidToPersist) (t : Time) (db : Db) (log : AuctionLog)
    → IsFaultFree a s bid t db
    → IsSound a db
    → Views a db log
    → suc (length log.entries) < 2 ^ 63
    → Implements a (submit bid t log) (append_bid_idempotent_with_anti_snipe s bid t db)
one_call a s bid t db log f sound view room =
    let back = sym f.own in
    subst (λ x. Implements x (submit bid t log) (append_bid_idempotent_with_anti_snipe s bid t db))
      f.own
      (append-Implements s f.quiet bid t db log f.nonzero (subst (λ x. IsSound x db) back sound)
        (subst (λ x. Views x db log) back view) room f.amount f.new_id)

-- Submissions to one auction without faults, fewer than an int64 counts, refine the abstract log
-- of its accepted bids, on tables that have that log and the ledger in order: the transactions of
-- AppendBidIdempotentWithAntiSnipe return the verdicts of the log (placed at the next place, met
-- at its place, or too late), one for one, and the tables hold the log that they leave.
pub append_all-Implements :
    (a : Uuid) (calls : List Submission) (db : Db) (log : AuctionLog)
    → AllFaultFree a calls db
    → IsSound a db
    → Views a db log
    → length log.entries + length calls < 2 ^ 63
    → let (verdicts, log') = submit_all (bids_of_calls calls) log in
      let (results, db') = append_all calls db in AllAnswer verdicts results × Views a db' log'
unfolding submit_all append_all
append_all-Implements a [] db log f sound view room = (tt, view)
append_all-Implements a ((s, bid, t) ∷ calls) db log f sound view room =
    let (answer, view') = one_call a s bid t db log f.0 sound view (omega (arith, room)) in
    let (answers, views) =
      append_all-Implements a calls _ (submit bid t log).1 f.1 (append-IsSound a s bid t db sound)
        view' (omega (arith, room, submit-length bid t log)) in
    ((answer, answers), views)
