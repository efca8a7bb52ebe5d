-- ===== src/Postgres/Locks/Linear.antt =====
-- Concurrent calls for an auction implement its log.
use bid_lane.Prelude.{
  refl, ap, sym, subst, ◌∙◌, ◌≡◌, ◌≢◌, ◌<◌, ◌+◌, ◌^◌, inl, inr, ◌∷◌, [], ◌++◌, List, length, All,
  Bool-cases, true, false, ◌==◌, ==_iff, ==_refl,
}
use bid_lane.Prelude.Int.{pos, ◌≤ℤ◌}
use bid_lane.Go.Time.{zero_time}
use bid_lane.Postgres.Schema.{Uuid, Db}
use bid_lane.Postgres.Transaction.{Result}
use bid_lane.Postgres.AntiSnipe.{AntiSnipeAppendResult, append_bid_idempotent_with_anti_snipe}
use bid_lane.Postgres.AntiSnipe.Retry.{IsQuiet}
use bid_lane.Postgres.AuctionLog.{AuctionLog}
use bid_lane.Postgres.AuctionLog.Refinement.{Views, IsSound}
use bid_lane.Postgres.AuctionLog.Simulation.{
  Submission, AllAnswer, AllFaultFree, bids_of_calls, submit_all, append_all, append_all-Implements,
}
use bid_lane.Postgres.Isolation.{restrict, has_id-rows_of}
use bid_lane.Postgres.Isolation.Calls.{
  calls_of, results_of, AllNewIds, own_call, append_all-restrict,
}
use bid_lane.Postgres.Isolation.Frame.{append-restrict_other}
use bid_lane.Postgres.Isolation.Views.{restrict-IsSound, restrict-Views, unrestrict-Views}
use bid_lane.Postgres.Locks.{Server, HasNewId, Reach, start, lock, finish}
use bid_lane.Postgres.Locks.Serial.{Reach-IsSerial, has_id_agrees}

-- A call in which nothing fails, with a time and a positive amount.
pub record IsSmooth (c : Submission) : Type 0 where
  pub quiet : IsQuiet c.0
  pub nonzero : c.2 ≢ zero_time
  pub amount : pos 1 ≤ℤ c.1.amount

AllNewIds-snoc :
    (calls : List Submission) (c : Submission) (db : Db)
    → AllNewIds calls db
    → HasNewId c (append_all calls db).1
    → AllNewIds (calls ++ c ∷ []) db
unfolding AllNewIds append_all
AllNewIds-snoc [] c db h new = (new, tt)
AllNewIds-snoc ((s, bid, t) ∷ calls) c db h new = (h.0, AllNewIds-snoc calls c _ h.1 new)

Reach-AllNewIds :
    {tables : Db} {ended : List Submission} {srv : Server}
    → Reach tables ended srv
    → AllNewIds ended tables
unfolding AllNewIds
Reach-AllNewIds start = tt
Reach-AllNewIds (lock c r free) = Reach-AllNewIds r
Reach-AllNewIds {tables} (finish {ended} {srv} a h r held new_seen new_id) =
    AllNewIds-snoc ended h.call tables (Reach-AllNewIds r) (
      has_id_agrees h.call.0.new_id srv.tables (append_all ended tables).1 (Reach-IsSerial r).rows
        new_id)

calls_of-own :
    (a : Uuid) (c : Submission) (calls : List Submission)
    → (c.1.auction_id == a) ≡ true
    → calls_of a (c ∷ calls) ≡ c ∷ calls_of a calls
unfolding calls_of
calls_of-own a (s, bid, t) calls e = rw (calls_of, e) refl

calls_of-other :
    (a : Uuid) (c : Submission) (calls : List Submission)
    → (c.1.auction_id == a) ≡ false
    → calls_of a (c ∷ calls) ≡ calls_of a calls
unfolding calls_of
calls_of-other a (s, bid, t) calls e = rw (calls_of, e) refl

calls_of-AllFaultFree :
    (a : Uuid) (calls : List Submission) (db : Db)
    → AllNewIds calls db
    → All IsSmooth (calls_of a calls)
    → AllFaultFree a (calls_of a calls) (restrict a db)
unfolding AllNewIds
calls_of-AllFaultFree a [] db new smooth = unfold calls_of in tt
calls_of-AllFaultFree a ((s, bid, t) ∷ calls) db (new, more) smooth =
    let x = append_bid_idempotent_with_anti_snipe s bid t db in
    elim (Bool-cases (bid.auction_id == a)) [
      | inl e ↦
          let mine = calls_of-own a (s, bid, t) calls e in
          let own = (==_iff bid.auction_id a).0 e in
          let (first, rest) : All IsSmooth ((s, bid, t) ∷ calls_of a calls) =
            subst (All IsSmooth) mine smooth in
          subst (λ cs. AllFaultFree a cs (restrict a db)) (sym mine)
            (
              record {
                own = own;
                quiet = first.quiet;
                nonzero = first.nonzero;
                amount = first.amount;
                new_id = has_id-rows_of s.new_id a db.outbox new;
              },
              subst (AllFaultFree a (calls_of a calls))
                  (sym (
                    ap (λ (y : Result AntiSnipeAppendResult × Db). y.1)
                      (own_call a (s, bid, t) db own new)))
                  (calls_of-AllFaultFree a calls x.1 more rest),
            )
      | inr e ↦
          let theirs = calls_of-other a (s, bid, t) calls e in
          subst (λ cs. AllFaultFree a cs (restrict a db)) (sym theirs)
            (subst (AllFaultFree a (calls_of a calls))
              (append-restrict_other a s bid t db (λ same. cc (same, ==_refl a, e)))
              (calls_of-AllFaultFree a calls x.1 more (subst (All IsSmooth) theirs smooth)))
    ]

-- Calls of AppendBidIdempotentWithAntiSnipe that overlap (each holds its auction's row from SELECT
-- … FOR UPDATE to its end, and commits what it did to the tables as it saw them then) are
-- linearizable: where nothing fails in the calls for an auction that have ended, and an int64
-- counts them, their results are the verdicts of the auction's log on those calls in the order of
-- their ends, and the tables hold the log that they leave.
pub Reach-Implements :
    (a : Uuid) (tables : Db) (ended : List Submission) (srv : Server) (log : AuctionLog)
    → Reach tables ended srv
    → All IsSmooth (calls_of a ended)
    → IsSound a tables
    → Views a tables log
    → length log.entries + length (calls_of a ended) < 2 ^ 63
    → let (verdicts, log') = submit_all (bids_of_calls (calls_of a ended)) log in
      AllAnswer verdicts (results_of a ended srv.answers) × Views a srv.tables log'
Reach-Implements a tables ended srv log r smooth sound view room =
    let serial = Reach-IsSerial r in
    let new = Reach-AllNewIds r in
    let (results, rows) = append_all-restrict a ended tables new in
    let (answers, views) =
      append_all-Implements a (calls_of a ended) (restrict a tables) log
        (calls_of-AllFaultFree a ended tables new smooth) (restrict-IsSound a tables sound)
        (restrict-Views a tables log view) room in
    let log' = (submit_all (bids_of_calls (calls_of a ended)) log).1 in
    (
      subst (AllAnswer (submit_all (bids_of_calls (calls_of a ended)) log).0)
          (sym (ap (results_of a ended) serial.answers ∙ results)) answers,
      unrestrict-Views a srv.tables log'
          (subst (λ x. Views a x log') (sym (serial.rows a ∙ rows)) views),
    )
