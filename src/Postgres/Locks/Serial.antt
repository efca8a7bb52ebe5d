-- ===== src/Postgres/Locks/Serial.antt =====
-- Concurrent calls are as good as the same calls one behind the other, in the order of their ends.
use bid_lane.Prelude.{
  refl, ap, sym, subst, ◌∙◌, ◌≡◌, inl, inr, ◌∷◌, [], ◌++◌, List, some, Bool-cases, true, false,
  ◌==◌, ==_iff, ==_refl, arith,
}
use native.Mathlib.Decide.{ℕ_discrete}
use bid_lane.Postgres.Schema.{Uuid, OutboxRow, Db}
use bid_lane.Postgres.Statements.{has_id}
use bid_lane.Postgres.Transaction.{Result}
use bid_lane.Postgres.AntiSnipe.{AntiSnipeAppendResult}
use bid_lane.Postgres.AuctionLog.Simulation.{Submission, append_all}
use bid_lane.Postgres.Isolation.{rows_of, restrict, has_id-rows_of}
use bid_lane.Postgres.Isolation.Calls.{own_call}
use bid_lane.Postgres.Isolation.Frame.{append-restrict_other}
use bid_lane.Postgres.Locks.{
  Holder, Server, auction_of, publish, run_call, locked, finished, HasNewId, Reach, start, lock,
  finish,
}
use bid_lane.Postgres.Locks.Publish.{restrict-publish, restrict-publish_other}

-- An id is that of an event exactly where it is that of an event of some auction.
has_id_found :
    (i : Uuid) (rows : List OutboxRow)
    → has_id i rows ≡ true
    → (a : Uuid) × (has_id i (rows_of (λ (r : OutboxRow). r.aggregate_id) a rows) ≡ true)
unfolding has_id rows_of
has_id_found i [] h = cc
has_id_found i (r ∷ rows) h = elim (Bool-cases (r.id == i)) [
  | inl e ↦ (r.aggregate_id, ground (arith, e, ==_refl r.aggregate_id))
  | inr e ↦
      let (a, found) = has_id_found i rows (ground (arith, e, h)) in (a, ground (arith, e, found))
]

pub has_id_agrees :
    (i : Uuid) (db db' : Db)
    → ((a : Uuid) → restrict a db ≡ restrict a db')
    → has_id i db.outbox ≡ false
    → has_id i db'.outbox ≡ false
has_id_agrees i db db' same new = elim (Bool-cases (has_id i db'.outbox)) [
  | inr e ↦ e
  | inl e ↦
      let (a, found) = has_id_found i db'.outbox e in
      cc (found, has_id-rows_of i a db.outbox new, ap (λ (x : Db). has_id i x.outbox) (same a))
]

append_all-snoc :
    (calls : List Submission) (c : Submission) (db : Db)
    → append_all (calls ++ c ∷ []) db ≡ (
      (append_all calls db).0 ++ (run_call c (append_all calls db).1).0 ∷ [],
      (run_call c (append_all calls db).1).1,
    )
unfolding append_all
append_all-snoc [] c db = refl
append_all-snoc ((s, bid, t) ∷ calls) c db =
    rw (append_all-snoc calls c (run_call (s, bid, t) db).1) refl

-- The tables of the server hold, for each auction, what the calls that have ended would have left one
-- behind the other; what a transaction has seen of its auction is still so.
pub record IsSerial (tables : Db) (ended : List Submission) (srv : Server) : Type 0 where
  pub rows : (a : Uuid) → restrict a srv.tables ≡ restrict a (append_all ended tables).1
  pub answers : srv.answers ≡ (append_all ended tables).0

record IsIsolated (srv : Server) : Type 0 where
  own : (a : Uuid) (h : Holder) → srv.holders a ≡ some h → auction_of h.call ≡ a
  unchanged :
      (a : Uuid) (h : Holder) → srv.holders a ≡ some h → restrict a h.seen ≡ restrict a srv.tables

got :
    (c : Submission) (srv : Server) (a : Uuid) (h : Holder)
    → (auction_of c == a) ≡ true
    → (locked c srv).holders a ≡ some h
    → record { call = c; seen = srv.tables } ≡ h
unfolding locked
got c srv a h same e = ground (arith, same, e)

locked-IsIsolated : (c : Submission) (srv : Server) → IsIsolated srv → IsIsolated (locked c srv)
unfolding locked
locked-IsIsolated c srv iso = record {
  own = λ a h e. elim (Bool-cases (auction_of c == a)) [
    | inl same ↦
        subst (λ (k : Holder). auction_of k.call ≡ a) (got c srv a h same e)
          ((==_iff (auction_of c) a).0 same)
    | inr other ↦ iso.own a h (ground (arith, other, e))
  ];
  unchanged = λ a h e. elim (Bool-cases (auction_of c == a)) [
    | inl same ↦
        subst (λ (k : Holder). restrict a k.seen ≡ restrict a srv.tables) (got c srv a h same e)
          refl
    | inr other ↦ iso.unchanged a h (ground (arith, other, e))
  ];
}

finished-IsIsolated :
    (a : Uuid) (h : Holder) (srv : Server) → IsIsolated srv → IsIsolated (finished a h srv)
unfolding finished
finished-IsIsolated a h srv iso = record {
  own = λ b k e. elim (Bool-cases (a == b)) [
    | inl same ↦ absurd (ground (arith, same, e))
    | inr other ↦ iso.own b k (ground (arith, other, e))
  ];
  unchanged = λ b k e. elim (Bool-cases (a == b)) [
    | inl same ↦ absurd (ground (arith, same, e))
    | inr other ↦
        iso.unchanged b k (ground (arith, other, e))
        ∙ sym (restrict-publish_other a b _ srv.tables (λ x. cc (x, ==_refl b, other)))
  ];
}

-- The end of a transaction: its result, and its auction's rows, are those of the call on the tables
-- that the calls before it would have left.
module _ (tables : Db) (ended : List Submission) (srv : Server) (h : Holder)
    (serial : IsSerial tables ended srv)
    (unchanged : restrict (auction_of h.call) h.seen ≡ restrict (auction_of h.call) srv.tables)
    (new_seen : HasNewId h.call h.seen) (new_id : HasNewId h.call srv.tables) where
  abbrev before : Db
  before = (append_all ended tables).1

  ended_call :
      ((run_call h.call h.seen).0 ≡ (run_call h.call before).0)
      × (restrict (auction_of h.call) (run_call h.call h.seen).1
          ≡ restrict (auction_of h.call) (run_call h.call before).1)
  ended_call =
      let a = auction_of h.call in
      let on_seen = own_call a h.call h.seen refl new_seen in
      let on_before =
        own_call a h.call before refl
          (has_id_agrees h.call.0.new_id srv.tables before serial.rows new_id) in
      let same = sym on_seen ∙ ap (run_call h.call) (unchanged ∙ serial.rows a) ∙ on_before in
      (
        ap (λ (x : Result AntiSnipeAppendResult × Db). x.0) same,
        ap (λ (x : Result AntiSnipeAppendResult × Db). x.1) same,
      )

  finished-rows :
      (b : Uuid)
      → restrict b (finished (auction_of h.call) h srv).tables
        ≡ restrict b (run_call h.call before).1
  unfolding finished
  finished-rows b = elim (ℕ_discrete (auction_of h.call) b) [
    | yes e ↦
        subst
          (λ x.
            restrict x (publish (auction_of h.call) (run_call h.call h.seen).1 srv.tables)
            ≡ restrict x (run_call h.call before).1)
          e (restrict-publish (auction_of h.call) _ srv.tables ∙ ended_call.1)
    | no ne ↦
        restrict-publish_other (auction_of h.call) b _ srv.tables ne
        ∙ serial.rows b
        ∙ sym (append-restrict_other b h.call.0 h.call.1 h.call.2 before (λ e. ne (sym e)))
  ]

  finished-IsSerial : IsSerial tables (ended ++ h.call ∷ []) (finished (auction_of h.call) h srv)
  unfolding finished
  finished-IsSerial = record {
    rows = λ b.
        finished-rows b
        ∙ sym (
            ap (λ (x : List (Result AntiSnipeAppendResult) × Db). restrict b x.1)
              (append_all-snoc ended h.call tables));
    answers = rw (append_all-snoc ended h.call tables) (rw (serial.answers, ended_call.0) refl);
  }

Reach-IsIsolated :
    {tables : Db} {ended : List Submission} {srv : Server} → Reach tables ended srv → IsIsolated srv
Reach-IsIsolated start = record { own = λ a h e. cc; unchanged = λ a h e. cc }
Reach-IsIsolated (lock {srv} c r free) = locked-IsIsolated c srv (Reach-IsIsolated r)
Reach-IsIsolated (finish {srv} a h r held n1 n2) = finished-IsIsolated a h srv (Reach-IsIsolated r)

-- However such calls for any auctions overlap and whatever fails in them, with ids for events that
-- are new: their results are those of the same calls one behind the other in the order of their
-- ends, and each auction has the rows that they leave.
pub Reach-IsSerial :
    {tables : Db} {ended : List Submission} {srv : Server}
    → Reach tables ended srv
    → IsSerial tables ended srv
unfolding append_all locked
Reach-IsSerial start = record { rows = λ a. refl; answers = refl }
Reach-IsSerial (lock {srv} c r free) =
    let serial = Reach-IsSerial r in record { rows = serial.rows; answers = serial.answers }
Reach-IsSerial {tables} (finish {ended} {srv} a h r held new_seen new_id) =
    let iso = Reach-IsIsolated r in
    let own = iso.own a h held in
    subst (λ x. IsSerial tables (ended ++ h.call ∷ []) (finished x h srv)) own
      (finished-IsSerial tables ended srv h (Reach-IsSerial r)
        (subst (λ x. restrict x h.seen ≡ restrict x srv.tables) (sym own) (iso.unchanged a h held))
        new_seen new_id)
