-- ===== src/Postgres/Isolation/Calls.antt =====
-- Calls for several auctions, one behind the other: what becomes of an auction is the work of its own
-- calls.
use bid_lane.Prelude.{
  refl, subst, ◌≡◌, inl, inr, ◌∷◌, [], List, Bool-cases, false, ◌==◌, ==_iff, ==_refl,
  if◌then◌else◌,
}
use bid_lane.Postgres.Schema.{Uuid, Db}
use bid_lane.Postgres.Statements.{has_id}
use bid_lane.Postgres.AntiSnipe.{append_bid_idempotent_with_anti_snipe}
use bid_lane.Postgres.AuctionLog.Simulation.{Submission, append_all}
use bid_lane.Postgres.Isolation.{restrict}
use bid_lane.Postgres.Isolation.Append.{append-restrict}
use bid_lane.Postgres.Isolation.Frame.{append-restrict_other}

-- The calls for an auction, and their results among those of all calls.
unfoldable pub calls_of : Uuid → List Submission → List Submission
calls_of a [] = []
calls_of a ((s, bid, t) ∷ calls) =
    let rest = calls_of a calls in if bid.auction_id == a then (s, bid, t) ∷ rest else rest

unfoldable pub results_of : {A : Type 0} → Uuid → List Submission → List A → List A
results_of a [] results = []
results_of a (_ ∷ calls) [] = []
results_of a ((s, bid, t) ∷ calls) (r ∷ results) =
    let rest = results_of a calls results in if bid.auction_id == a then r ∷ rest else rest

-- Each event gets an id that no earlier event has.
unfoldable pub AllNewIds : List Submission → Db → Type 0
AllNewIds [] db = Unit
AllNewIds ((s, bid, t) ∷ calls) db =
    (has_id s.new_id db.outbox ≡ false)
    × AllNewIds calls (append_bid_idempotent_with_anti_snipe s bid t db).1

pub own_call :
    (a : Uuid) (c : Submission) (db : Db)
    → c.1.auction_id ≡ a
    → has_id c.0.new_id db.outbox ≡ false
    → append_bid_idempotent_with_anti_snipe c.0 c.1 c.2 (restrict a db) ≡ (
      (append_bid_idempotent_with_anti_snipe c.0 c.1 c.2 db).0,
      restrict a (append_bid_idempotent_with_anti_snipe c.0 c.1 c.2 db).1,
    )
own_call a (s, bid, t) db own new =
    subst
      (λ x. append_bid_idempotent_with_anti_snipe s bid t (restrict x db) ≡ (
        (append_bid_idempotent_with_anti_snipe s bid t db).0,
        restrict x (append_bid_idempotent_with_anti_snipe s bid t db).1,
      ))
      own (append-restrict s bid t db new)

-- Whatever fails in calls of AppendBidIdempotentWithAntiSnipe for several auctions, one behind the
-- other, with ids for events that are new: the results of an auction's calls, and its rows in
-- every table behind all calls, are those of its own calls alone on its own rows alone.
pub append_all-restrict :
    (a : Uuid) (calls : List Submission) (db : Db)
    → AllNewIds calls db
    → (results_of a calls (append_all calls db).0
        ≡ (append_all (calls_of a calls) (restrict a db)).0)
      × (restrict a (append_all calls db).1 ≡ (append_all (calls_of a calls) (restrict a db)).1)
unfolding append_all calls_of results_of AllNewIds
append_all-restrict a [] db new = (refl, refl)
append_all-restrict a ((s, bid, t) ∷ calls) db (new, more) =
    let x = append_bid_idempotent_with_anti_snipe s bid t db in
    let (results, rows) = append_all-restrict a calls x.1 more in
    elim (Bool-cases (bid.auction_id == a)) [
      | inl own ↦
          let mine = own_call a (s, bid, t) db ((==_iff bid.auction_id a).0 own) new in
          rw (append_all, calls_of, results_of, own, mine) (rw (results, rows) (refl, refl))
      | inr other ↦
          let frame = append-restrict_other a s bid t db (λ e. cc (e, ==_refl a, other)) in
          rw (append_all, calls_of, results_of, other) (rw (results, rows, frame) (refl, refl))
    ]
