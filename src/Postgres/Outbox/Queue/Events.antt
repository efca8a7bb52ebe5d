-- ===== src/Postgres/Outbox/Queue/Events.antt =====
-- The event of a bid that was accepted waits in the outbox.
use bid_lane.Prelude.{
  refl, ap, ◌≡◌, inl, inr, ◌∷◌, [], ◌++◌, List, Any, here, there, Bool-cases, true, false, is_some,
  subst, ◌==◌, ==_iff, arith,
}
use bid_lane.Go.Time.{Time}
use bid_lane.Postgres.Schema.{Uuid, OutboxRow, Db}
use bid_lane.Postgres.Statements.{BidToPersist, outbox_row, has_id}
use bid_lane.Postgres.Transaction.{Service, ok}
use bid_lane.Postgres.AntiSnipe.{
  AntiSnipeAppendResult, payload_of, append_bid_idempotent_with_anti_snipe,
}
use bid_lane.Postgres.AntiSnipe.Effects.{
  IsNew, Effect, append-Effect, new_result, new_db, payload_for,
}
use bid_lane.Postgres.Outbox.{comes_before}
use bid_lane.Postgres.Outbox.Queue.{HasIds, insert_row, waiting_rows}

-- The event that a call wrote for the bid that it inserted.
abbrev pub event_row : Service → BidToPersist → Time → AntiSnipeAppendResult → OutboxRow
event_row s bid t r =
    outbox_row s.new_id s.now (
      payload_of bid r.result.sequence_number t r.effective_close_time r.extended r.extension_count)

IsNew-event :
    (s : Service) (bid : BidToPersist) (t : Time) (db : Db) (r : AntiSnipeAppendResult) (db' : Db)
    → IsNew s bid t db r db'
    → db'.outbox ≡ db.outbox ++ event_row s bid t r ∷ []
unfolding new_db payload_for new_result
IsNew-event s bid t db r db' n = rw (n.tables, n.answer) refl

-- A call that inserted a bid has written its event behind the others, with what it returned.
pub append-event_row :
    (s : Service) (bid : BidToPersist) (t : Time) (db db' : Db) (r : AntiSnipeAppendResult)
    → append_bid_idempotent_with_anti_snipe s bid t db ≡ (ok r, db')
    → r.result.inserted ≡ true
    → db'.outbox ≡ db.outbox ++ event_row s bid t r ∷ []
append-event_row s bid t db db' r e inserted =
    elim (subst (Effect s bid t db) e (append-Effect s bid t db)) [
      | inl d ↦ cc (inserted, ap (λ (x : AntiSnipeAppendResult). x.result.inserted) d.answer)
      | inr n ↦ IsNew-event s bid t db r db' n
    ]

insert_row_self : (r : OutboxRow) (rows : List OutboxRow) → Any (λ q. q ≡ r) (insert_row r rows)
insert_row_self r [] = here refl
insert_row_self r (q ∷ rows) = elim (Bool-cases (comes_before q r)) [
  | inl b ↦ rw b (there (insert_row_self r rows))
  | inr b ↦ rw b (here refl)
]

insert_row_others :
    (r p : OutboxRow) (rows : List OutboxRow)
    → Any (λ q. q ≡ r) rows
    → Any (λ q. q ≡ r) (insert_row p rows)
insert_row_others r p [] x = elim x [ ]
insert_row_others r p (q ∷ rows) (here h) = elim (Bool-cases (comes_before q p)) [
  | inl b ↦ rw b (here h)
  | inr b ↦ rw b (there (here h))
]
insert_row_others r p (q ∷ rows) (there h) = elim (Bool-cases (comes_before q p)) [
  | inl b ↦ rw b (there (insert_row_others r p rows h))
  | inr b ↦ rw b (there (there h))
]

pub waiting_rows-append :
    (r : OutboxRow) (rows : List OutboxRow)
    → is_some r.published_at ≡ false
    → Any (λ q. q ≡ r) (waiting_rows (rows ++ r ∷ []))
unfolding waiting_rows
waiting_rows-append r [] waits = rw waits (here refl)
waiting_rows-append r (p ∷ rows) waits = elim (Bool-cases (is_some p.published_at)) [
  | inl b ↦ rw b (waiting_rows-append r rows waits)
  | inr b ↦ rw b (insert_row_others r p _ (waiting_rows-append r rows waits))
]

has_id-append :
    (i : Uuid) (r : OutboxRow) (rows : List OutboxRow)
    → has_id i rows ≡ false
    → (r.id == i) ≡ false
    → has_id i (rows ++ r ∷ []) ≡ false
unfolding has_id
has_id-append i r [] h ne = rw ne refl
has_id-append i r (p ∷ rows) h ne = ground (arith, h, ne, has_id-append i r rows)

pub append-HasIds :
    (r : OutboxRow) (rows : List OutboxRow)
    → HasIds rows
    → has_id r.id rows ≡ false
    → HasIds (rows ++ r ∷ [])
unfolding has_id
append-HasIds r [] ids new = (refl, tt)
append-HasIds r (p ∷ rows) ids new = elim (Bool-cases (r.id == p.id)) [
  | inl e ↦ ground (arith, e, new, ==_iff r.id p.id)
  | inr e ↦ (has_id-append p.id r rows ids.0 e, append-HasIds r rows ids.1 (ground (arith, new)))
]
