-- ===== src/Postgres/Outbox.antt =====
-- internal/store/postgres/outbox.go: one transaction that publishes the next event of the outbox and
-- marks it.
pub mod Sent
pub mod Order
pub mod Next
pub mod Queue
use bid_lane.Prelude.{
  ℕ, ◌+◌, ◌∷◌, [], List, Option, none, some, is_some, Text, Bool, true, false, not, ◌&&◌, ◌||◌,
  ◌==◌, ltb, if◌then◌else◌,
}
use bid_lane.Prelude.Int.{ℤ, ltb_ℤ, eqb_ℤ}
use bid_lane.Go.Time.{Time}
use bid_lane.Postgres.Schema.{Uuid, OutboxRow, Payload, Db}
use bid_lane.Postgres.Transaction.{CommitOutcome, committed, aborted, lost}

-- OutboxEvent
pub record OutboxEvent : Type 0 where
  pub id : Uuid
  pub event_type : Text
  pub aggregate_type : Text
  pub aggregate_id : Uuid
  pub aggregate_sequence : ℤ
  pub payload : Payload
  pub created_at : Time
  pub publish_attempts : ℕ

abbrev pub event_of : OutboxRow → OutboxEvent
event_of r = record {
  id = r.id;
  event_type = r.event_type;
  aggregate_type = r.aggregate_type;
  aggregate_id = r.aggregate_id;
  aggregate_sequence = r.aggregate_sequence;
  payload = r.payload;
  created_at = r.created_at;
  publish_attempts = r.publish_attempts;
}

-- What the service does in one transaction of the relay; other transactions hold the locked rows.
pub record RelayService : Type 0 where
  pub begin_fails : Bool
  pub select_fails : Bool
  pub mark_fails : Bool
  pub commit : CommitOutcome
  pub locked : OutboxRow → Bool
  pub now : Time

pub data PublishError : Type 0 where
  publish_function_required begin_failed select_failed mark_failed commit_failed : PublishError
  publish_failed after_publish_failed : Text → PublishError
  marked_rows : ℕ → PublishError

pub data Published : Type 0 where
  ok : Bool → Published
  err : PublishError → Published

-- ORDER BY created_at, id
abbrev pub comes_before : OutboxRow → OutboxRow → Bool
comes_before p q =
    ltb_ℤ p.created_at q.created_at || (eqb_ℤ p.created_at q.created_at && ltb p.id q.id)

abbrev pub is_waiting : (OutboxRow → Bool) → OutboxRow → Bool
is_waiting locked r = not (is_some r.published_at) && not (locked r)

abbrev earlier : OutboxRow → Option OutboxRow → Option OutboxRow
earlier r none = some r
earlier r (some q) = if comes_before q r then some q else some r

-- SELECT … WHERE published_at IS NULL ORDER BY created_at, id FOR UPDATE SKIP LOCKED LIMIT 1
unfoldable pub next_unpublished : (OutboxRow → Bool) → List OutboxRow → Option OutboxRow
next_unpublished locked [] = none
next_unpublished locked (r ∷ rows) =
    let rest = next_unpublished locked rows in if is_waiting locked r then earlier r rest else rest

abbrev pub is_marked : Uuid → OutboxRow → Bool
is_marked id r = r.id == id && not (is_some r.published_at)

-- UPDATE outbox SET published_at = clock_timestamp(), publish_attempts = publish_attempts + 1
-- WHERE id = $1 AND published_at IS NULL
unfoldable pub mark_published : Uuid → Time → List OutboxRow → List OutboxRow
mark_published id now [] = []
mark_published id now (r ∷ rows) =
    (if is_marked id r
      then record r { published_at = some now; publish_attempts = r.publish_attempts + 1 }
      else r)
    ∷ mark_published id now rows

unfoldable pub count_marked : Uuid → List OutboxRow → ℕ
count_marked id [] = 0
count_marked id (r ∷ rows) =
    let rest = count_marked id rows in if is_marked id r then rest + 1 else rest

-- A callback of PublishNext: an error or none, and the state behind it.
abbrev pub Callback : Type 0 → Type 0
Callback E = OutboxEvent → E → Option Text × E

module _ {E : Type 0} where
  commit_mark : CommitOutcome → Db → Db → E → Published × Db × E
  commit_mark committed db db' e = (ok true, db', e)
  commit_mark aborted db db' e = (err commit_failed, db, e)
  commit_mark lost db db' e = (err commit_failed, db', e)

  mark : RelayService → Db → OutboxRow → E → Published × Db × E
  unfolding commit_mark count_marked mark_published
  mark s db r e =
      if s.mark_fails
      then (err mark_failed, db, e)
      else if not (count_marked r.id db.outbox == 1)
      then (err (marked_rows (count_marked r.id db.outbox)), db, e)
      else commit_mark s.commit db (record db { outbox = mark_published r.id s.now db.outbox }) e

  after_hook : RelayService → Db → OutboxRow → Option Text × E → Published × Db × E
  unfolding mark
  after_hook s db r (some x, e) = (err (after_publish_failed x), db, e)
  after_hook s db r (none, e) = mark s db r e

  after_publish :
      Option (Callback E) → RelayService → Db → OutboxRow → Option Text × E → Published × Db × E
  unfolding after_hook
  after_publish after s db r (some x, e) = (err (publish_failed x), db, e)
  after_publish none s db r (none, e) = mark s db r e
  after_publish (some hook) s db r (none, e) = after_hook s db r (hook (event_of r) e)

  publish_row :
      Callback E
      → Option (Callback E)
      → RelayService
      → Db
      → E
      → Option OutboxRow
      → Published × Db × E
  unfolding after_publish
  publish_row publish after s db e none = (ok false, db, e)
  publish_row publish after s db e (some r) = after_publish after s db r (publish (event_of r) e)

  -- PublishNext
  unfoldable pub publish_next :
      Option (Callback E) → Option (Callback E) → RelayService → Db → E → Published × Db × E
  unfolding publish_row next_unpublished
  publish_next none after s db e = (err publish_function_required, db, e)
  publish_next (some publish) after s db e =
      if s.begin_fails
      then (err begin_failed, db, e)
      else if s.select_fails
      then (err select_failed, db, e)
      else publish_row publish after s db e (next_unpublished s.locked db.outbox)
