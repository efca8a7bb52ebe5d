-- ===== src/Postgres/Outbox/Queue.antt =====
-- The outbox as a queue: its events that wait, by created_at and id. Where nothing fails, PublishNext
-- publishes the first of them and takes it off.
pub mod Sorted
pub mod Events
use bid_lane.Prelude.{
  ℕ, ◌+◌, refl, sym, ap, ◌∙◌, ◌≡◌, ◌∷◌, [], List, Option, none, some, is_some, Text, Bool,
  Bool-cases, inl, inr, true, false, not, ◌==◌, ==_refl, ==_iff, if◌then◌else◌, arith, ◌⊎◌,
}
use bid_lane.Go.Time.{Time}
use bid_lane.Postgres.Schema.{Uuid, OutboxRow, Db}
use bid_lane.Postgres.Statements.{has_id}
use bid_lane.Postgres.Transaction.{committed}
use bid_lane.Postgres.Outbox.{
  comes_before, is_waiting, earlier, is_marked, next_unpublished, Published, ok, Callback,
  RelayService, mark_published, count_marked, publish_next, event_of, publish_row, after_publish,
  mark, commit_mark,
}
use bid_lane.Postgres.Outbox.Order.{marked}

abbrev pub insert_row : OutboxRow → List OutboxRow → List OutboxRow
insert_row r [] = r ∷ []
insert_row r (q ∷ rows) =
    let rest = insert_row r rows in if comes_before q r then q ∷ rest else r ∷ q ∷ rows

-- The unpublished rows, sorted by created_at and id.
unfoldable pub waiting_rows : List OutboxRow → List OutboxRow
waiting_rows [] = []
waiting_rows (r ∷ rows) =
    let rest = waiting_rows rows in if is_some r.published_at then rest else insert_row r rest

-- Ids are a primary key.
abbrev pub HasIds : List OutboxRow → Type 0
HasIds [] = Unit
HasIds (r ∷ rows) = (has_id r.id rows ≡ false) × HasIds rows

abbrev first : List OutboxRow → Option OutboxRow
first [] = none
first (r ∷ rows) = some r

first-insert_row :
    (r : OutboxRow) (rows : List OutboxRow) → first (insert_row r rows) ≡ earlier r (first rows)
first-insert_row r [] = refl
first-insert_row r (q ∷ rows) = elim (Bool-cases (comes_before q r)) [
  | inl b ↦ rw b refl
  | inr b ↦ rw b refl
]

-- What the SELECT picks is the first in the queue, if no row is locked.
next_unpublished-first :
    (locked : OutboxRow → Bool) (rows : List OutboxRow)
    → ((r : OutboxRow) → locked r ≡ false)
    → next_unpublished locked rows ≡ first (waiting_rows rows)
unfolding next_unpublished waiting_rows
next_unpublished-first locked [] free = refl
next_unpublished-first locked (r ∷ rows) free = elim (Bool-cases (is_some r.published_at)) [
  | inl p ↦ rw p (next_unpublished-first locked rows free)
  | inr p ↦
      rw (p, free r, next_unpublished-first locked rows free)
        (sym (first-insert_row r (waiting_rows rows)))
]

-- A row that no id stands for is not met by the UPDATE.
mark_published_other :
    (id : Uuid) (now : Time) (rows : List OutboxRow)
    → has_id id rows ≡ false
    → (mark_published id now rows ≡ rows) × (count_marked id rows ≡ 0)
unfolding mark_published count_marked has_id
mark_published_other id now [] h = (refl, refl)
mark_published_other id now (r ∷ rows) h = elim (Bool-cases (r.id == id)) [
  | inl e ↦ ground (arith, e, h)
  | inr e ↦
      let (same, nought) = mark_published_other id now rows (ground (arith, e, h)) in
      rw e (ap (λ rest. r ∷ rest) same, nought)
]

-- An id that stands in the table once: the UPDATE on it leaves the others in the queue.
record Taken (now : Time) (id : Uuid) (rest rows : List OutboxRow) : Type 0 where
  left : waiting_rows (mark_published id now rows) ≡ rest
  once : count_marked id rows ≡ 1
  stands : has_id id rows ≡ true

insert_row-cases :
    (p r : OutboxRow) (rows rest : List OutboxRow)
    → insert_row p rows ≡ r ∷ rest
    → ((r.id ≡ p.id) × (rest ≡ rows))
      ⊎ ((others : List OutboxRow) × (rows ≡ r ∷ others) × (rest ≡ insert_row p others))
insert_row-cases p r [] rest e = inl (cc e, cc e)
insert_row-cases p r (q ∷ rows) rest e = elim (Bool-cases (comes_before q p)) [
  | inl b ↦ let e' : q ∷ insert_row p rows ≡ r ∷ rest = rw b at e in inr (rows, cc e', cc e')
  | inr b ↦ let e' : p ∷ q ∷ rows ≡ r ∷ rest = rw b at e in inl (cc e', cc e')
]

-- A row in front that is not the one taken stays where it was in the queue.
Taken-other :
    (now : Time) (id : Uuid) (p : OutboxRow) (rest rows : List OutboxRow)
    → has_id p.id rows ≡ false
    → Taken now id rest rows
    → Taken now id (if is_some p.published_at then rest else insert_row p rest) (p ∷ rows)
unfolding mark_published count_marked has_id waiting_rows
Taken-other now id p rest rows new t = elim (Bool-cases (p.id == id)) [
  | inl e ↦ cc (ap (λ i. has_id i rows) ((==_iff p.id id).0 e), new, t.stands)
  | inr e ↦ record { left = rw (e, t.left) refl; once = rw e t.once; stands = rw e t.stands }
]

Taken-first :
    (now : Time) (p : OutboxRow) (rows : List OutboxRow)
    → has_id p.id rows ≡ false
    → is_some p.published_at ≡ false
    → Taken now p.id (waiting_rows rows) (p ∷ rows)
unfolding mark_published count_marked has_id waiting_rows
Taken-first now p rows new waits =
    let (same, nought) = mark_published_other p.id now rows new in
    record {
      left = rw (==_refl p.id, waits) (ap waiting_rows same);
      once = rw (==_refl p.id, waits, nought) refl;
      stands = rw (==_refl p.id) refl;
    }

waiting_rows-Taken :
    (now : Time) (r : OutboxRow) (rest rows : List OutboxRow)
    → HasIds rows
    → waiting_rows rows ≡ r ∷ rest
    → Taken now r.id rest rows
unfolding waiting_rows
waiting_rows-Taken now r rest [] ids e = cc e
waiting_rows-Taken now r rest (p ∷ rows) ids e = elim (Bool-cases (is_some p.published_at)) [
  | inl published ↦
      let t = waiting_rows-Taken now r rest rows ids.1 (rw published at e) in
      rw published at (Taken-other now r.id p rest rows ids.0 t)
  | inr waits ↦ elim (insert_row-cases p r (waiting_rows rows) rest (rw waits at e)) [
    | inl (same, others) ↦ rw (same, others) (Taken-first now p rows ids.0 waits)
    | inr (others, stands, place) ↦
        let t = waiting_rows-Taken now r others rows ids.1 stands in
        rw place (rw waits at (Taken-other now r.id p others rows ids.0 t))
  ]
]

has_id-mark_published :
    (i id : Uuid) (now : Time) (rows : List OutboxRow)
    → has_id i (mark_published id now rows) ≡ has_id i rows
unfolding has_id mark_published
has_id-mark_published i id now [] = refl
has_id-mark_published i id now (r ∷ rows) = elim (Bool-cases (is_marked id r)) [
  | inl m ↦ rw (m, has_id-mark_published i id now rows) refl
  | inr m ↦ rw (m, has_id-mark_published i id now rows) refl
]

pub mark_published-HasIds :
    (id : Uuid) (now : Time) (rows : List OutboxRow)
    → HasIds rows
    → HasIds (mark_published id now rows)
unfolding mark_published
mark_published-HasIds id now [] ids = tt
mark_published-HasIds id now (r ∷ rows) ids = elim (Bool-cases (is_marked id r)) [
  | inl m ↦
      rw m (has_id-mark_published r.id id now rows ∙ ids.0, mark_published-HasIds id now rows ids.1)
  | inr m ↦
      rw m (has_id-mark_published r.id id now rows ∙ ids.0, mark_published-HasIds id now rows ids.1)
]

-- No call fails in the transaction, and no row is locked by another.
pub record IsQuiet (s : RelayService) : Type 0 where
  pub begins : s.begin_fails ≡ false
  pub selects : s.select_fails ≡ false
  pub marks : s.mark_fails ≡ false
  pub commits : s.commit ≡ committed
  pub free : (r : OutboxRow) → s.locked r ≡ false

module _ {E : Type 0} (publish : Callback E) (s : RelayService) (quiet : IsQuiet s) where
  pub publish_next-empty :
      (db : Db) (e : E)
      → waiting_rows db.outbox ≡ []
      → publish_next (some publish) none s db e ≡ (ok false, db, e)
  unfolding publish_next publish_row
  publish_next-empty db e empty =
      rw (quiet.begins, quiet.selects, next_unpublished-first s.locked db.outbox quiet.free, empty)
        refl

  -- Where nothing fails and the publisher takes the event, PublishNext publishes the first in the
  -- queue and marks it.
  pub publish_next-first :
      (db : Db) (e : E) (r : OutboxRow) (rest : List OutboxRow)
      → HasIds db.outbox
      → waiting_rows db.outbox ≡ r ∷ rest
      → (publish (event_of r) e).0 ≡ none
      → publish_next (some publish) none s db e
        ≡ (ok true, marked s r db, (publish (event_of r) e).1)
  unfolding publish_next publish_row after_publish mark commit_mark
  publish_next-first db e r rest ids queue taken =
      let once = (waiting_rows-Taken s.now r rest db.outbox ids queue).once in
      rw
        (
          quiet.begins,
          quiet.selects,
          next_unpublished-first s.locked db.outbox quiet.free,
          queue,
          taken,
        )
        (rw (quiet.marks, once, quiet.commits) refl)

  pub waiting_rows-marked :
      (db : Db) (r : OutboxRow) (rest : List OutboxRow)
      → HasIds db.outbox
      → waiting_rows db.outbox ≡ r ∷ rest
      → waiting_rows (marked s r db).outbox ≡ rest
  waiting_rows-marked db r rest ids queue =
      (waiting_rows-Taken s.now r rest db.outbox ids queue).left
