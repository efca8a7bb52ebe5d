-- ===== src/Postgres/Outbox/Order.antt =====
-- The row that the relay takes: the first that waits, by created_at and id.
use bid_lane.Prelude.{
  refl, ◌≡◌, ◌⊎◌, Text, ◌∷◌, [], All, All-map, Any, here, there, if◌then◌else◌, List, Option, none,
  some, Bool, Bool-cases, inl, inr, true, false, ◌==◌, ==_iff, arith,
}
use bid_lane.Postgres.Schema.{OutboxRow, Db}
use bid_lane.Postgres.Transaction.{CommitOutcome, committed, aborted, lost}
use bid_lane.Postgres.Outbox.{
  comes_before, is_waiting, earlier, next_unpublished, Published, ok, err, Callback, RelayService,
  mark_published, count_marked, commit_mark, mark, after_hook, after_publish, publish_row,
  publish_next, event_of,
}

pub comes_before_trans :
    (p q r : OutboxRow)
    → comes_before q p ≡ false
    → comes_before r q ≡ false
    → comes_before r p ≡ false
comes_before_trans p q r h k = ground arith

pub comes_before_asym : (p q : OutboxRow) → comes_before q p ≡ true → comes_before p q ≡ false
comes_before_asym p q h = ground arith

-- What the SELECT picks, in the words of the code: a waiting row that no other waiting row comes before, or none if none waits.
abbrev pub IsNext : (OutboxRow → Bool) → List OutboxRow → Option OutboxRow → Type 0
IsNext locked rows none = All (λ q. is_waiting locked q ≡ false) rows
IsNext locked rows (some r) =
    (is_waiting locked r ≡ true)
    × All (λ q. is_waiting locked q ≡ true → comes_before q r ≡ false) rows
    × Any (λ q. q ≡ r) rows

comes_before_irrefl : (p : OutboxRow) → comes_before p p ≡ false
comes_before_irrefl p = ground arith

no_waiting :
    (locked : OutboxRow → Bool) (r : OutboxRow) (rows : List OutboxRow)
    → All (λ q. is_waiting locked q ≡ false) rows
    → All (λ q. is_waiting locked q ≡ true → comes_before q r ≡ false) rows
no_waiting locked r rows h = All-map _ _ rows (λ q none_waits waits. cc (none_waits, waits)) h

step :
    (locked : OutboxRow → Bool) (r : OutboxRow) (rows : List OutboxRow) (next : Option OutboxRow)
    → IsNext locked rows next
    → IsNext locked (r ∷ rows) (if is_waiting locked r then earlier r next else next)
step locked r rows none h = elim (Bool-cases (is_waiting locked r)) [
  | inl w ↦ rw w (w, (λ _. comes_before_irrefl r, no_waiting locked r rows h), here refl)
  | inr w ↦ rw w (w, h)
]
step locked r rows (some q) h = elim (Bool-cases (is_waiting locked r)) [
  | inl w ↦ elim (Bool-cases (comes_before q r)) [
    | inl b ↦ rw (w, b) (h.0, (λ _. comes_before_asym r q b, h.1), there h.2)
    | inr b ↦
        rw (w, b)
          (
            w,
            (
              λ _. comes_before_irrefl r,
              All-map _ _ rows (λ p first waits. comes_before_trans r q p b (first waits)) h.1,
            ),
            here refl,
          )
  ]
  | inr w ↦ rw w (h.0, (λ waits. cc (w, waits), h.1), there h.2)
]

pub next_unpublished-IsNext :
    (locked : OutboxRow → Bool) (rows : List OutboxRow)
    → IsNext locked rows (next_unpublished locked rows)
unfolding next_unpublished
next_unpublished-IsNext locked [] = tt
next_unpublished-IsNext locked (r ∷ rows) =
    step locked r rows _ (next_unpublished-IsNext locked rows)

abbrev pub marked : RelayService → OutboxRow → Db → Db
marked s r db = record db { outbox = mark_published r.id s.now db.outbox }

-- The tables behind PublishNext, by what it returns, in the words of the code.
abbrev pub Steps : {E : Type 0} → RelayService → Db → Published × Db × E → Type 0
Steps s db (ok true, db', e) =
    (r : OutboxRow) × IsNext s.locked db.outbox (some r)
    × (count_marked r.id db.outbox ≡ 1)
    × (db' ≡ marked s r db)
Steps s db (ok false, db', e) = IsNext s.locked db.outbox none × (db' ≡ db)
Steps s db (err x, db', e) =
    (db' ≡ db)
    ⊎ ((s.commit ≡ lost)
        × ((r : OutboxRow) × IsNext s.locked db.outbox (some r)
            × (count_marked r.id db.outbox ≡ 1)
            × (db' ≡ marked s r db)))

module _ {E : Type 0} where
  if-Steps :
      (s : RelayService) (db : Db) (c : Bool) (x y : Published × Db × E)
      → Steps s db x
      → Steps s db y
      → Steps s db (if c then x else y)
  if-Steps s db true x y hx hy = hx
  if-Steps s db false x y hx hy = hy

  commit_mark-Steps :
      (s : RelayService) (db : Db) (r : OutboxRow) (e : E) (c : CommitOutcome)
      → s.commit ≡ c
      → IsNext s.locked db.outbox (some r)
      → count_marked r.id db.outbox ≡ 1
      → Steps s db (commit_mark c db (marked s r db) e)
  unfolding commit_mark
  commit_mark-Steps s db r e committed ec h one = (r, h, one, refl)
  commit_mark-Steps s db r e aborted ec h one = inl refl
  commit_mark-Steps s db r e lost ec h one = inr (ec, (r, h, one, refl))

  mark-Steps :
      (s : RelayService) (db : Db) (r : OutboxRow) (e : E)
      → IsNext s.locked db.outbox (some r)
      → Steps s db (mark s db r e)
  unfolding mark
  mark-Steps s db r e h =
      if-Steps s db s.mark_fails _ _ (inl refl)
        (elim (Bool-cases (count_marked r.id db.outbox == 1)) [
          | inl one ↦ rw one (
              commit_mark-Steps s db r e s.commit refl h
                ((==_iff (count_marked r.id db.outbox) 1).0 one))
          | inr other ↦ rw other (inl refl)
        ])

  after_hook-Steps :
      (s : RelayService) (db : Db) (r : OutboxRow) (y : Option Text × E)
      → IsNext s.locked db.outbox (some r)
      → Steps s db (after_hook s db r y)
  unfolding after_hook
  after_hook-Steps s db r (some x, e) h = inl refl
  after_hook-Steps s db r (none, e) h = mark-Steps s db r e h

  after_publish-Steps :
      (after : Option (Callback E)) (s : RelayService) (db : Db) (r : OutboxRow)
      (y : Option Text × E)
      → IsNext s.locked db.outbox (some r)
      → Steps s db (after_publish after s db r y)
  unfolding after_publish
  after_publish-Steps after s db r (some x, e) h = inl refl
  after_publish-Steps none s db r (none, e) h = mark-Steps s db r e h
  after_publish-Steps (some hook) s db r (none, e) h =
      after_hook-Steps s db r (hook (event_of r) e) h

  publish_row-Steps :
      (publish : Callback E) (after : Option (Callback E)) (s : RelayService) (db : Db) (e : E)
      (next : Option OutboxRow)
      → IsNext s.locked db.outbox next
      → Steps s db (publish_row publish after s db e next)
  unfolding publish_row
  publish_row-Steps publish after s db e none h = (h, refl)
  publish_row-Steps publish after s db e (some r) h =
      after_publish-Steps after s db r (publish (event_of r) e) h

  pub publish_next-Steps :
      (publish after : Option (Callback E)) (s : RelayService) (db : Db) (e : E)
      → Steps s db (publish_next publish after s db e)
  unfolding publish_next
  publish_next-Steps none after s db e = inl refl
  publish_next-Steps (some publish) after s db e = if-Steps s db s.begin_fails _ _ (inl refl) (
      if-Steps s db s.select_fails _ _ (inl refl)
        (publish_row-Steps publish after s db e _ (next_unpublished-IsNext s.locked db.outbox)))
