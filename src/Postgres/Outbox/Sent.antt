-- ===== src/Postgres/Outbox/Sent.antt =====
-- At-least-once publication: what is marked as published was handed to the publisher.
use bid_lane.Prelude.{
  refl, ◌≡◌, ◌∷◌, [], All, List, Option, none, some, is_some, Text, Bool, Bool-cases, inl, inr,
  true, false, not, if◌then◌else◌, ◌==◌, ==_iff, arith,
}
use bid_lane.Go.Time.{Time}
use bid_lane.Postgres.Schema.{Uuid, OutboxRow, Db}
use bid_lane.Postgres.Transaction.{CommitOutcome, committed, aborted, lost}
use bid_lane.Postgres.Outbox.{
  OutboxEvent, event_of, RelayService, Published, Callback, is_marked, mark_published, commit_mark,
  mark, after_hook, after_publish, publish_row, publish_next, count_marked,
}

module _ {E : Type 0} (sent : Uuid → E → Bool) where
  -- A row that is marked as published has been sent.
  abbrev pub IsSent : E → OutboxRow → Type 0
  IsSent e r = is_some r.published_at ≡ true → sent r.id e ≡ true

  abbrev pub AllSent : Db → E → Type 0
  AllSent db e = All (IsSent e) db.outbox

  pub All-later :
      (e e' : E) (rows : List OutboxRow)
      → ((id : Uuid) → sent id e ≡ true → sent id e' ≡ true)
      → All (IsSent e) rows
      → All (IsSent e') rows
  All-later e e' [] keeps h = tt
  All-later e e' (r ∷ rows) keeps h = (λ m. keeps r.id (h.0 m), All-later e e' rows keeps h.1)

  mark_published-AllSent :
      (id : Uuid) (now : Time) (e : E) (rows : List OutboxRow)
      → sent id e ≡ true
      → All (IsSent e) rows
      → All (IsSent e) (mark_published id now rows)
  unfolding mark_published
  mark_published-AllSent id now e [] s h = tt
  mark_published-AllSent id now e (r ∷ rows) s h = elim (Bool-cases (is_marked id r)) [
    | inl m ↦
        rw m (λ _. ground (arith, m, s, ==_iff r.id id), mark_published-AllSent id now e rows s h.1)
    | inr m ↦ rw m (h.0, mark_published-AllSent id now e rows s h.1)
  ]

  if-AllSent :
      (c : Bool) (x y : Published × Db × E)
      → AllSent x.1 x.2
      → AllSent y.1 y.2
      → let z = if c then x else y in AllSent z.1 z.2
  if-AllSent true x y hx hy = hx
  if-AllSent false x y hx hy = hy

  commit_mark-AllSent :
      (c : CommitOutcome) (db db' : Db) (e : E)
      → AllSent db e
      → AllSent db' e
      → let x = commit_mark c db db' e in AllSent x.1 x.2
  unfolding commit_mark
  commit_mark-AllSent committed db db' e h h' = h'
  commit_mark-AllSent aborted db db' e h h' = h
  commit_mark-AllSent lost db db' e h h' = h'

  mark-AllSent :
      (s : RelayService) (db : Db) (r : OutboxRow) (e : E)
      → sent r.id e ≡ true
      → AllSent db e
      → let x = mark s db r e in AllSent x.1 x.2
  unfolding mark
  mark-AllSent s db r e sent_r h = if-AllSent s.mark_fails _ _ h (
      if-AllSent (not (count_marked r.id db.outbox == 1)) _ _ h (
        commit_mark-AllSent s.commit db _ e h
          (mark_published-AllSent r.id s.now e db.outbox sent_r h)))

  module _ (publish : Callback E) (after : Option (Callback E))
      (publish_sends : (v : OutboxEvent) (e : E)
        → (publish v e).0 ≡ none
        → sent v.id (publish v e).1 ≡ true)
      (publish_keeps : (v : OutboxEvent) (id : Uuid) (e : E)
        → sent id e ≡ true
        → sent id (publish v e).1 ≡ true)
      (hook_keeps : (hook : Callback E) (v : OutboxEvent) (id : Uuid) (e : E)
        → after ≡ some hook
        → sent id e ≡ true
        → sent id (hook v e).1 ≡ true) where
    after_hook-AllSent :
        (s : RelayService) (db : Db) (r : OutboxRow) (y : Option Text × E)
        → sent r.id y.1 ≡ true
        → AllSent db y.1
        → let x = after_hook s db r y in AllSent x.1 x.2
    unfolding after_hook
    after_hook-AllSent s db r (some x, e) sent_r h = h
    after_hook-AllSent s db r (none, e) sent_r h = mark-AllSent s db r e sent_r h

    after_publish-AllSent :
        (hook : Option (Callback E)) (s : RelayService) (db : Db) (r : OutboxRow)
        (y : Option Text × E)
        → after ≡ hook
        → (y.0 ≡ none → sent r.id y.1 ≡ true)
        → AllSent db y.1
        → let x = after_publish hook s db r y in AllSent x.1 x.2
    unfolding after_publish
    after_publish-AllSent hook s db r (some x, e) eh sent_r h = h
    after_publish-AllSent none s db r (none, e) eh sent_r h = mark-AllSent s db r e (sent_r refl) h
    after_publish-AllSent (some hook) s db r (none, e) eh sent_r h =
        after_hook-AllSent s db r (hook (event_of r) e)
          (hook_keeps hook (event_of r) r.id e eh (sent_r refl))
          (All-later e _ db.outbox (λ id. hook_keeps hook (event_of r) id e eh) h)

    publish_row-AllSent :
        (s : RelayService) (db : Db) (e : E) (next : Option OutboxRow)
        → AllSent db e
        → let x = publish_row publish after s db e next in AllSent x.1 x.2
    unfolding publish_row
    publish_row-AllSent s db e none h = h
    publish_row-AllSent s db e (some r) h =
        after_publish-AllSent after s db r (publish (event_of r) e) refl
          (publish_sends (event_of r) e)
          (All-later e _ db.outbox (λ id. publish_keeps (event_of r) id e) h)

    -- If a publication without an error reaches the receivers, and what has reached them stays so:
    -- whatever fails in PublishNext, every event that is marked as published has reached them, if
    -- that was so before.
    pub publish_next-AllSent :
        (s : RelayService) (db : Db) (e : E)
        → AllSent db e
        → let x = publish_next (some publish) after s db e in AllSent x.1 x.2
    unfolding publish_next
    publish_next-AllSent s db e h =
        if-AllSent s.begin_fails _ _ h
          (if-AllSent s.select_fails _ _ h (publish_row-AllSent s db e _ h))
