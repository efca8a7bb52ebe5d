-- ===== src/Relay/Queue.antt =====
-- The relay as the reader of a queue: what it publishes where nothing fails, in which order.
pub mod Sample
mod Tests
use bid_lane.Prelude.{
  ℕ, zero, suc, ◌+◌, ◌*◌, refl, sym, ap, ◌∙◌, ◌≡◌, ◌∷◌, [], ◌++◌, List, map, map-append,
  append_assoc, append-nil, take, drop, take-zero, drop-zero, take_add, drop_add, none, some,
  Option, Text, Bool, false, true, ◌⊎◌, inl, inr, arith,
}
use bid_lane.Prelude.Int.{ℤ, pos_part}
use bid_lane.Postgres.Schema.{Uuid, OutboxRow, Db}
use bid_lane.Postgres.Outbox.{
  RelayService, PublishError, ok, event_of, publish_next, mark_published,
}
use bid_lane.Postgres.Outbox.Order.{marked}
use bid_lane.Postgres.Outbox.Queue.{
  HasIds, waiting_rows, IsQuiet, publish_next-empty, publish_next-first, waiting_rows-marked,
  mark_published-HasIds,
}
use bid_lane.Relay.{
  PublishedEvent, envelope_of, OutboxRelay, RelayEnding, polling, send, publish_envelope,
  process_one, process_batch, after_batch, run_relay,
}

List-cases :
    {A : Type 0} (rows : List A) → (rows ≡ []) ⊎ ((r : A) × (rest : List A) × (rows ≡ r ∷ rest))
List-cases [] = inl refl
List-cases (r ∷ rest) = inr (r, rest, refl)

-- Nothing fails around the relay: each event has its message, the publisher takes each message and
-- the receivers get it, no call of a transaction fails, no row is locked by others, there is no hook
-- for tests, and the context is never cancelled.
pub record Delivers {E : Type 0} (marshal : PublishedEvent → Text ⊎ Text)
    (message : PublishedEvent → Text) (received : E → List Text) (relay : OutboxRelay E)
    (next_service : E → RelayService × E) (cancelled : E → Bool) (wait : ℤ → E → Bool × E)
    : Type 0 where
  pub marshals : (event : PublishedEvent) → marshal event ≡ inr (message event)
  pub no_hook : relay.config.after_publish_before_mark ≡ none
  pub publishes :
      (m : Text) (e : E)
      → ((relay.publisher relay.config.channel m e).0 ≡ none)
        × (received (relay.publisher relay.config.channel m e).1 ≡ received e ++ m ∷ [])
  pub quiet : (e : E) → IsQuiet (next_service e).0
  pub service_keeps : (e : E) → received (next_service e).1 ≡ received e
  pub goes_on : (e : E) → cancelled e ≡ false
  pub polls : (interval : ℤ) (e : E) → (wait interval e).0 ≡ false
  pub wait_keeps : (interval : ℤ) (e : E) → received (wait interval e).1 ≡ received e

module _ {E : Type 0} (marshal : PublishedEvent → Text ⊎ Text) (message : PublishedEvent → Text)
    (received : E → List Text) (relay : OutboxRelay E) (next_service : E → RelayService × E)
    (cancelled : E → Bool) (wait : ℤ → E → Bool × E)
    (works : Delivers marshal message received relay next_service cancelled wait) where
  abbrev event_message : OutboxRow → Text
  event_message r = message (envelope_of (event_of r))

  abbrev messages : List OutboxRow → List Text
  messages rows = map event_message rows

  -- The first n of the queue before have been published, in their order, and taken off it.
  record Moves (n : ℕ) (db : Db) (e : E) (db' : Db) (e' : E) : Type 0 where
    pub ids : HasIds db'.outbox
    pub sent : received e' ≡ received e ++ messages (take n (waiting_rows db.outbox))
    pub left : waiting_rows db'.outbox ≡ drop n (waiting_rows db.outbox)

  Moves-none : (n : ℕ) (db : Db) (e : E) → n ≡ 0 → HasIds db.outbox → Moves n db e db e
  Moves-none n db e nought ids = record {
    ids = ids;
    sent = rw (nought, take-zero (waiting_rows db.outbox)) (sym (append-nil (received e)));
    left = rw nought (sym (drop-zero (waiting_rows db.outbox)));
  }

  -- A queue that is empty stays so.
  Moves-empty :
      (n : ℕ) (db : Db) (e e' : E)
      → HasIds db.outbox
      → waiting_rows db.outbox ≡ []
      → received e' ≡ received e
      → Moves n db e db e'
  Moves-empty n db e e' ids empty same = record {
    ids = ids;
    sent = rw empty (same ∙ sym (append-nil _));
    left = rw empty refl;
  }

  -- Moves add up.
  Moves-add :
      (m n k : ℕ) (db db' db'' : Db) (e e' e'' : E)
      → k ≡ m + n
      → Moves m db e db' e'
      → Moves n db' e' db'' e''
      → Moves k db e db'' e''
  Moves-add m n k db db' db'' e e' e'' all a b = record {
    ids = b.ids;
    sent =
        rw (all, b.sent, a.sent, a.left, take_add m n (waiting_rows db.outbox))
          (rw
            (map-append event_message (take m (waiting_rows db.outbox))
              (take n (drop m (waiting_rows db.outbox))))
            (append_assoc (received e) _ _));
    left = rw (all, drop_add m n (waiting_rows db.outbox)) (b.left ∙ ap (drop n) a.left);
  }

  envelope_taken :
      (r : OutboxRow) (e : E)
      → let x = publish_envelope marshal relay (event_of r) e in
        (x.0 ≡ none) × (received x.1 ≡ received e ++ message (envelope_of (event_of r)) ∷ [])
  unfolding publish_envelope send
  envelope_taken r e = rw (works.marshals (envelope_of (event_of r))) (works.publishes _ e)

  process_one-first :
      (db : Db) (e : E) (r : OutboxRow) (rest : List OutboxRow)
      → HasIds db.outbox
      → waiting_rows db.outbox ≡ r ∷ rest
      → process_one marshal relay (next_service e).0 db (next_service e).1 ≡ (
        ok true,
        marked (next_service e).0 r db,
        (publish_envelope marshal relay (event_of r) (next_service e).1).1,
      )
  unfolding process_one
  process_one-first db e r rest ids queue = simp works.no_hook (
      publish_next-first (publish_envelope marshal relay) (next_service e).0 (works.quiet e) db
        (next_service e).1 r rest ids queue (envelope_taken r (next_service e).1).0)

  Moves-rest :
      (n : ℕ) (db : Db) (e : E)
      → HasIds db.outbox
      → waiting_rows db.outbox ≡ []
      → let x = process_one marshal relay (next_service e).0 db (next_service e).1 in
        (x.0 ≡ ok false) × Moves n db e x.1 x.2
  unfolding process_one
  Moves-rest n db e ids empty = simp works.no_hook (
      rw
        (publish_next-empty (publish_envelope marshal relay) (next_service e).0 (works.quiet e) db
          (next_service e).1 empty)
        (refl, Moves-empty n db e _ ids empty (works.service_keeps e)))

  Moves-first :
      (db : Db) (e : E) (r : OutboxRow) (rest : List OutboxRow)
      → HasIds db.outbox
      → waiting_rows db.outbox ≡ r ∷ rest
      → let x = process_one marshal relay (next_service e).0 db (next_service e).1 in
        (x.0 ≡ ok true) × Moves 1 db e x.1 x.2
  Moves-first db e r rest ids queue = rw (process_one-first db e r rest ids queue) (
    refl,
    record {
      ids = mark_published-HasIds r.id (next_service e).0.now db.outbox ids;
      sent =
          rw (queue, take-zero rest)
            ((envelope_taken r (next_service e).1).1
              ∙ ap (λ xs. xs ++ event_message r ∷ []) (works.service_keeps e));
      left =
          rw (queue, drop-zero rest)
            (waiting_rows-marked (publish_envelope marshal relay) (next_service e).0 (works.quiet e)
              db r rest ids queue);
    },
  )

  -- A batch of up to n events: it works.publishes the first n of the queue, in their order.
  process_batch-Moves :
      (n processed : ℕ) (db : Db) (e : E)
      → HasIds db.outbox
      → let x = process_batch marshal next_service relay n processed db e in
        (x.0.1 ≡ none) × Moves n db e x.1 x.2
  unfolding process_batch
  process_batch-Moves zero processed db e ids = (refl, Moves-none zero db e refl ids)
  process_batch-Moves (suc n) processed db e ids = elim (List-cases (waiting_rows db.outbox)) [
    | inl empty ↦
        let (no_row, rest) = Moves-rest (suc n) db e ids empty in
        rw (process_batch, no_row) (refl, rest)
    | inr (r, rest, queue) ↦
        let (published, one) = Moves-first db e r rest ids queue in
        let x = process_one marshal relay (next_service e).0 db (next_service e).1 in
        let (no_error, more) = process_batch-Moves n (processed + 1) x.1 x.2 one.ids in
        rw (process_batch, published)
          (no_error, Moves-add 1 n (suc n) _ _ _ _ _ _ (omega arith) one more)
  ]

  Moves-later :
      (n : ℕ) (db db' : Db) (e e' e'' : E)
      → received e'' ≡ received e'
      → Moves n db e db' e'
      → Moves n db e db' e''
  Moves-later n db db' e e' e'' same moves = record {
    ids = moves.ids;
    sent = same ∙ moves.sent;
    left = moves.left;
  }

  -- A round: a batch, and the wait if it was empty.
  after_batch-Moves :
      (n : ℕ) (db : Db) (e : E) (x : (ℕ × Option PublishError) × Db × E)
      (rest : Db → E → RelayEnding × Db × E)
      → x.0.1 ≡ none
      → Moves n db e x.1 x.2
      → (db' : Db) × (e' : E) × (after_batch marshal next_service cancelled wait relay x rest
          ≡ rest db' e')
        × Moves n db e db' e'
  unfolding after_batch
  after_batch-Moves n db e ((p, some y), db', e') rest no_error moves = cc no_error
  after_batch-Moves n db e ((zero, none), db', e') rest no_error moves =
      let interval = relay.config.poll_interval in
      (
        db',
        (wait interval e').1,
        rw (after_batch, works.polls interval e') refl,
        Moves-later n db db' e e' _ (works.wait_keeps interval e') moves,
      )
  after_batch-Moves n db e ((suc p, none), db', e') rest no_error moves = (db', e', refl, moves)

  run_relay-Moves :
      (rounds : ℕ) (db : Db) (e : E)
      → HasIds db.outbox
      → let x = run_relay marshal next_service cancelled wait relay rounds db e in
        (x.0 ≡ polling) × Moves (rounds * pos_part relay.config.batch_size) db e x.1 x.2
  unfolding run_relay
  run_relay-Moves zero db e ids = (refl, Moves-none _ db e (omega arith) ids)
  run_relay-Moves (suc rounds) db e ids =
      let n = pos_part relay.config.batch_size in
      let (no_error, batch) = process_batch-Moves n 0 db e ids in
      let (db', e', next, moves) =
        after_batch-Moves n db e (process_batch marshal next_service relay n 0 db e)
          (run_relay marshal next_service cancelled wait relay rounds) no_error batch in
      let (on, more) = run_relay-Moves rounds db' e' moves.ids in
      rw (run_relay, works.goes_on e, next)
        (on, Moves-add n (rounds * n) (suc rounds * n) _ _ _ _ _ _ (omega arith) moves more)

  -- Where nothing fails, no row is locked by others, ids are a primary key and the context is not
  -- cancelled: after any number of rounds Run of the relay has sent as many of the waiting events
  -- as fit into that many batches, each once, in the order of created_at and id, and exactly the
  -- others wait.
  pub run_relay-publishes :
      (rounds : ℕ) (db : Db) (e : E)
      → HasIds db.outbox
      → let x = run_relay marshal next_service cancelled wait relay rounds db e in
        let n = rounds * pos_part relay.config.batch_size in
        (x.0 ≡ polling)
        × (received x.2 ≡ received e ++ messages (take n (waiting_rows db.outbox)))
        × (waiting_rows x.1.outbox ≡ drop n (waiting_rows db.outbox))
  run_relay-publishes rounds db e ids =
      let (on, moves) = run_relay-Moves rounds db e ids in (on, moves.sent, moves.left)
