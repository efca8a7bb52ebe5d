-- ===== src/Postgres/Isolation/Append.antt =====
-- The transactions of the ledger run on the rows of their auction as on the tables.
use bid_lane.Prelude.{
  ℕ, refl, ◌≡◌, inl, inr, Option, none, some, Bool, Bool-cases, true, false, not, ◌==◌, arith,
  if◌then◌else◌, if_elim, subst,
}
use bid_lane.Prelude.Int.{ℤ, pos}
use bid_lane.Go.Int64.{add64}
use bid_lane.Go.Time.{Time, is_zero, before}
use bid_lane.Postgres.Schema.{Uuid, Db, Payload}
use bid_lane.Postgres.Statements.{
  BidToPersist, PgError, select_auction, select_bid, insert_sequence, select_sequence,
  insert_bid_on_conflict, update_sequence, extend_auction, insert_outbox, has_id,
}
use bid_lane.Postgres.Transaction.{
  Service, Call, Error, CommitOutcome, committed, aborted, lost, Result, err, Tx, pure, expect_one,
  run, require, transact, end_tx, begin, lock_auction_failed, check_existing, check_existing_failed,
  submission_time_required, lock_sequence_failed, read_existing_failed, commit_duplicate_failed,
}
use bid_lane.Postgres.AntiSnipe.{
  insert_bid_accepted_outbox, finish_new, observe_duplicate, insert_new, append_new, append_body,
  duplicate, append_bid_idempotent_with_anti_snipe,
}
use bid_lane.Postgres.Isolation.{restrict}
use bid_lane.Postgres.Isolation.Local.{
  narrowed, localized, IsLocal, Result-cases, run-IsLocal, run-IsSeparate, IsSeparate, bind-IsLocal,
  bind-IsLocal_last, select_auction-local, select_bid-local, insert_sequence-local,
  select_sequence-local, insert_bid-local, update_sequence-local, extend_auction-local,
  insert_outbox-local,
}

-- The event's insertion is the last statement of a transaction.
module _ (bid : BidToPersist) (i : Uuid) where
  require-IsSeparate :
      {A : Type 0} (wrap : PgError → Error) (o : Option A)
      → IsSeparate bid.auction_id i (require wrap o)
  require-IsSeparate wrap none = record { local = λ db new. refl; keeps = λ db db' x e. cc }
  require-IsSeparate wrap (some y) = record {
    local = λ db new. refl;
    keeps = λ db db' x e. ground (arith, e);
  }

  expect_one-IsSeparate : (n : ℕ) (e : Error) → IsSeparate bid.auction_id i (expect_one n e)
  expect_one-IsSeparate n e =
      if_elim (IsSeparate bid.auction_id i) (n == 1) _ _
        (record { local = λ db new. refl; keeps = λ db db' x h. ground (arith, h) })
        (record { local = λ db new. refl; keeps = λ db db' x h. cc })

  select_bid-IsSeparate :
      (s : Service) (c : Call) (wrap : PgError → Error)
      → IsSeparate bid.auction_id i (run s c wrap (select_bid bid.auction_id bid.idempotency_key))
  unfolding select_bid
  select_bid-IsSeparate s c wrap =
      run-IsSeparate bid.auction_id i s c wrap _ (select_bid-local _ _)
        (λ db db' x e. ground (arith, e))

  select_auction-IsSeparate :
      (s : Service) (c : Call) (wrap : PgError → Error)
      → IsSeparate bid.auction_id i (run s c wrap (select_auction bid.auction_id))
  unfolding select_auction
  select_auction-IsSeparate s c wrap =
      run-IsSeparate bid.auction_id i s c wrap _ (select_auction-local _)
        (λ db db' x e. ground (arith, e))

  select_sequence-IsSeparate :
      (s : Service) (c : Call) (wrap : PgError → Error)
      → IsSeparate bid.auction_id i (run s c wrap (select_sequence bid.auction_id))
  unfolding select_sequence
  select_sequence-IsSeparate s c wrap =
      run-IsSeparate bid.auction_id i s c wrap _ (select_sequence-local _)
        (λ db db' x e. ground (arith, e))

  insert_sequence-IsSeparate :
      (s : Service) (c : Call) (wrap : PgError → Error)
      → IsSeparate bid.auction_id i (run s c wrap (insert_sequence bid.auction_id))
  unfolding insert_sequence
  insert_sequence-IsSeparate s c wrap =
      run-IsSeparate bid.auction_id i s c wrap _ (insert_sequence-local _)
        (λ db db' x e. ground (arith, e))

  insert_bid-IsSeparate :
      (n : ℤ) (s : Service) (c : Call) (wrap : PgError → Error)
      → IsSeparate bid.auction_id i (run s c wrap (insert_bid_on_conflict bid n))
  unfolding insert_bid_on_conflict
  insert_bid-IsSeparate n s c wrap =
      run-IsSeparate bid.auction_id i s c wrap _ (insert_bid-local bid n)
        (λ db db' x e. ground (arith, e))

  update_sequence-IsSeparate :
      (new old : ℤ) (s : Service) (c : Call) (wrap : PgError → Error)
      → IsSeparate bid.auction_id i (run s c wrap (update_sequence bid.auction_id new old))
  unfolding update_sequence
  update_sequence-IsSeparate new old s c wrap =
      run-IsSeparate bid.auction_id i s c wrap _ (update_sequence-local _ new old)
        (λ db db' x e. ground (arith, e))

  extend_auction-IsSeparate :
      (t : Time) (s : Service) (c : Call) (wrap : PgError → Error)
      → IsSeparate bid.auction_id i (run s c wrap (extend_auction bid.auction_id t))
  unfolding extend_auction
  extend_auction-IsSeparate t s c wrap =
      run-IsSeparate bid.auction_id i s c wrap _ (extend_auction-local _ t)
        (λ db db' x e. ground (arith, e))

module _ (s : Service) (bid : BidToPersist) (t : Time) where
  abbrev Local : {A : Type 0} → Tx A → Type 0
  Local m = IsLocal bid.auction_id s.new_id m

  pure-IsLocal : {A : Type 0} (x : A) → Local (pure x)
  pure-IsLocal x db new = refl

  insert_event-IsLocal :
      (payload : Payload)
      → payload.auction_id ≡ bid.auction_id
      → Local (insert_bid_accepted_outbox s payload)
  unfolding insert_bid_accepted_outbox
  insert_event-IsLocal payload own =
      bind-IsLocal_last bid.auction_id s.new_id _ _
        (run-IsLocal bid.auction_id s.new_id s _ _ _ (λ db new.
          subst
            (λ a.
              insert_outbox s.new_id s.now payload (restrict a db)
              ≡ narrowed a (insert_outbox s.new_id s.now payload db))
            own (insert_outbox-local s.new_id s.now payload db new)))
        (λ rows db.
          if_elim
            (λ (m : Tx (Unit {0})).
              m (restrict bid.auction_id db) ≡ localized bid.auction_id (m db))
            (rows == 1) _ _ refl refl)

  finish_new-IsLocal :
      (close : Time) (count : ℕ) (last next n : ℤ)
      → Local (finish_new s bid t close count last next n)
  unfolding finish_new
  finish_new-IsLocal close count last next n =
      let a = bid.auction_id in
      let i = s.new_id in
      bind-IsLocal a i _ _ (update_sequence-IsSeparate bid i next last s _ _) λ rows.
        bind-IsLocal a i _ _ (expect_one-IsSeparate bid i rows _) λ _.
          bind-IsLocal a i _ _ (extend_auction-IsSeparate bid i t s _ _)
            λ row. bind-IsLocal_last a i _ _ (insert_event-IsLocal _ refl) (λ _ db. refl)

  observe_duplicate-IsLocal :
      (close : Time) (count : ℕ) → Local (observe_duplicate s bid close count)
  unfolding observe_duplicate
  observe_duplicate-IsLocal close count =
      let a = bid.auction_id in
      let i = s.new_id in
      bind-IsLocal a i _ _ (select_bid-IsSeparate bid i s _ _) λ row.
        bind-IsLocal a i _ _ (require-IsSeparate bid i read_existing_failed row)
          λ n. pure-IsLocal (duplicate n close count, commit_duplicate_failed)

  inserted-IsLocal :
      (close : Time) (count : ℕ) (last next : ℤ) (o : Option ℤ)
      → Local (elim o [
        | none ↦ observe_duplicate s bid close count
        | some n ↦ finish_new s bid t close count last next n
      ])
  inserted-IsLocal close count last next none = observe_duplicate-IsLocal close count
  inserted-IsLocal close count last next (some n) = finish_new-IsLocal close count last next n

  insert_new-IsLocal :
      (close : Time) (count : ℕ) (last : ℤ) → Local (insert_new s bid t close count last)
  unfolding insert_new
  insert_new-IsLocal close count last =
      bind-IsLocal bid.auction_id s.new_id _ _ (insert_bid-IsSeparate bid s.new_id _ s _ _)
        (inserted-IsLocal close count last (add64 last (pos 1)))

  append_new-IsLocal : (close : Time) (count : ℕ) → Local (append_new s bid t close count)
  unfolding append_new
  append_new-IsLocal close count =
      let a = bid.auction_id in
      let i = s.new_id in
      if_elim (IsLocal a i) (not (before t close)) _ _ (λ db new. refl)
        (bind-IsLocal a i _ _ (insert_sequence-IsSeparate bid i s _ _) λ _.
          bind-IsLocal a i _ _ (select_sequence-IsSeparate bid i s _ _) λ row.
            bind-IsLocal a i _ _ (require-IsSeparate bid i lock_sequence_failed row)
              (insert_new-IsLocal close count))

  met-IsLocal :
      (close : Time) (count : ℕ) (o : Option ℤ)
      → Local (elim o [
        | some n ↦ pure (duplicate n close count, commit_duplicate_failed)
        | none ↦ append_new s bid t close count
      ])
  met-IsLocal close count none = append_new-IsLocal close count
  met-IsLocal close count (some n) = pure-IsLocal (duplicate n close count, commit_duplicate_failed)

  append_body-IsLocal : Local (append_body s bid t)
  unfolding append_body
  append_body-IsLocal =
      let a = bid.auction_id in
      let i = s.new_id in
      bind-IsLocal a i _ _ (select_auction-IsSeparate bid i s _ _) λ row.
        bind-IsLocal a i _ _ (require-IsSeparate bid i lock_auction_failed row) λ (close, count).
          bind-IsLocal a i _ _ (select_bid-IsSeparate bid i s check_existing check_existing_failed)
            (met-IsLocal close count)

  end_tx-local :
      {A : Type 0} (a : Uuid) (c : CommitOutcome) (db db' : Db) (x : A) (e : Error)
      → end_tx c (restrict a db) (restrict a db') x e
        ≡ ((end_tx c db db' x e).0, restrict a (end_tx c db db' x e).1)
  end_tx-local a committed db db' x e = refl
  end_tx-local a aborted db db' x e = refl
  end_tx-local a lost db db' x e = refl

  transact-local :
      {A : Type 0} (a i : Uuid) (body : Tx (A × Error)) (db : Db)
      → IsLocal a i body
      → has_id i db.outbox ≡ false
      → transact s body (restrict a db)
        ≡ ((transact s body db).0, restrict a (transact s body db).1)
  unfolding transact
  transact-local a i body db local new = elim (Bool-cases (s.fails begin)) [
    | inl b ↦ rw (transact, b) refl
    | inr b ↦ elim (Result-cases (body db)) [
      | inl ((x, e), db', h) ↦
          rw (transact, b, local db new, h) (end_tx-local a s.commit db db' x e)
      | inr (e, h) ↦ rw (transact, b, local db new, h) refl
    ]
  ]

  guarded :
      {A : Type 0} (a : Uuid) (c : Bool) (e : Error) (db : Db) (x y : Result A × Db)
      → y ≡ (x.0, restrict a x.1)
      → (if c then (err e, restrict a db) else y)
        ≡ ((if c then (err e, db) else x).0, restrict a (if c then (err e, db) else x).1)
  guarded a true e db x y h = refl
  guarded a false e db x y h = h

  -- If the id of its event is new: the transaction on the rows of its auction has the result that it
  -- has on the tables, and leaves the rows that it leaves there.
  pub append-restrict :
      (db : Db)
      → has_id s.new_id db.outbox ≡ false
      → append_bid_idempotent_with_anti_snipe s bid t (restrict bid.auction_id db) ≡ (
        (append_bid_idempotent_with_anti_snipe s bid t db).0,
        restrict bid.auction_id (append_bid_idempotent_with_anti_snipe s bid t db).1,
      )
  unfolding append_bid_idempotent_with_anti_snipe
  append-restrict db new =
      guarded bid.auction_id (is_zero t) submission_time_required db
        (transact s (append_body s bid t) db) _
        (transact-local bid.auction_id s.new_id (append_body s bid t) db append_body-IsLocal new)
