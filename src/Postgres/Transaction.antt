-- ===== src/Postgres/Transaction.antt =====
-- A transaction of package postgresstore. PostgreSQL and pgx are not part of the program: each
-- call of theirs may fail, and the argument `Service` says which do, and how a commit ends. A
-- statement works on the transaction's own tables; they become those of the database only by a
-- commit, and every early return rolls them back (the deferred Rollback).
use bid_lane.Prelude.{ℕ, ◌==◌, Option, none, some, Bool, true, false, if◌then◌else◌}
use bid_lane.Go.Time.{Time}
use bid_lane.Postgres.Schema.{Uuid, Db}
use bid_lane.Postgres.Statements.{PgError, no_rows, unavailable, Outcome, done, failed, Statement}

-- The calls of the service, by what they are for.
pub data Call : Type 0 where
  begin lock_auction check_existing ensure_sequence lock_sequence : Call
  insert_bid read_existing advance_sequence extend insert_outbox : Call

-- `lost`: the server has committed, and the answer did not arrive.
pub data CommitOutcome : Type 0 where
  committed aborted lost : CommitOutcome

-- What the service does during one transaction.
pub record Service : Type 0 where
  pub fails : Call → Bool
  pub commit : CommitOutcome
  pub new_id : Uuid
  pub now : Time

-- The errors that the stores return, by their message, with the error that they wrap.
pub data Error : Type 0 where
  submission_time_required bid_at_or_after_close begin_failed : Error
  lock_auction_failed check_existing_failed ensure_sequence_failed : PgError → Error
  lock_sequence_failed insert_bid_failed read_existing_failed : PgError → Error
  advance_sequence_failed extend_failed insert_outbox_failed : PgError → Error
  advanced_rows inserted_rows : ℕ → Error
  commit_bid_failed commit_duplicate_failed : Error

pub data Result {ℓ} (A : Type ℓ) : Type ℓ where
  ok : A → Result A
  err : Error → Result A

abbrev pub Tx : Type 0 → Type 0
Tx A = Db → Result (A × Db)

module _ {A B : Type 0} where
  infixl 5 ◌>>=◌
  abbrev pub ◌>>=◌ : Tx A → (A → Tx B) → Tx B
  ◌>>=◌ m f db = elim (m db) [ ok (a, db') ↦ f a db' | err e ↦ err e ]

module _ {A : Type 0} where
  abbrev pub pure : A → Tx A
  pure a db = ok (a, db)

  abbrev pub raise : Error → Tx A
  raise e db = err e

  abbrev pub settle : (PgError → Error) → Outcome A → Result (A × Db)
  settle wrap (done a db) = ok (a, db)
  settle wrap (failed e) = err (wrap e)

  -- `tx.Exec`, and `tx.QueryRow` where the code tells ErrNoRows apart from other errors.
  unfoldable pub run : Service → Call → (PgError → Error) → Statement A → Tx A
  run s c wrap q db = elim (s.fails c) [
    | true ↦ err (wrap unavailable)
    | false ↦ settle wrap (q db)
  ]

  -- `Scan` where no row is an error like any other.
  abbrev pub require : (PgError → Error) → Option A → Tx A
  require wrap none = raise (wrap no_rows)
  require wrap (some a) = pure a

  -- `tx.Commit(ctx)`, with the error to return where it fails.
  abbrev pub end_tx : CommitOutcome → Db → Db → A → Error → Result A × Db
  end_tx committed db db' a e = (ok a, db')
  end_tx aborted db db' a e = (err e, db)
  end_tx lost db db' a e = (err e, db')

  -- A transaction from BeginTx on; its body hands the commit a result and a commit error.
  unfoldable pub transact : Service → Tx (A × Error) → Db → Result A × Db
  transact s body db =
      if s.fails begin
      then (err begin_failed, db)
      else elim (body db) [ ok ((a, e), db') ↦ end_tx s.commit db db' a e | err e ↦ (err e, db) ]

-- `if commandTag.RowsAffected() != 1`
abbrev pub expect_one : ℕ → Error → Tx (Unit {0})
expect_one n e = if n == 1 then pure tt else raise e
