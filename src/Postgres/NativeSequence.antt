-- ===== src/Postgres/NativeSequence.antt =====
-- The benchmark path of internal/store/postgres/ledger.go: a PostgreSQL sequence for each auction.
-- What nextval hands out stays handed out, also where the transaction is rolled back.
pub mod Effects
pub mod Increasing
mod Tests
use bid_lane.Prelude.{
  ℕ, suc, ◌+◌, ◌^◌, ◌∷◌, [], ◌++◌, List, Option, none, some, is_some, Text, codes, text_eq, map,
  Bool, true, false, ◌&&◌, ◌==◌, ltb, if◌then◌else◌,
}
use bid_lane.Prelude.Int.{ℤ, pos, leb_ℤ}
use bid_lane.Postgres.Schema.{
  Uuid, Db, Constraint, sequence_no_positive, amount_positive, bid_auction_exists,
  uq_bids_auction_sequence, uq_bids_auction_idempotency, find_auction, find_bid, has_sequence,
}
use bid_lane.Postgres.Statements.{BidToPersist, bid_row, PgError, no_rows, unavailable, violates}
use bid_lane.Postgres.Transaction.{CommitOutcome, committed, aborted, lost}

-- The tables, and how many numbers each native sequence has handed out.
pub record NativeDb : Type 0 where
  pub tables : Db
  pub native : List (Text × ℕ)

unfoldable pub find_native : Text → List (Text × ℕ) → Option ℕ
find_native name [] = none
find_native name ((key, n) ∷ rows) = if text_eq key name then some n else find_native name rows

unfoldable pub bump : Text → List (Text × ℕ) → List (Text × ℕ)
bump name [] = []
bump name ((key, n) ∷ rows) = (if text_eq key name then (key, suc n) else (key, n)) ∷ bump name rows

unfoldable pub remove : Text → List (Text × ℕ) → List (Text × ℕ)
remove name [] = []
remove name ((key, n) ∷ rows) =
    let rest = remove name rows in if text_eq key name then rest else (key, n) ∷ rest

pub data NativeCall : Type 0 where
  create grant drop begin next_value insert : NativeCall

-- Which calls fail, which run but are not answered, and how the commit ends.
pub record NativeService : Type 0 where
  pub fails : NativeCall → Bool
  pub unanswered : NativeCall → Bool
  pub commit : CommitOutcome

pub data NativeError : Type 0 where
  create_failed grant_failed drop_failed begin_failed commit_failed : NativeError
  next_value_failed insert_failed : PgError → NativeError

pub data NativeResult (A : Type 0) : Type 0 where
  ok : A → NativeResult A
  err : NativeError → NativeResult A

abbrev dash_to_underscore : ℕ → ℕ
dash_to_underscore c = if c == b'-' then b'_' else c

-- INSERT INTO bids …: what a row violates, if anything.
unfoldable pub refusal : BidToPersist → ℤ → Db → Option Constraint
refusal bid n db =
    if leb_ℤ n (pos 0)
    then some sequence_no_positive
    else if leb_ℤ bid.amount (pos 0)
    then some amount_positive
    else if has_sequence bid.auction_id n db.bids
    then some uq_bids_auction_sequence
    else if is_some (find_bid bid.auction_id bid.idempotency_key db.bids)
    then some uq_bids_auction_idempotency
    else if is_some (find_auction bid.auction_id db.auctions)
    then none
    else some bid_auction_exists

abbrev pub with_bid : BidToPersist → ℤ → Db → Db
with_bid bid n db = record db { bids = db.bids ++ bid_row bid n ∷ [] }

abbrev commit_bid : CommitOutcome → ℤ → NativeDb → NativeDb → NativeResult ℤ × NativeDb
commit_bid committed n db db' = (ok n, db')
commit_bid aborted n db db' = (err commit_failed, db)
commit_bid lost n db db' = (err commit_failed, db')

-- insertBid and the commit, behind a number that is handed out; a rollback keeps the tables only.
unfoldable insert_and_commit :
    NativeService → BidToPersist → ℕ → NativeDb → NativeResult ℤ × NativeDb
insert_and_commit s bid n db =
    if s.fails insert
    then (err (insert_failed unavailable), db)
    else elim (refusal bid (pos n) db.tables) [
      | some c ↦ (err (insert_failed (violates c)), db)
      | none ↦
          commit_bid s.commit (pos n) db (record db { tables = with_bid bid (pos n) db.tables })
    ]

-- uuid.UUID.String is a parameter.
module _ (uuid_text : Uuid → Text) where
  -- perAuctionSequenceName
  unfoldable pub per_auction_sequence_name : Uuid → Text
  per_auction_sequence_name a = codes "bid_seq_" ++ map dash_to_underscore (uuid_text a)

  -- CREATE SEQUENCE IF NOT EXISTS … START WITH 1 INCREMENT BY 1
  unfoldable create_sequence : Text → List (Text × ℕ) → List (Text × ℕ)
  create_sequence name rows =
      if is_some (find_native name rows) then rows else rows ++ (name, 0) ∷ []

  -- EnsurePostgresSequence: two statements, each a transaction of its own, whose answer may be lost
  -- (GRANT leaves no trace in the tables).
  unfoldable pub ensure_postgres_sequence :
      NativeService → Uuid → NativeDb → NativeResult (Unit {0}) × NativeDb
  unfolding create_sequence
  ensure_postgres_sequence s a db =
      if s.fails create
      then (err create_failed, db)
      else let db' : NativeDb = record db {
        native = create_sequence (per_auction_sequence_name a) db.native;
      } in
        if s.unanswered create
        then (err create_failed, db')
        else if s.fails grant
        then (err grant_failed, db')
        else (ok tt, db')

  -- DropPostgresSequence
  unfoldable pub drop_postgres_sequence :
      NativeService → Uuid → NativeDb → NativeResult (Unit {0}) × NativeDb
  drop_postgres_sequence s a db =
      if s.fails drop
      then (err drop_failed, db)
      else let db' : NativeDb = record db {
        native = remove (per_auction_sequence_name a) db.native;
      } in
        if s.unanswered drop then (err drop_failed, db') else (ok tt, db')

  -- nextval, an int64 at most; then the insertion, on the sequence that has moved.
  unfoldable numbered :
      NativeService → BidToPersist → Option ℕ → NativeDb → NativeResult ℤ × NativeDb
  numbered s bid none db = (err (next_value_failed no_rows), db)
  numbered s bid (some n) db =
      if ltb (suc n) (2 ^ 63)
      then insert_and_commit s bid (suc n)
          (record db { native = bump (per_auction_sequence_name bid.auction_id) db.native })
      else (err (next_value_failed unavailable), db)

  -- AppendBidPostgresSequence
  unfoldable pub append_bid_postgres_sequence :
      NativeService → BidToPersist → NativeDb → NativeResult ℤ × NativeDb
  unfolding numbered insert_and_commit
  append_bid_postgres_sequence s bid db =
      if s.fails begin
      then (err begin_failed, db)
      else if s.fails next_value
      then (err (next_value_failed unavailable), db)
      else numbered s bid (find_native (per_auction_sequence_name bid.auction_id) db.native) db
