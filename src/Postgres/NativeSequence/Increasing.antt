-- ===== src/Postgres/NativeSequence/Increasing.antt =====
-- The numbers of an auction under the native sequence: they may have gaps, but only ever rise.
use bid_lane.Prelude.{ℕ, ◌≡◌, ◌<◌, ◌≤◌, ◌∷◌, [], List, some, Text}
use bid_lane.Prelude.Int.{ℤ, pos}
use bid_lane.Postgres.Schema.{Uuid}
use bid_lane.Postgres.Statements.{BidToPersist}
use bid_lane.Postgres.Numbering.Invariant.{numbers}
use bid_lane.Postgres.NativeSequence.{
  NativeDb, find_native, NativeService, per_auction_sequence_name, ensure_postgres_sequence,
  append_bid_postgres_sequence,
}

-- The numbers rise strictly from above `low` to `high` at most.
abbrev pub Rises : ℕ → ℕ → List ℤ → Type 0
Rises low high [] = low ≤ high
Rises low high (x ∷ xs) = (n : ℕ) × (x ≡ pos n) × (low < n) × Rises n high xs

-- Calls of the two operations, in the order in which they end.
pub data NativeOperation : Type 0 where
  ensure : NativeService → Uuid → NativeOperation
  append : NativeService → BidToPersist → NativeOperation

module _ (uuid_text : Uuid → Text) where
  -- The auction has a sequence, and its numbers rise to at most what that has handed out.
  pub record IsRising (a : Uuid) (db : NativeDb) : Type 0 where
    pub issued : ℕ
    pub sequence : find_native (per_auction_sequence_name uuid_text a) db.native ≡ some issued
    pub rises : Rises 0 issued (numbers a db.tables.bids)

  unfoldable pub native_history : List NativeOperation → NativeDb → NativeDb
  native_history [] db = db
  native_history (ensure s a ∷ rest) db =
      native_history rest (ensure_postgres_sequence uuid_text s a db).1
  native_history (append s bid ∷ rest) db =
      native_history rest (append_bid_postgres_sequence uuid_text s bid db).1
