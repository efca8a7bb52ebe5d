-- ===== src/Postgres/NativeSequence/Effects.antt =====
-- What a call of AppendBidPostgresSequence has done to the tables and to the sequences.
use bid_lane.Prelude.{
  ℕ, suc, refl, ◌≡◌, ◌<◌, ◌^◌, ◌⊎◌, ltb, inl, inr, none, some, Option, false, arith, Text,
  Option-cases, Bool-cases,
}
use bid_lane.Prelude.Int.{ℤ, pos, ◌≤ℤ◌}
use bid_lane.Postgres.Schema.{Uuid, Db, find_bid, has_sequence}
use bid_lane.Postgres.Statements.{BidToPersist}
use bid_lane.Postgres.Transaction.{CommitOutcome, committed, aborted, lost}
use bid_lane.Postgres.NativeSequence.{
  NativeDb, find_native, bump, NativeService, NativeResult, ok, err, begin, next_value, insert,
  refusal, with_bid, per_auction_sequence_name, append_bid_postgres_sequence, commit_bid,
  insert_and_commit, numbered,
}

-- A number that the sequence had not handed out is handed out now, and goes to nobody else.
pub record IsIssued (name : Text) (db : NativeDb) (n : ℕ) (db' : NativeDb) : Type 0 where
  pub issued : ℕ
  pub sequence : find_native name db.native ≡ some issued
  pub next : n ≡ suc issued
  pub bounded : n < 2 ^ 63
  pub native : db'.native ≡ bump name db.native

-- The bid has the number, and its row stands behind the others.
pub record IsNumbered (name : Text) (bid : BidToPersist) (db : NativeDb) (n : ℕ) (db' : NativeDb)
    : Type 0 where
  pub issue : IsIssued name db n db'
  pub amount : pos 1 ≤ℤ bid.amount
  pub free : has_sequence bid.auction_id (pos n) db.tables.bids ≡ false
  pub fresh : find_bid bid.auction_id bid.idempotency_key db.tables.bids ≡ none
  pub tables : db'.tables ≡ with_bid bid (pos n) db.tables

-- How a call can end. After an error the tables are as they were, unless the answer to the commit
-- was lost; but the sequence may have moved, which leaves a gap.
abbrev pub Effect :
    Text → NativeService → BidToPersist → NativeDb → NativeResult ℤ × NativeDb → Type 0
Effect name s bid db (ok r, db') = (n : ℕ) × (r ≡ pos n) × IsNumbered name bid db n db'
Effect name s bid db (err e, db') =
    (db' ≡ db)
    ⊎ ((n : ℕ) × IsIssued name db n db' × (db'.tables ≡ db.tables))
    ⊎ ((s.commit ≡ lost) × (n : ℕ) × IsNumbered name bid db n db')

refusal_free :
    (bid : BidToPersist) (n : ℤ) (db : Db)
    → refusal bid n db ≡ none
    → (pos 1 ≤ℤ bid.amount)
      × (has_sequence bid.auction_id n db.bids ≡ false)
      × (find_bid bid.auction_id bid.idempotency_key db.bids ≡ none)
unfolding refusal
refusal_free bid n db h = ground arith

-- The insertion, where the sequence has moved from `old` to `db`.
module _ (name : Text) (s : NativeService) (bid : BidToPersist) (old : NativeDb) where
  commit-Effect :
      (c : CommitOutcome) (n : ℕ) (db db' : NativeDb)
      → s.commit ≡ c
      → IsIssued name old n db
      → db.tables ≡ old.tables
      → IsNumbered name bid old n db'
      → Effect name s bid old (commit_bid c (pos n) db db')
  commit-Effect committed n db db' e i t row = (n, refl, row)
  commit-Effect aborted n db db' e i t row = inr (inl (n, i, t))
  commit-Effect lost n db db' e i t row = inr (inr (e, n, row))

  insert-Effect :
      (n : ℕ) (db : NativeDb)
      → IsIssued name old n db
      → db.tables ≡ old.tables
      → Effect name s bid old (insert_and_commit s bid n db)
  unfolding insert_and_commit
  insert-Effect n db i t = elim (Bool-cases (s.fails insert)) [
    | inl e ↦ rw e (inr (inl (n, i, t)))
    | inr e ↦ elim (Option-cases (refusal bid (pos n) db.tables)) [
      | inr (c, refused) ↦ rw (e, refused) (inr (inl (n, i, t)))
      | inl accepted ↦
          let (amount, free, fresh) = refusal_free bid (pos n) db.tables accepted in
          rw (e, accepted)
            (commit-Effect s.commit n db _ refl i t (record {
              issue = record {
                issued = i.issued;
                sequence = i.sequence;
                next = i.next;
                bounded = i.bounded;
                native = i.native;
              };
              amount = amount;
              free = rw (← t) free;
              fresh = rw (← t) fresh;
              tables = rw t refl;
            }))
    ]
  ]

module _ (uuid_text : Uuid → Text) (s : NativeService) (bid : BidToPersist) (db : NativeDb) where
  abbrev name : Text
  name = per_auction_sequence_name uuid_text bid.auction_id

  numbered-Effect :
      (found : Option ℕ)
      → find_native name db.native ≡ found
      → Effect name s bid db (numbered uuid_text s bid found db)
  unfolding numbered
  numbered-Effect none e = inl refl
  numbered-Effect (some k) e = elim (Bool-cases (ltb (suc k) (2 ^ 63))) [
    | inl below ↦ rw below (
        insert-Effect name s bid db (suc k) _
          (record { issued = k; sequence = e; next = refl; bounded = ground arith; native = refl })
          refl)
    | inr above ↦ rw above (inl refl)
  ]

  -- However a call of AppendBidPostgresSequence goes: a number means that the sequence handed it
  -- out now, below 2^63, and that the row with it was written; an error means that nothing
  -- changed, or that the sequence alone moved on and left a gap, unless the answer to the commit
  -- of the row was lost.
  pub native-Effect : Effect name s bid db (append_bid_postgres_sequence uuid_text s bid db)
  unfolding append_bid_postgres_sequence
  native-Effect = elim (Bool-cases (s.fails begin)) [
    | inl b ↦ rw b (inl refl)
    | inr b ↦ elim (Bool-cases (s.fails next_value)) [
      | inl v ↦ rw (b, v) (inl refl)
      | inr v ↦ rw (b, v) (numbered-Effect _ refl)
    ]
  ]
