-- ===== src/Postgres/Isolation/Local.antt =====
-- Statements and transactions for an auction run on its rows as they run on the tables.
use bid_lane.Prelude.{
  refl, ◌≡◌, ◌⊎◌, inl, inr, ◌∷◌, [], Option-cases, Bool-cases, false, ==_refl, arith,
}
use bid_lane.Prelude.Int.{ℤ, pos}
use bid_lane.Go.Time.{Time}
use bid_lane.Postgres.Schema.{Uuid, AuctionSequence, Bid, OutboxRow, Db, Payload, find_auction}
use bid_lane.Postgres.Statements.{
  PgError, BidToPersist, Outcome, done, failed, Statement, select_auction, select_bid,
  insert_sequence, select_sequence, insert_bid_on_conflict, update_sequence, extend_auction,
  insert_outbox, has_id, bid_row, outbox_row, bid_accepted,
}
use bid_lane.Postgres.Transaction.{Service, Call, Error, Result, ok, err, Tx, ◌>>=◌, run, settle}
use bid_lane.Postgres.Isolation.{
  rows_of, restrict, rows_of-append, find_auction-rows_of, find_sequence-rows_of, find_bid-rows_of,
  has_sequence-rows_of, has_event-rows_of, count_matches-rows_of, returning-rows_of,
  set_matches-rows_of, extend_rows-rows_of, has_id-rows_of,
}

abbrev pub narrowed : {A : Type 0} → Uuid → Outcome A → Outcome A
narrowed a (done x db) = done x (restrict a db)
narrowed a (failed e) = failed e

abbrev pub localized : {A : Type 0} → Uuid → Result (A × Db) → Result (A × Db)
localized a (ok (x, db)) = ok (x, restrict a db)
localized a (err e) = err e

pub select_auction-local :
    (a : Uuid) (db : Db) → select_auction a (restrict a db) ≡ narrowed a (select_auction a db)
unfolding select_auction
select_auction-local a db = elim (Option-cases (find_auction a db.auctions)) [
  | inl e ↦ rw (select_auction, find_auction-rows_of, e) refl
  | inr (r, e) ↦ rw (select_auction, find_auction-rows_of, e) refl
]

pub select_bid-local :
    (a key : Uuid) (db : Db) → select_bid a key (restrict a db) ≡ narrowed a (select_bid a key db)
unfolding select_bid
select_bid-local a key db = rw find_bid-rows_of refl

pub select_sequence-local :
    (a : Uuid) (db : Db) → select_sequence a (restrict a db) ≡ narrowed a (select_sequence a db)
unfolding select_sequence
select_sequence-local a db = rw find_sequence-rows_of refl

pub insert_sequence-local :
    (a : Uuid) (db : Db) → insert_sequence a (restrict a db) ≡ narrowed a (insert_sequence a db)
unfolding insert_sequence rows_of
insert_sequence-local a db = ground (
  arith,
  find_sequence-rows_of a db.sequences,
  find_auction-rows_of a db.auctions,
  ==_refl a,
  rows_of-append (λ (r : AuctionSequence). r.auction_id) a db.sequences
      (record { auction_id = a; last_seq = pos 0 } ∷ []),
)

pub insert_bid-local :
    (bid : BidToPersist) (n : ℤ) (db : Db)
    → insert_bid_on_conflict bid n (restrict bid.auction_id db)
      ≡ narrowed bid.auction_id (insert_bid_on_conflict bid n db)
unfolding insert_bid_on_conflict rows_of
insert_bid-local bid n db =
    let a = bid.auction_id in
    ground (
      arith,
      find_bid-rows_of a bid.idempotency_key db.bids,
      has_sequence-rows_of a n db.bids,
      find_auction-rows_of a db.auctions,
      ==_refl a,
      rows_of-append (λ (r : Bid). r.auction_id) a db.bids (bid_row bid n ∷ []),
    )

pub update_sequence-local :
    (a : Uuid) (new old : ℤ) (db : Db)
    → update_sequence a new old (restrict a db) ≡ narrowed a (update_sequence a new old db)
unfolding update_sequence
update_sequence-local a new old db =
    ground
      (arith, count_matches-rows_of a old db.sequences, set_matches-rows_of a new old db.sequences)

pub extend_auction-local :
    (a : Uuid) (t : Time) (db : Db)
    → extend_auction a t (restrict a db) ≡ narrowed a (extend_auction a t db)
unfolding extend_auction
extend_auction-local a t db = rw (returning-rows_of, extend_rows-rows_of) refl

pub insert_outbox-local :
    (i : Uuid) (now : Time) (payload : Payload) (db : Db)
    → has_id i db.outbox ≡ false
    → insert_outbox i now payload (restrict payload.auction_id db)
      ≡ narrowed payload.auction_id (insert_outbox i now payload db)
unfolding insert_outbox rows_of
insert_outbox-local i now payload db new =
    let a = payload.auction_id in
    ground (
      arith,
      new,
      has_id-rows_of i a db.outbox new,
      has_event-rows_of bid_accepted a payload.sequence_no db.outbox,
      ==_refl a,
      rows_of-append (λ (r : OutboxRow). r.aggregate_id) a db.outbox
          (outbox_row i now payload ∷ []),
    )

settle-local :
    {A : Type 0} (a : Uuid) (wrap : PgError → Error) (y : Outcome A)
    → settle wrap (narrowed a y) ≡ localized a (settle wrap y)
settle-local a wrap (done x db) = refl
settle-local a wrap (failed e) = refl

settle-keeps :
    {A : Type 0} (wrap : PgError → Error) (y : Outcome A) (db db' : Db) (x : A)
    → (y ≡ done x db' → db'.outbox ≡ db.outbox)
    → settle wrap y ≡ ok (x, db')
    → db'.outbox ≡ db.outbox
settle-keeps wrap (done z db2) db db' x keeps e = keeps (cc e)
settle-keeps wrap (failed z) db db' x keeps e = cc

pub Result-cases :
    {A : Type 0} (y : Result (A × Db))
    → ((x : A) × (db : Db) × (y ≡ ok (x, db))) ⊎ ((e : Error) × (y ≡ err e))
Result-cases (ok (x, db)) = inl (x, db, refl)
Result-cases (err e) = inr (e, refl)

-- Transactions, up to an id that no event has yet.
module _ (a i : Uuid) where
  abbrev pub IsLocal : {A : Type 0} → Tx A → Type 0
  IsLocal m = (db : Db) → has_id i db.outbox ≡ false → m (restrict a db) ≡ localized a (m db)

  abbrev pub KeepsOutbox : {A : Type 0} → Tx A → Type 0
  KeepsOutbox {A} m = (db db' : Db) (x : A) → m db ≡ ok (x, db') → db'.outbox ≡ db.outbox

  pub run-IsLocal :
      {A : Type 0} (s : Service) (c : Call) (wrap : PgError → Error) (q : Statement A)
      → ((db : Db) → has_id i db.outbox ≡ false → q (restrict a db) ≡ narrowed a (q db))
      → IsLocal (run s c wrap q)
  unfolding run
  run-IsLocal s c wrap q local db new = elim (Bool-cases (s.fails c)) [
    | inl e ↦ rw (run, e) refl
    | inr e ↦ rw (run, e, local db new) (settle-local a wrap (q db))
  ]

  -- Both, as everything before the event's insertion.
  pub record IsSeparate {A : Type 0} (m : Tx A) : Type 0 where
    pub local : IsLocal m
    pub keeps : KeepsOutbox m

  run-KeepsOutbox :
      {A : Type 0} (s : Service) (c : Call) (wrap : PgError → Error) (q : Statement A)
      → ((db db' : Db) (x : A) → q db ≡ done x db' → db'.outbox ≡ db.outbox)
      → KeepsOutbox (run s c wrap q)
  unfolding run
  run-KeepsOutbox s c wrap q keeps db db' x e = elim (Bool-cases (s.fails c)) [
    | inl f ↦ absurd (ground (arith, f, e))
    | inr f ↦ settle-keeps wrap (q db) db db' x (keeps db db' x) (rw (run, f) at e)
  ]

  pub run-IsSeparate :
      {A : Type 0} (s : Service) (c : Call) (wrap : PgError → Error) (q : Statement A)
      → ((db : Db) → q (restrict a db) ≡ narrowed a (q db))
      → ((db db' : Db) (x : A) → q db ≡ done x db' → db'.outbox ≡ db.outbox)
      → IsSeparate (run s c wrap q)
  run-IsSeparate s c wrap q local keeps = record {
    local = run-IsLocal s c wrap q (λ db _. local db);
    keeps = run-KeepsOutbox s c wrap q keeps;
  }

  pub bind-IsLocal :
      {A B : Type 0} (m : Tx A) (f : A → Tx B)
      → IsSeparate m
      → ((x : A) → IsLocal (f x))
      → IsLocal (m >>= f)
  bind-IsLocal m f hm hf db new = elim (Result-cases (m db)) [
    | inl (x, db', e) ↦ rw (◌>>=◌, hm.local db new, e) (hf x db' (rw (hm.keeps db db' x e) new))
    | inr (x, e) ↦ rw (◌>>=◌, hm.local db new, e) refl
  ]

  -- The last statement may use the id.
  pub bind-IsLocal_last :
      {A B : Type 0} (m : Tx A) (f : A → Tx B)
      → IsLocal m
      → ((x : A) (db : Db) → f x (restrict a db) ≡ localized a (f x db))
      → IsLocal (m >>= f)
  bind-IsLocal_last m f hm hf db new = elim (Result-cases (m db)) [
    | inl (x, db', e) ↦ rw (◌>>=◌, hm db new, e) (hf x db')
    | inr (x, e) ↦ rw (◌>>=◌, hm db new, e) refl
  ]
