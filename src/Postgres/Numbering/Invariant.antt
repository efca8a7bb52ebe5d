-- ===== src/Postgres/Numbering/Invariant.antt =====
-- The ledger of an auction: its bids are numbered 1, 2, …, n in the order of their insertion, the
-- counter holds n, and no two of them have one idempotency key.
use bid_lane.Prelude.{
  ℕ, zero, suc, refl, sym, ◌<◌, ◌^◌, ◌≡◌, ◌≢◌, ==_refl, subst, ◌∷◌, [], ◌++◌, none, List, Bool,
  false, ◌==◌, ◌||◌, arith, if◌then◌else◌,
}
use native.Mathlib.Decide.{ℕ_discrete}
use bid_lane.Prelude.Int.{ℤ, pos, ◌≤ℤ◌, ◌+ℤ◌}
use bid_lane.Go.Int64.{add64, wrap64}
use bid_lane.Postgres.Schema.{Uuid, Bid, Db, find_bid}
use bid_lane.Postgres.Statements.{BidToPersist}
use bid_lane.Postgres.Numbering.{last_seq_of, next_seq, Inserts}
use bid_lane.Postgres.Numbering.Counter.{counter_moved, counter_kept}

-- The numbers of an auction's bids, and their keys.
unfoldable pub numbers : Uuid → List Bid → List ℤ
numbers a [] = []
numbers a (r ∷ rows) =
    let rest = numbers a rows in if r.auction_id == a then r.sequence_no ∷ rest else rest

unfoldable pub keys : Uuid → List Bid → List Uuid
keys a [] = []
keys a (r ∷ rows) =
    let rest = keys a rows in if r.auction_id == a then r.idempotency_key ∷ rest else rest

-- 1, 2, …, n
abbrev pub count_up : ℕ → List ℤ
count_up zero = []
count_up (suc n) = count_up n ++ pos (suc n) ∷ []

abbrev occurs : ℕ → List ℕ → Bool
occurs k [] = false
occurs k (x ∷ xs) = x == k || occurs k xs

abbrev pub Distinct : List ℕ → Type 0
Distinct [] = Unit
Distinct (x ∷ xs) = (occurs x xs ≡ false) × Distinct xs

pub record IsLedger (a : Uuid) (db : Db) : Type 0 where
  pub total : ℕ
  pub bounded : total < 2 ^ 63
  pub gap_free : numbers a db.bids ≡ count_up total
  pub counter : last_seq_of a db ≡ pos total
  pub distinct : Distinct (keys a db.bids)

pub numbers-append :
    (a : Uuid) (rows : List Bid) (r : Bid)
    → numbers a (rows ++ r ∷ [])
      ≡ (if r.auction_id == a then numbers a rows ++ r.sequence_no ∷ [] else numbers a rows)
unfolding numbers
numbers-append a [] r = ground arith
numbers-append a (q ∷ rows) r = ground (arith, numbers-append a rows r)

keys-append :
    (a : Uuid) (rows : List Bid) (r : Bid)
    → keys a (rows ++ r ∷ [])
      ≡ (if r.auction_id == a then keys a rows ++ r.idempotency_key ∷ [] else keys a rows)
unfolding keys
keys-append a [] r = ground arith
keys-append a (q ∷ rows) r = ground (arith, keys-append a rows r)

occurs-append : (k j : ℕ) (xs : List ℕ) → occurs k (xs ++ j ∷ []) ≡ (occurs k xs || j == k)
occurs-append k j [] = ground arith
occurs-append k j (x ∷ xs) = ground (arith, occurs-append k j xs)

Distinct-append :
    (k : ℕ) (xs : List ℕ) → Distinct xs → occurs k xs ≡ false → Distinct (xs ++ k ∷ [])
Distinct-append k [] d e = ground arith
Distinct-append k (x ∷ xs) d e = ground (arith, Distinct-append k xs d.1, occurs-append x k xs)

-- A key that no row of the auction has is not among its keys.
fresh_key :
    (a key : Uuid) (rows : List Bid) → find_bid a key rows ≡ none → occurs key (keys a rows) ≡ false
unfolding find_bid keys
fresh_key a key [] e = refl
fresh_key a key (r ∷ rows) e = ground (arith, fresh_key a key rows)

-- The number behind n, if it is positive as an int64, is n + 1.
add64_next :
    (n : ℕ)
    → n < 2 ^ 63
    → pos 1 ≤ℤ add64 (pos n) (pos 1)
    → (add64 (pos n) (pos 1) ≡ pos (suc n)) × (suc n < 2 ^ 63)
unfolding add64 wrap64 ◌+ℤ◌
add64_next n h p = ground arith

Inserts-IsLedger_self :
    (bid : BidToPersist) (db db' : Db)
    → Inserts bid db db'
    → IsLedger bid.auction_id db
    → IsLedger bid.auction_id db'
unfolding next_seq last_seq_of
Inserts-IsLedger_self bid db db' i l =
    let a = bid.auction_id in
    let (exact, below) = add64_next l.total l.bounded (rw (← l.counter) i.positive_number) in
    let next : next_seq a db ≡ pos (suc l.total) = rw l.counter exact in
    record {
      total = suc l.total;
      bounded = below;
      gap_free = rw (i.bids, numbers-append, ==_refl, l.gap_free, next);
      counter = rw (i.sequences, counter_moved a (next_seq a db) db) next;
      distinct =
          rw (i.bids, keys-append, ==_refl)
            (Distinct-append bid.idempotency_key _ l.distinct (fresh_key a _ db.bids i.fresh));
    }

Inserts-IsLedger_other :
    (a : Uuid) (bid : BidToPersist) (db db' : Db)
    → a ≢ bid.auction_id
    → Inserts bid db db'
    → IsLedger a db
    → IsLedger a db'
unfolding last_seq_of
Inserts-IsLedger_other a bid db db' ne i l =
    let other : (bid.auction_id == a) ≡ false = ground arith in
    record {
      total = l.total;
      bounded = l.bounded;
      gap_free = rw (i.bids, numbers-append, other) l.gap_free;
      counter = rw (i.sequences, counter_kept bid.auction_id _ db a ne) l.counter;
      distinct = rw (i.bids, keys-append, other) l.distinct;
    }

-- An insertion keeps the ledger of every auction.
pub Inserts-IsLedger :
    (a : Uuid) (bid : BidToPersist) (db db' : Db)
    → Inserts bid db db'
    → IsLedger a db
    → IsLedger a db'
Inserts-IsLedger a bid db db' i l = elim (ℕ_discrete a bid.auction_id) [
  | yes e ↦
      subst (λ x. IsLedger x db') (sym e)
        (Inserts-IsLedger_self bid db db' i (subst (λ x. IsLedger x db) e l))
  | no ne ↦ Inserts-IsLedger_other a bid db db' ne i l
]
