-- ===== src/Postgres/AuctionLog/Places.antt =====
-- Places in the log and numbers in the ledger.
use bid_lane.Prelude.{
  ℕ, zero, suc, ◌+◌, ◌<◌, refl, ap, ◌∙◌, ◌≡◌, inl, inr, [], ◌∷◌, ◌++◌, List, length, Option, none,
  some, Bool, Bool-cases, true, false, ◌==◌, arith, if◌then◌else◌,
}
use bid_lane.Prelude.Int.{ℤ, pos, eqb_ℤ}
use bid_lane.Postgres.Schema.{Uuid, Bid, OutboxRow, find_bid, has_sequence}
use bid_lane.Postgres.Statements.{bid_accepted, has_event}
use bid_lane.Postgres.Numbering.Invariant.{numbers, count_up}
use bid_lane.Postgres.AntiSnipe.Announcement.{announced, bids_of}
use bid_lane.Postgres.AuctionLog.{LogEntry, one_more, place}

-- The numbers k + 1, …, k + n.
unfoldable pub count_from : ℕ → ℕ → List ℤ
count_from k zero = []
count_from k (suc n) = pos (suc k) ∷ count_from (suc k) n

count_from-snoc : (k n : ℕ) → count_from k n ++ pos (k + suc n) ∷ [] ≡ count_from k (suc n)
unfolding count_from
count_from-snoc k zero = ap (λ m. pos m ∷ []) (omega arith)
count_from-snoc k (suc n) =
    ap (λ (x : List ℤ). pos (suc k) ∷ x)
      (ap (λ m. count_from (suc k) n ++ pos m ∷ []) (omega arith) ∙ count_from-snoc (suc k) n)

pub count_up-from : (n : ℕ) → count_up n ≡ count_from 0 n
unfolding count_from
count_up-from zero = refl
count_up-from (suc n) =
    ap (λ (x : List ℤ). x ++ pos (suc n) ∷ []) (count_up-from n)
    ∙ ap (λ m. count_from 0 n ++ pos m ∷ []) (omega arith)
    ∙ count_from-snoc 0 n

-- The bids of an auction, without their numbers.
abbrev pub log_entry : Bid → LogEntry
log_entry r = record {
  bidder_id = r.bidder_id;
  amount = r.amount;
  idempotency_key = r.idempotency_key;
  stream_entry_id = r.stream_entry_id;
}

unfoldable pub entries_of : Uuid → List Bid → List LogEntry
entries_of a [] = []
entries_of a (r ∷ rows) =
    let rest = entries_of a rows in if r.auction_id == a then log_entry r ∷ rest else rest

pub entries_of-append :
    (a : Uuid) (rows : List Bid) (r : Bid)
    → r.auction_id ≡ a
    → entries_of a (rows ++ r ∷ []) ≡ entries_of a rows ++ log_entry r ∷ []
unfolding entries_of
entries_of-append a [] r e = ground arith
entries_of-append a (q ∷ rows) r e = ground (arith, entries_of-append a rows r e)

pub length-entries_of :
    (a : Uuid) (rows : List Bid) → length (entries_of a rows) ≡ length (numbers a rows)
unfolding entries_of numbers
length-entries_of a [] = refl
length-entries_of a (r ∷ rows) = ground (arith, length-entries_of a rows)

pub length-count_from : (k n : ℕ) → length (count_from k n) ≡ n
unfolding count_from
length-count_from k zero = refl
length-count_from k (suc n) = ap suc (length-count_from (suc k) n)

abbrev pub number_at : ℕ → Option ℕ → Option ℤ
number_at k none = none
number_at k (some n) = some (pos (k + n))

number_at-one_more : (k : ℕ) (o : Option ℕ) → number_at k (one_more o) ≡ number_at (suc k) o
number_at-one_more k none = refl
number_at-one_more k (some n) = ap (λ m. some (pos m)) (omega arith)

-- Where the numbers have no gap, the number of a bid is its place.
pub find_bid-place :
    (a key : Uuid) (k n : ℕ) (rows : List Bid)
    → numbers a rows ≡ count_from k n
    → find_bid a key rows ≡ number_at k (place key (entries_of a rows))
unfolding find_bid numbers entries_of place count_from
find_bid-place a key k n [] e = refl
find_bid-place a key k zero (r ∷ rows) e = elim (Bool-cases (r.auction_id == a)) [
  | inr other ↦ ground (arith, find_bid-place a key k zero rows)
  | inl own ↦ absurd (ground (arith, e))
]
find_bid-place a key k (suc n) (r ∷ rows) e = elim (Bool-cases (r.auction_id == a)) [
  | inr other ↦ ground (arith, find_bid-place a key k (suc n) rows)
  | inl own ↦ ground (
    arith,
    find_bid-place a key (suc k) n rows,
    number_at-one_more k (place key (entries_of a rows)),
  )
]

-- The numbers of a list of bids.
unfoldable pub seqs : List Bid → List ℤ
seqs [] = []
seqs (r ∷ rows) = r.sequence_no ∷ seqs rows

unfoldable pub taken : ℤ → List ℤ → Bool
taken n [] = false
taken n (m ∷ ms) = if eqb_ℤ m n then true else taken n ms

pub numbers-bids_of : (a : Uuid) (rows : List Bid) → numbers a rows ≡ seqs (bids_of a rows)
unfolding numbers bids_of seqs
numbers-bids_of a [] = refl
numbers-bids_of a (r ∷ rows) = ground (arith, numbers-bids_of a rows)

pub has_sequence-taken :
    (a : Uuid) (n : ℤ) (rows : List Bid) → has_sequence a n rows ≡ taken n (numbers a rows)
unfolding has_sequence numbers taken
has_sequence-taken a n [] = refl
has_sequence-taken a n (r ∷ rows) = ground (arith, has_sequence-taken a n rows)

pub has_event-taken :
    (a : Uuid) (n : ℤ) (rows : List OutboxRow)
    → has_event bid_accepted a n rows ≡ taken n (seqs (announced a rows))
unfolding has_event announced seqs taken
has_event-taken a n [] = refl
has_event-taken a n (o ∷ rows) = ground (arith, has_event-taken a n rows)

-- The number behind the last is free.
pub taken-count_from : (k n m : ℕ) → k + n < m → taken (pos m) (count_from k n) ≡ false
unfolding taken count_from
taken-count_from k zero m h = refl
taken-count_from k (suc n) m h = ground (arith, taken-count_from (suc k) n m)
