-- ===== src/Postgres/AuctionLog/Keys.antt =====
-- The statements keep the primary keys of the auctions and of the counters.
use bid_lane.Prelude.{
  refl, ◌≡◌, inl, inr, [], ◌∷◌, ◌++◌, List, none, Option-cases, Bool-cases, false, ◌&&◌, ◌==◌,
  arith,
}
use bid_lane.Prelude.Int.{ℤ, pos}
use bid_lane.Go.Time.{Time}
use bid_lane.Postgres.Schema.{Uuid, Auction, AuctionSequence, find_auction, find_sequence}
use bid_lane.Postgres.Statements.{eligible, extended_row, extend_rows, matches, set_matches}
use bid_lane.Postgres.Numbering.{ensured}
use bid_lane.Postgres.AntiSnipe.Accept.{HasCounterKey}
use bid_lane.Postgres.AntiSnipe.Extension.{HasPrimaryKey}

find_auction-extend_none :
    (b a : Uuid) (t : Time) (rows : List Auction)
    → find_auction b rows ≡ none
    → find_auction b (extend_rows a t rows) ≡ none
unfolding find_auction extend_rows extended_row
find_auction-extend_none b a t [] e = refl
find_auction-extend_none b a t (r ∷ rows) e = ground (arith, find_auction-extend_none b a t rows)

pub extend_rows-HasPrimaryKey :
    (a : Uuid) (t : Time) (rows : List Auction)
    → HasPrimaryKey rows
    → HasPrimaryKey (extend_rows a t rows)
unfolding extend_rows extended_row
extend_rows-HasPrimaryKey a t [] k = tt
extend_rows-HasPrimaryKey a t (r ∷ rows) k =
    let rest = find_auction-extend_none r.id a t rows k.0 in
    elim (Bool-cases (r.id == a && eligible t r)) [
      | inl e ↦ rw e (rest, extend_rows-HasPrimaryKey a t rows k.1)
      | inr e ↦ rw e (rest, extend_rows-HasPrimaryKey a t rows k.1)
    ]

find_sequence-set_none :
    (b a : Uuid) (new old : ℤ) (rows : List AuctionSequence)
    → find_sequence b rows ≡ none
    → find_sequence b (set_matches a new old rows) ≡ none
unfolding find_sequence set_matches
find_sequence-set_none b a new old [] e = refl
find_sequence-set_none b a new old (r ∷ rows) e =
    ground (arith, find_sequence-set_none b a new old rows)

pub set_matches-HasCounterKey :
    (a : Uuid) (new old : ℤ) (rows : List AuctionSequence)
    → HasCounterKey rows
    → HasCounterKey (set_matches a new old rows)
unfolding set_matches
set_matches-HasCounterKey a new old [] k = tt
set_matches-HasCounterKey a new old (r ∷ rows) k =
    let rest = find_sequence-set_none r.auction_id a new old rows k.0 in
    elim (Bool-cases (matches a old r)) [
      | inl e ↦ rw e (rest, set_matches-HasCounterKey a new old rows k.1)
      | inr e ↦ rw e (rest, set_matches-HasCounterKey a new old rows k.1)
    ]

find_sequence-snoc_none :
    (b a : Uuid) (n : ℤ) (rows : List AuctionSequence)
    → find_sequence b rows ≡ none
    → (a == b) ≡ false
    → find_sequence b (rows ++ record { auction_id = a; last_seq = n } ∷ []) ≡ none
unfolding find_sequence
find_sequence-snoc_none b a n [] e ne = ground arith
find_sequence-snoc_none b a n (r ∷ rows) e ne = ground (arith, find_sequence-snoc_none b a n rows)

snoc-HasCounterKey :
    (a : Uuid) (n : ℤ) (rows : List AuctionSequence)
    → find_sequence a rows ≡ none
    → HasCounterKey rows
    → HasCounterKey (rows ++ record { auction_id = a; last_seq = n } ∷ [])
unfolding find_sequence
snoc-HasCounterKey a n [] e k = (refl, tt)
snoc-HasCounterKey a n (r ∷ rows) e k = (
  find_sequence-snoc_none r.auction_id a n rows k.0 (ground (arith, e)),
  snoc-HasCounterKey a n rows (ground (arith, e)) k.1,
)

pub ensured-HasCounterKey :
    (a : Uuid) (rows : List AuctionSequence) → HasCounterKey rows → HasCounterKey (ensured a rows)
unfolding ensured
ensured-HasCounterKey a rows k = elim (Option-cases (find_sequence a rows)) [
  | inl e ↦ rw e (snoc-HasCounterKey a (pos 0) rows e k)
  | inr (n, e) ↦ rw e k
]
