-- ===== src/Postgres/Numbering/Counter.antt =====
-- The counter of an auction under the statements that create and advance it.
use native.Mathlib.Decide.{ℕ_discrete}
use bid_lane.Prelude.{
  refl, ◌∙◌, ◌≡◌, ◌≢◌, inl, inr, ◌∷◌, [], ◌++◌, none, some, List, arith, Option-cases,
}
use bid_lane.Prelude.Int.{ℤ, pos}
use bid_lane.Postgres.Schema.{Uuid, AuctionSequence, Db, find_sequence}
use bid_lane.Postgres.Statements.{set_matches}
use bid_lane.Postgres.Numbering.{ensured, last_of, last_seq_of}

pub find_sequence-append :
    (a : Uuid) (rows : List AuctionSequence)
    → find_sequence a rows ≡ none
    → find_sequence a (rows ++ record { auction_id = a; last_seq = pos 0 } ∷ []) ≡ some (pos 0)
unfolding find_sequence
find_sequence-append a [] e = ground arith
find_sequence-append a (r ∷ rows) e = ground (arith, find_sequence-append a rows)

find_sequence-append_ne :
    (a b : Uuid) (n : ℤ) (rows : List AuctionSequence)
    → a ≢ b
    → find_sequence a (rows ++ record { auction_id = b; last_seq = n } ∷ []) ≡ find_sequence a rows
unfolding find_sequence
find_sequence-append_ne a b n [] ne = ground arith
find_sequence-append_ne a b n (r ∷ rows) ne = ground (arith, find_sequence-append_ne a b n rows ne)

find_sequence-set_matches_self :
    (a : Uuid) (new old : ℤ) (rows : List AuctionSequence)
    → find_sequence a rows ≡ some old
    → find_sequence a (set_matches a new old rows) ≡ some new
unfolding find_sequence set_matches
find_sequence-set_matches_self a new old [] e = ground arith
find_sequence-set_matches_self a new old (r ∷ rows) e =
    ground (arith, find_sequence-set_matches_self a new old rows)

find_sequence-set_matches_ne :
    (a b : Uuid) (new old : ℤ) (rows : List AuctionSequence)
    → a ≢ b
    → find_sequence a (set_matches b new old rows) ≡ find_sequence a rows
unfolding find_sequence set_matches
find_sequence-set_matches_ne a b new old [] ne = refl
find_sequence-set_matches_ne a b new old (r ∷ rows) ne =
    ground (arith, find_sequence-set_matches_ne a b new old rows ne)

pub find_sequence-ensured :
    (a : Uuid) (rows : List AuctionSequence)
    → find_sequence a (ensured a rows) ≡ some (last_of (find_sequence a rows))
unfolding ensured
find_sequence-ensured a rows = elim (Option-cases (find_sequence a rows)) [
  | inl e ↦ ground (arith, find_sequence-append a rows e)
  | inr (n, e) ↦ ground arith
]

find_sequence-ensured_ne :
    (a b : Uuid) (rows : List AuctionSequence)
    → a ≢ b
    → find_sequence a (ensured b rows) ≡ find_sequence a rows
unfolding ensured
find_sequence-ensured_ne a b rows ne = ground (arith, find_sequence-append_ne a b (pos 0) rows ne)

-- After an insertion the counter of the auction holds the new number, and no other has moved.
module _ (b : Uuid) (n : ℤ) (db : Db) where
  abbrev moved : List AuctionSequence
  moved = set_matches b n (last_seq_of b db) (ensured b db.sequences)

  pub counter_moved : find_sequence b moved ≡ some n
  unfolding last_seq_of
  counter_moved = find_sequence-set_matches_self b n _ _ (find_sequence-ensured b db.sequences)

  pub counter_kept : (a : Uuid) → a ≢ b → find_sequence a moved ≡ find_sequence a db.sequences
  counter_kept a ne =
      find_sequence-set_matches_ne a b n _ _ ne ∙ find_sequence-ensured_ne a b db.sequences ne

-- A counter of 0 for a new auction is what no counter stands for.
pub last_seq-ensured :
    (a b : Uuid) (db : Db)
    → last_seq_of a (record db { sequences = ensured b db.sequences }) ≡ last_seq_of a db
unfolding last_seq_of
last_seq-ensured a b db = elim (ℕ_discrete a b) [
  | yes e ↦ rw (e, find_sequence-ensured)
  | no ne ↦ rw (find_sequence-ensured_ne a b db.sequences ne)
]
