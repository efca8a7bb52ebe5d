-- ===== src/Postgres/AntiSnipe/Extension.antt =====
-- How the extension of an auction works out: the rule for one row, the row that the UPDATE finds,
-- and what the caller is told.
use bid_lane.Prelude.{
  ap, ==_iff, ◌+◌, ◌<◌, refl, sym, subst, ◌∙◌, ◌≡◌, ◌↔◌, ◌⊎◌, inl, inr, ◌∷◌, [], List, none, some,
  true, false, ◌==◌, Bool-cases, arith, if◌then◌else◌,
}
use bid_lane.Prelude.Int.{pos, ◌+ℤ◌, ◌≤ℤ◌, ◌<ℤ◌, +ℤ_parts, -ℤ_parts}
use bid_lane.Go.Time.{Time}
use bid_lane.Postgres.Schema.{Uuid, Auction, Db, find_auction}
use bid_lane.Postgres.Statements.{BidToPersist, eligible, extended_row, extend_rows, returning}
use bid_lane.Postgres.Transaction.{Service, ok}
use bid_lane.Postgres.AntiSnipe.{AntiSnipeAppendResult, append_bid_idempotent_with_anti_snipe}
use bid_lane.Postgres.AntiSnipe.Effects.{
  IsNew, IsDuplicate, Effect, append-Effect, new_result, new_db,
}

-- `id` is the primary key of the table.
abbrev pub HasPrimaryKey : List Auction → Type 0
HasPrimaryKey [] = Unit
HasPrimaryKey (r ∷ rows) = (find_auction r.id rows ≡ none) × HasPrimaryKey rows

-- The auction is in its last window and has extensions left.
pub record IsExtendable (t : Time) (r : Auction) : Type 0 where
  pub before_close : t <ℤ r.effective_close_time
  pub in_window : r.effective_close_time ≤ℤ t +ℤ pos r.extension_window
  pub remaining : r.extension_count < r.max_extensions

eligible_iff : (t : Time) (r : Auction) → (eligible t r ≡ true) ↔ IsExtendable t r
unfolding eligible
eligible_iff t r = (
  λ e. ground (
    arith,
    -ℤ_parts r.effective_close_time (pos r.extension_window),
    +ℤ_parts t (pos r.extension_window),
  ),
  λ x. ground (
    arith,
    -ℤ_parts r.effective_close_time (pos r.extension_window),
    +ℤ_parts t (pos r.extension_window),
  ),
)

-- The row after the UPDATE.
unfoldable pub updated : Time → Auction → Auction
updated t r = if eligible t r then extended_row r else r

returning-none :
    (a : Uuid) (t : Time) (rows : List Auction)
    → find_auction a rows ≡ none
    → returning a t rows ≡ none
unfolding returning find_auction
returning-none a t [] e = refl
returning-none a t (r ∷ rows) e = ground (arith, returning-none a t rows)

pub returning-found :
    (a : Uuid) (t : Time) (rows : List Auction) (row : Auction)
    → HasPrimaryKey rows
    → find_auction a rows ≡ some row
    → returning a t rows ≡ (
        if eligible t row
        then some ((extended_row row).effective_close_time, (extended_row row).extension_count)
        else none)
unfolding returning find_auction
returning-found a t [] row k e = ground arith
returning-found a t (r ∷ rows) row k e = elim (Bool-cases (r.id == a)) [
  | inl same ↦
      let at_head = (==_iff r.id a).0 same in
      ground (arith, returning-none a t rows (subst (λ x. find_auction x rows ≡ none) at_head k.0))
  | inr other ↦ ground (arith, returning-found a t rows row k.1)
]

pub find_auction-extend :
    (a : Uuid) (t : Time) (rows : List Auction) (row : Auction)
    → find_auction a rows ≡ some row
    → find_auction a (extend_rows a t rows) ≡ some (updated t row)
unfolding find_auction extend_rows updated
find_auction-extend a t [] row e = ground arith
find_auction-extend a t (r ∷ rows) row e = ground (arith, find_auction-extend a t rows row)

-- The close time and the count that a result tells are those that the auction's row now has.
abbrev pub Tells : Db → BidToPersist → AntiSnipeAppendResult → Type 0
Tells db bid r =
    (row : Auction) × (find_auction bid.auction_id db.auctions ≡ some row)
    × (row.effective_close_time ≡ r.effective_close_time)
    × (row.extension_count ≡ r.extension_count)

new_row :
    (s : Service) (bid : BidToPersist) (t : Time) (db db' : Db) (r : AntiSnipeAppendResult)
    → HasPrimaryKey db.auctions
    → (n : IsNew s bid t db r db')
    → (find_auction bid.auction_id db'.auctions ≡ some (updated t n.row))
      × (r.extended ≡ eligible t n.row)
      × (r.effective_close_time ≡ (updated t n.row).effective_close_time)
      × (r.extension_count ≡ (updated t n.row).extension_count)
unfolding new_result new_db updated
new_row s bid t db db' r k n =
    let found = returning-found bid.auction_id t db.auctions n.row k n.found in
    (
      rw n.tables (find_auction-extend bid.auction_id t db.auctions n.row n.found),
      rw n.answer (ground (arith, found)),
      rw n.answer (ground (arith, found)),
      rw n.answer (ground (arith, found)),
    )

-- A result tells the close time and the extension count that the auction's row has after the call,
-- for a new bid and for one that was met.
pub append-Tells :
    (s : Service) (bid : BidToPersist) (t : Time) (db db' : Db) (r : AntiSnipeAppendResult)
    → HasPrimaryKey db.auctions
    → append_bid_idempotent_with_anti_snipe s bid t db ≡ (ok r, db')
    → Tells db' bid r
append-Tells s bid t db db' r k e = tells (subst (Effect s bid t db) e (append-Effect s bid t db))
  where
    tells : IsDuplicate bid db r db' ⊎ IsNew s bid t db r db' → Tells db' bid r
    tells (inl d) = (d.row, rw d.tables d.found, rw d.answer, rw d.answer)
    tells (inr n) =
        let (row, _, close, count) = new_row s bid t db db' r k n in
        (updated t n.row, row, sym close, sym count)

-- What a call that inserted a bid has done to the auction, whose row was `row`: the bid was submitted
-- before the close, and the row behind the call differs from the row before it in the close time,
-- which moved by one interval, and in the count, which grew by one, exactly in the last window while
-- extensions are left; the result tells what the row has.
pub record IsExtension (t : Time) (row : Auction) (r : AntiSnipeAppendResult) (db' : Db)
    : Type 0 where
  pub row_after :
      find_auction row.id db'.auctions
      ≡ some (record row {
        effective_close_time = r.effective_close_time;
        extension_count = r.extension_count;
      })
  pub in_time : t <ℤ row.effective_close_time
  pub when : (r.extended ≡ true) ↔ IsExtendable t row
  pub close_time : r.effective_close_time ≡ (
      if r.extended
      then row.effective_close_time +ℤ pos row.extension_interval
      else row.effective_close_time)
  pub count :
      r.extension_count ≡ (if r.extended then row.extension_count + 1 else row.extension_count)

find_auction-id :
    (a : Uuid) (rows : List Auction) (row : Auction) → find_auction a rows ≡ some row → row.id ≡ a
unfolding find_auction
find_auction-id a [] row e = cc
find_auction-id a (r ∷ rows) row e = elim (Bool-cases (r.id == a)) [
  | inl same ↦
      let there : r ≡ row = cc (rw same at e) in
      ap (λ (x : Auction). x.id) (sym there) ∙ (==_iff r.id a).0 same
  | inr other ↦ find_auction-id a rows row (rw other at e)
]

-- The row with the close time and the count that the result tells.
updated-told :
    (t : Time) (row : Auction) (r : AntiSnipeAppendResult)
    → r.effective_close_time ≡ (updated t row).effective_close_time
    → r.extension_count ≡ (updated t row).extension_count
    → updated t row ≡ record row {
      effective_close_time = r.effective_close_time;
      extension_count = r.extension_count;
    }
unfolding updated extended_row
updated-told t row r close count = elim (Bool-cases (eligible t row)) [
  | inl e ↦ rw (updated, e, close, count, e) refl
  | inr e ↦ rw (updated, e, close, count, e) refl
]

-- The rule at the row that the call locked.
new-IsExtension :
    (s : Service) (bid : BidToPersist) (t : Time) (db db' : Db) (r : AntiSnipeAppendResult)
    → HasPrimaryKey db.auctions
    → (n : IsNew s bid t db r db') → IsExtension t n.row r db'
unfolding updated extended_row
new-IsExtension s bid t db db' r k n =
    let (after, extended, close, count) = new_row s bid t db db' r k n in
    let own : bid.auction_id ≡ n.row.id =
      sym (find_auction-id bid.auction_id db.auctions n.row n.found) in
    record {
      row_after =
          subst
            (λ i.
              find_auction i db'.auctions
              ≡ some (record n.row {
                effective_close_time = r.effective_close_time;
                extension_count = r.extension_count;
              }))
            own (after ∙ ap some (updated-told t n.row r close count));
      in_time = n.in_time;
      when = rw extended (eligible_iff t n.row);
      close_time = ground arith;
      count = ground arith;
    }

not_inserted :
    (bid : BidToPersist) (db db' : Db) (r : AntiSnipeAppendResult)
    → IsDuplicate bid db r db'
    → r.result.inserted ≡ false
not_inserted bid db db' r d = rw d.answer

-- A bid that a call inserted was submitted before the close of its auction (I3), and the auction's
-- row behind the call is the row before it, with the close time moved by one interval and the count
-- by one exactly if the bid was submitted in the last window while extensions were left (auction ids
-- being a primary key); the result tells the new close time and count.
pub append-IsExtension :
    (s : Service) (bid : BidToPersist) (t : Time) (db db' : Db) (r : AntiSnipeAppendResult)
    (row : Auction)
    → HasPrimaryKey db.auctions
    → find_auction bid.auction_id db.auctions ≡ some row
    → append_bid_idempotent_with_anti_snipe s bid t db ≡ (ok r, db')
    → r.result.inserted ≡ true
    → IsExtension t row r db'
append-IsExtension s bid t db db' r row k found e inserted =
    go (subst (Effect s bid t db) e (append-Effect s bid t db))
  where
    go : IsDuplicate bid db r db' ⊎ IsNew s bid t db r db' → IsExtension t row r db'
    go (inl d) = cc (sym (not_inserted bid db db' r d) ∙ inserted)
    go (inr n) =
        let same : n.row ≡ row = cc (sym n.found ∙ found) in
        subst (λ x. IsExtension t x r db') same (new-IsExtension s bid t db db' r k n)
