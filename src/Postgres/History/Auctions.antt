-- ===== src/Postgres/History/Auctions.antt =====
-- The rows of `auctions` over a history: extensions are bounded, and move the close by intervals.
use bid_lane.Prelude.{
  ℕ, ◌+◌, ◌*◌, ◌≤◌, refl, ap, ◌∙◌, ◌≡◌, ◌⊎◌, inl, inr, ◌∷◌, [], List, true, ◌&&◌, ◌==◌, Bool-cases,
  arith,
}
use bid_lane.Prelude.Int.{pos, ◌+ℤ◌, int_laws}
use bid_lane.Go.Time.{Time}
use bid_lane.Postgres.Schema.{Uuid, Auction, Db}
use bid_lane.Postgres.Statements.{BidToPersist, eligible, extended_row, extend_rows}
use bid_lane.Postgres.Transaction.{Service, Result, ok, err}
use bid_lane.Postgres.RowLock.{AppendBidResult}
use bid_lane.Postgres.RowLock.Effects as RowLock
use bid_lane.Postgres.AntiSnipe.{AntiSnipeAppendResult}
use bid_lane.Postgres.AntiSnipe.Effects as AntiSnipe
use bid_lane.Postgres.History.{Operation, row_lock, anti_snipe, apply, history}

-- The row r' is r after some extensions.
pub record Extends (r r' : Auction) : Type 0 where
  pub extensions : ℕ
  pub id : r'.id ≡ r.id
  pub window : r'.extension_window ≡ r.extension_window
  pub interval : r'.extension_interval ≡ r.extension_interval
  pub max : r'.max_extensions ≡ r.max_extensions
  pub count : r'.extension_count ≡ r.extension_count + extensions
  pub within : (r'.extension_count ≤ r'.max_extensions) ⊎ (extensions ≡ 0)
  pub close_time :
      r'.effective_close_time ≡ r.effective_close_time +ℤ pos (extensions * r.extension_interval)

-- Row for row.
abbrev pub AllExtend : List Auction → List Auction → Type 0
AllExtend [] [] = Unit
AllExtend [] (_ ∷ _) = ⊥
AllExtend (_ ∷ _) [] = ⊥
AllExtend (r ∷ rows) (r' ∷ rows') = Extends r r' × AllExtend rows rows'

Extends-refl : (r : Auction) → Extends r r
Extends-refl r = record {
  extensions = 0;
  id = refl;
  window = refl;
  interval = refl;
  max = refl;
  count = omega arith;
  within = inr refl;
  close_time = omega int_laws;
}

Extends-trans : (p q r : Auction) → Extends p q → Extends q r → Extends p r
Extends-trans p q r h k = record {
  extensions = h.extensions + k.extensions;
  id = k.id ∙ h.id;
  window = k.window ∙ h.window;
  interval = k.interval ∙ h.interval;
  max = k.max ∙ h.max;
  count = omega arith;
  within = within h.within k.within;
  close_time = rw (k.close_time, h.close_time, h.interval) (omega int_laws);
}
  where
    within :
        (q.extension_count ≤ q.max_extensions) ⊎ (h.extensions ≡ 0)
        → (r.extension_count ≤ r.max_extensions) ⊎ (k.extensions ≡ 0)
        → (r.extension_count ≤ r.max_extensions) ⊎ (h.extensions + k.extensions ≡ 0)
    within _ (inl bound) = inl bound
    within (inl bound) (inr none_more) = inl (omega (arith, k.count, k.max))
    within (inr none_before) (inr none_more) = inr (omega arith)

extended_row-Extends : (t : Time) (r : Auction) → eligible t r ≡ true → Extends r (extended_row r)
unfolding eligible extended_row
extended_row-Extends t r e = record {
  extensions = 1;
  id = refl;
  window = refl;
  interval = refl;
  max = refl;
  count = refl;
  within = inl (ground arith);
  close_time = ap (λ n. r.effective_close_time +ℤ pos n) (omega arith);
}

AllExtend-refl : (rows : List Auction) → AllExtend rows rows
AllExtend-refl [] = tt
AllExtend-refl (r ∷ rows) = (Extends-refl r, AllExtend-refl rows)

AllExtend-trans : (ps qs rs : List Auction) → AllExtend ps qs → AllExtend qs rs → AllExtend ps rs
AllExtend-trans [] [] [] h k = tt
AllExtend-trans [] [] (_ ∷ _) h k = elim k [ ]
AllExtend-trans [] (_ ∷ _) rs h k = elim h [ ]
AllExtend-trans (p ∷ ps) [] rs h k = elim h [ ]
AllExtend-trans (p ∷ ps) (q ∷ qs) [] h k = elim k [ ]
AllExtend-trans (p ∷ ps) (q ∷ qs) (r ∷ rs) h k =
    (Extends-trans p q r h.0 k.0, AllExtend-trans ps qs rs h.1 k.1)

extend_rows-AllExtend :
    (a : Uuid) (t : Time) (rows : List Auction) → AllExtend rows (extend_rows a t rows)
unfolding extend_rows
extend_rows-AllExtend a t [] = tt
extend_rows-AllExtend a t (r ∷ rows) = elim (Bool-cases (r.id == a && eligible t r)) [
  | inl e ↦ rw e (extended_row-Extends t r (ground arith), extend_rows-AllExtend a t rows)
  | inr e ↦ rw e (Extends-refl r, extend_rows-AllExtend a t rows)
]

of_eq : (rows rows' : List Auction) → rows' ≡ rows → AllExtend rows rows'
of_eq rows rows' e = rw e (AllExtend-refl rows)

new-AllExtend :
    {s : Service} {bid : BidToPersist} {t : Time} {db db' : Db} {r : AntiSnipeAppendResult}
    → AntiSnipe.IsNew s bid t db r db'
    → AllExtend db.auctions db'.auctions
unfolding AntiSnipe.new_db
new-AllExtend {bid} {t} {db} n = rw n.tables (extend_rows-AllExtend bid.auction_id t db.auctions)

anti_snipe_step :
    (s : Service) (bid : BidToPersist) (t : Time) (db : Db) (x : Result AntiSnipeAppendResult × Db)
    → AntiSnipe.Effect s bid t db x
    → AllExtend db.auctions x.1.auctions
anti_snipe_step s bid t db (ok r, db') (inl d) = of_eq _ _ (ap (λ (x : Db). x.auctions) d.tables)
anti_snipe_step s bid t db (ok r, db') (inr n) = new-AllExtend n
anti_snipe_step s bid t db (err e, db') (inl same) = of_eq _ _ (ap (λ (x : Db). x.auctions) same)
anti_snipe_step s bid t db (err e, db') (inr (_, (r, n))) = new-AllExtend n

row_lock_ok :
    (bid : BidToPersist) (db db' : Db) (r : AppendBidResult)
    → RowLock.IsObserved bid db r db' ⊎ RowLock.IsAppended bid db r db'
    → AllExtend db.auctions db'.auctions
row_lock_ok bid db db' r (inl o) = of_eq _ _ (ap (λ (x : Db). x.auctions) o.tables)
row_lock_ok bid db db' r (inr i) = of_eq _ _ i.auctions

row_lock_step :
    (s : Service) (bid : BidToPersist) (db : Db) (x : Result AppendBidResult × Db)
    → RowLock.Effect s bid db x
    → AllExtend db.auctions x.1.auctions
row_lock_step s bid db (ok r, db') h = row_lock_ok bid db db' r h
row_lock_step s bid db (err e, db') (inl same) = of_eq _ _ (ap (λ (x : Db). x.auctions) same)
row_lock_step s bid db (err e, db') (inr (_, (r, h))) = row_lock_ok bid db db' r h

apply-AllExtend : (o : Operation) (db : Db) → AllExtend db.auctions (apply o db).auctions
unfolding apply
apply-AllExtend (row_lock s bid) db = row_lock_step s bid db _ (RowLock.row_lock-Effect s bid db)
apply-AllExtend (anti_snipe s bid t) db =
    anti_snipe_step s bid t db _ (AntiSnipe.append-Effect s bid t db)

-- Over any history each auction keeps its window, interval and maximum; its close time has moved by
-- its interval as often as its count has grown, and if it has grown it is at most the maximum.
pub history-AllExtend :
    (os : List Operation) (db : Db) → AllExtend db.auctions (history os db).auctions
unfolding history
history-AllExtend [] db = AllExtend-refl db.auctions
history-AllExtend (o ∷ os) db =
    AllExtend-trans _ _ _ (apply-AllExtend o db) (history-AllExtend os (apply o db))
