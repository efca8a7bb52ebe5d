-- ===== src/Postgres/Outbox/Next.antt =====
-- PublishNext takes the first event that waits, and changes nothing but its row.
use bid_lane.Prelude.{
  ◌+◌, ◌≤◌, refl, ap, sym, subst, ◌∙◌, ◌≡◌, ◌≢◌, ◌⊎◌, inl, inr, ◌∷◌, [], ◌++◌, List, All, All-map,
  Option, none, some, is_some, Bool, Bool-cases, true, false, not, ◌&&◌, ==_refl, arith, Any, here,
  there,
}
use bid_lane.Prelude.Int.{◌<ℤ◌, eqb_ℤ_iff}
use bid_lane.Go.Time.{Time}
use bid_lane.Postgres.Schema.{Uuid, OutboxRow, Db}
use bid_lane.Postgres.Transaction.{lost}
use bid_lane.Postgres.Outbox.{
  comes_before, is_waiting, is_marked, Published, ok, err, Callback, RelayService, mark_published,
  count_marked, publish_next,
}
use bid_lane.Postgres.Outbox.Order.{IsNext, marked, Steps, publish_next-Steps}

-- An event that is unpublished and whose row no other transaction holds.
pub record IsWaiting (locked : OutboxRow → Bool) (r : OutboxRow) : Type 0 where
  pub unpublished : r.published_at ≡ none
  pub free : locked r ≡ false

-- Created before the other; of two created at the same time, the one with the smaller id, or both.
abbrev pub Precedes : OutboxRow → OutboxRow → Type 0
Precedes r q = (r.created_at <ℤ q.created_at) ⊎ ((r.created_at ≡ q.created_at) × (r.id ≤ q.id))

-- The rows before and after: one of those that wait, which precedes the others that wait, has got the
-- time of its publication and one more attempt, and all others are as they were.
pub record IsPublished (s : RelayService) (rows rows' : List OutboxRow) : Type 0 where
  pub event : OutboxRow
  pub before : List OutboxRow
  pub behind : List OutboxRow
  pub waits : IsWaiting s.locked event
  pub first : All (λ q. IsWaiting s.locked q → Precedes event q) rows
  pub rows_before : rows ≡ before ++ event ∷ behind
  pub rows_after :
      rows'
      ≡ before
        ++ record event { published_at = some s.now; publish_attempts = event.publish_attempts + 1 }
          ∷ behind

-- The tables that differ in the outbox only.
pub record Publishes (s : RelayService) (db db' : Db) : Type 0 where
  pub outbox : IsPublished s db.outbox db'.outbox
  pub auctions : db'.auctions ≡ db.auctions
  pub bids : db'.bids ≡ db.bids
  pub sequences : db'.sequences ≡ db.sequences

-- How a call of PublishNext can end.
abbrev pub Takes : {E : Type 0} → RelayService → Db → Published × Db × E → Type 0
Takes s db (ok true, db', e) = Publishes s db db'
Takes s db (ok false, db', e) = All (λ q. ¬ IsWaiting s.locked q) db.outbox × (db' ≡ db)
Takes s db (err x, db', e) = (db' ≡ db) ⊎ ((s.commit ≡ lost) × Publishes s db db')

unpublished_none : (o : Option Time) → not (is_some o) ≡ true → o ≡ none
unpublished_none none h = refl
unpublished_none (some t) h = cc

both_true : (x y : Bool) → (x && y) ≡ true → (x ≡ true) × (y ≡ true)
both_true true y h = (refl, h)
both_true false y h = cc

negation_true : (x : Bool) → not x ≡ true → x ≡ false
negation_true true h = cc
negation_true false h = refl

is_waiting-IsWaiting :
    (locked : OutboxRow → Bool) (r : OutboxRow) → is_waiting locked r ≡ true → IsWaiting locked r
is_waiting-IsWaiting locked r h =
    let (unpublished, free) = both_true (not (is_some r.published_at)) (not (locked r)) h in
    record {
      unpublished = unpublished_none r.published_at unpublished;
      free = negation_true (locked r) free;
    }

IsWaiting-is_waiting :
    (locked : OutboxRow → Bool) (r : OutboxRow) → IsWaiting locked r → is_waiting locked r ≡ true
IsWaiting-is_waiting locked r w = simp (ap is_some w.unpublished, w.free) refl

not_before-Precedes : (q r : OutboxRow) → comes_before q r ≡ false → Precedes r q
not_before-Precedes q r h = ground (arith, eqb_ℤ_iff q.created_at r.created_at)

mark_published_none :
    (id : Uuid) (now : Time) (rows : List OutboxRow)
    → count_marked id rows ≡ 0
    → mark_published id now rows ≡ rows
unfolding count_marked mark_published
mark_published_none id now [] h = refl
mark_published_none id now (r ∷ rows) h = elim (Bool-cases (is_marked id r)) [
  | inl m ↦ ground (arith, m, h)
  | inr m ↦
      rw m (ap (λ rest. r ∷ rest) (mark_published_none id now rows (rw (count_marked, m) at h)))
]

own_marked : (r : OutboxRow) → r.published_at ≡ none → is_marked r.id r ≡ true
own_marked r unpublished = simp (==_refl r.id, ap is_some unpublished) refl

-- A row that stands in the table and waits is counted.
counted :
    (r : OutboxRow) (rows : List OutboxRow)
    → r.published_at ≡ none
    → Any (λ q. q ≡ r) rows
    → count_marked r.id rows ≢ 0
unfolding count_marked
counted r [] unpublished h = elim h [ ]
counted r (p ∷ rows) unpublished (here same) =
    let own = subst (λ q. is_marked r.id q ≡ true) (sym same) (own_marked r unpublished) in
    rw (count_marked, own) (λ k. omega (arith, k))
counted r (p ∷ rows) unpublished (there h) = elim (Bool-cases (is_marked r.id p)) [
  | inl m ↦ rw (count_marked, m) (λ k. omega (arith, k))
  | inr m ↦ rw (count_marked, m) (counted r rows unpublished h)
]

abbrev published_row : RelayService → OutboxRow → OutboxRow
published_row s r = record r {
  published_at = some s.now;
  publish_attempts = r.publish_attempts + 1;
}

-- If the UPDATE counts one row, it has changed the row that was selected, at its place.
mark_published-place :
    (s : RelayService) (r : OutboxRow) (rows : List OutboxRow)
    → r.published_at ≡ none
    → Any (λ q. q ≡ r) rows
    → count_marked r.id rows ≡ 1
    → (before : List OutboxRow) × (behind : List OutboxRow) × (rows ≡ before ++ r ∷ behind)
      × (mark_published r.id s.now rows ≡ before ++ published_row s r ∷ behind)
unfolding count_marked mark_published
mark_published-place s r [] unpublished h one = elim h [ ]
mark_published-place s r (p ∷ rows) unpublished (here same) one =
    let own = subst (λ q. is_marked r.id q ≡ true) (sym same) (own_marked r unpublished) in
    let others =
      mark_published_none r.id s.now rows (omega (arith, rw (count_marked, own) at one)) in
    (
      [],
      rows,
      ap (λ q. q ∷ rows) same,
      rw (mark_published, own, others) (ap (λ q. published_row s q ∷ rows) same),
    )
mark_published-place s r (p ∷ rows) unpublished (there h) one =
    elim (Bool-cases (is_marked r.id p)) [
      | inl m ↦ absurd (counted r rows unpublished h (omega (arith, rw (count_marked, m) at one)))
      | inr m ↦
          let (before, behind, rows_before, rows_after) =
            mark_published-place s r rows unpublished h (rw (count_marked, m) at one) in
          (
            p ∷ before,
            behind,
            ap (λ rest. p ∷ rest) rows_before,
            rw (mark_published, m) (ap (λ rest. p ∷ rest) rows_after),
          )
    ]

marked-Publishes :
    (s : RelayService) (db db' : Db) (r : OutboxRow)
    → IsNext s.locked db.outbox (some r)
    → count_marked r.id db.outbox ≡ 1
    → db' ≡ marked s r db
    → Publishes s db db'
marked-Publishes s db db' r (waiting, first, stands) one same =
    let waits = is_waiting-IsWaiting s.locked r waiting in
    let (before, behind, rows_before, rows_after) =
      mark_published-place s r db.outbox waits.unpublished stands one in
    record {
      outbox = record {
        event = r;
        before = before;
        behind = behind;
        waits = waits;
        first =
            All-map _ _ db.outbox
              (λ q later w. not_before-Precedes q r (later (IsWaiting-is_waiting s.locked q w)))
              first;
        rows_before = rows_before;
        rows_after = ap (λ (x : Db). x.outbox) same ∙ rows_after;
      };
      auctions = ap (λ (x : Db). x.auctions) same;
      bids = ap (λ (x : Db). x.bids) same;
      sequences = ap (λ (x : Db). x.sequences) same;
    }

Steps-Takes :
    {E : Type 0} (s : RelayService) (db : Db) (x : Published × Db × E) → Steps s db x → Takes s db x
Steps-Takes s db (ok true, db', e) (r, next, one, same) = marked-Publishes s db db' r next one same
Steps-Takes s db (ok false, db', e) (none_waits, same) =
    (All-map _ _ db.outbox (λ q no w. cc (no, IsWaiting-is_waiting s.locked q w)) none_waits, same)
Steps-Takes s db (err x, db', e) (inl same) = inl same
Steps-Takes s db (err x, db', e) (inr (answer_lost, (r, next, one, same))) =
    inr (answer_lost, marked-Publishes s db db' r next one same)

-- However a call of PublishNext goes: where it says that it published, one event that waited
-- (unpublished, its row not held by others) and precedes all others that waited, by created_at and
-- then id, has got its time of publication and one more attempt, and no other row of any table has
-- changed; where it says that there was none, no event waits and nothing has changed; after an error
-- nothing has changed, unless the answer to the commit of that change was lost.
pub publish_next-Takes :
    {E : Type 0} (publish after : Option (Callback E)) (s : RelayService) (db : Db) (e : E)
    → Takes s db (publish_next publish after s db e)
publish_next-Takes publish after s db e =
    Steps-Takes s db (publish_next publish after s db e) (publish_next-Steps publish after s db e)
