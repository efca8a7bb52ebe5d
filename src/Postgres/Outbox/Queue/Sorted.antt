-- ===== src/Postgres/Outbox/Queue/Sorted.antt =====
-- The queue of the outbox stands in order.
use bid_lane.Prelude.{◌≡◌, ◌∷◌, [], All, All-map, List, Bool-cases, inl, inr, false, is_some}
use bid_lane.Postgres.Schema.{OutboxRow}
use bid_lane.Postgres.Outbox.{comes_before}
use bid_lane.Postgres.Outbox.Order.{comes_before_trans, comes_before_asym}
use bid_lane.Postgres.Outbox.Queue.{insert_row, waiting_rows}

-- No row comes before one that stands in front of it.
abbrev pub IsSorted : List OutboxRow → Type 0
IsSorted [] = Unit
IsSorted (r ∷ rows) = All (λ q. comes_before q r ≡ false) rows × IsSorted rows

insert_row-All :
    (P : OutboxRow → Type 0) (r : OutboxRow) (rows : List OutboxRow)
    → P r
    → All P rows
    → All P (insert_row r rows)
insert_row-All P r [] h hs = (h, tt)
insert_row-All P r (q ∷ rows) h hs = elim (Bool-cases (comes_before q r)) [
  | inl b ↦ rw b (hs.0, insert_row-All P r rows h hs.1)
  | inr b ↦ rw b (h, hs)
]

insert_row-IsSorted :
    (r : OutboxRow) (rows : List OutboxRow) → IsSorted rows → IsSorted (insert_row r rows)
insert_row-IsSorted r [] h = (tt, tt)
insert_row-IsSorted r (q ∷ rows) h = elim (Bool-cases (comes_before q r)) [
  | inl b ↦ rw b (
    insert_row-All (λ p. comes_before p q ≡ false) r rows (comes_before_asym r q b) h.0,
    insert_row-IsSorted r rows h.1,
  )
  | inr b ↦ rw b ((b, All-map _ _ rows (λ p before. comes_before_trans r q p b before) h.0), h)
]

pub waiting_rows-IsSorted : (rows : List OutboxRow) → IsSorted (waiting_rows rows)
unfolding waiting_rows
waiting_rows-IsSorted [] = tt
waiting_rows-IsSorted (r ∷ rows) = elim (Bool-cases (is_some r.published_at)) [
  | inl p ↦ rw p (waiting_rows-IsSorted rows)
  | inr p ↦ rw p (insert_row-IsSorted r (waiting_rows rows) (waiting_rows-IsSorted rows))
]
