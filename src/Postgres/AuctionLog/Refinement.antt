-- ===== src/Postgres/AuctionLog/Refinement.antt =====
-- The anti-snipe transaction implements the log, where no call fails.
use bid_lane.Prelude.{
  ℕ, suc, ◌+◌, ◌<◌, ◌^◌, refl, ap, sym, ◌∙◌, ◌≡◌, ◌≢◌, inl, inr, [], ◌∷◌, ◌++◌, List, length,
  Option, none, some, Bool-cases, true, false, arith,
}
use bid_lane.Prelude.Int.{pos, ◌+ℤ◌, ◌≤ℤ◌}
use bid_lane.Go.Int64.{add64, wrap64}
use bid_lane.Go.Time.{Time, zero_time, before}
use bid_lane.Postgres.Schema.{Uuid, Db, find_auction, find_bid, has_sequence}
use bid_lane.Postgres.Statements.{BidToPersist, bid_accepted, extended_row, has_event, has_id}
use bid_lane.Postgres.Transaction.{Service, Result, ok, err, bid_at_or_after_close}
use bid_lane.Postgres.Numbering.{next_seq}
use bid_lane.Postgres.Numbering.Invariant.{IsLedger, numbers}
use bid_lane.Postgres.AntiSnipe.{
  AntiSnipeAppendResult, duplicate, append_bid_idempotent_with_anti_snipe,
}
use bid_lane.Postgres.AntiSnipe.Effects.{new_result, new_db}
use bid_lane.Postgres.AntiSnipe.Retry.{IsQuiet, replay_answers}
use bid_lane.Postgres.AntiSnipe.Accept.{HasCounterKey, append_closed, append_new_bid}
use bid_lane.Postgres.AntiSnipe.Extension.{
  HasPrimaryKey, updated, returning-found, find_auction-extend,
}
use bid_lane.Postgres.AntiSnipe.Announcement.{IsAnnounced}
use bid_lane.Postgres.AuctionLog.{
  LogEntry, AuctionLog, entry_of, place, Verdict, placed, met, closed, accept, after_bid,
  verdict_on, submit,
}
use bid_lane.Postgres.AuctionLog.Keys.{ensured-HasCounterKey}
use bid_lane.Postgres.AuctionLog.Places.{
  entries_of, entries_of-append, length-entries_of, length-count_from, count_from, count_up-from,
  number_at, find_bid-place, numbers-bids_of, has_sequence-taken, has_event-taken, taken-count_from,
}

-- The log of an auction in the tables.
pub record Views (a : Uuid) (db : Db) (log : AuctionLog) : Type 0 where
  pub row : find_auction a db.auctions ≡ some log.row
  pub entries : entries_of a db.bids ≡ log.entries

-- The tables are as the schema and the transactions keep them.
pub record IsSound (a : Uuid) (db : Db) : Type 0 where
  pub ledger : IsLedger a db
  pub announced : IsAnnounced a db
  pub auctions : HasPrimaryKey db.auctions
  pub counters : HasCounterKey db.sequences

-- What the transaction returns for a verdict of the log.
abbrev pub Answers : Verdict → Result AntiSnipeAppendResult → Type 0
Answers (placed n extended close count) x =
    x
    ≡ ok (record {
      result = record { sequence_number = pos n; inserted = true };
      extended = extended;
      effective_close_time = close;
      extension_count = count;
    })
Answers (met n close count) x = x ≡ ok (duplicate (pos n) close count)
Answers closed x = x ≡ err bid_at_or_after_close

abbrev pub Implements : Uuid → Verdict × AuctionLog → Result AntiSnipeAppendResult × Db → Type 0
Implements a (v, log) (x, db) = Answers v x × Views a db log

-- The number behind the last, for a ledger with room.
next_number :
    (a : Uuid) (db : Db)
    → (l : IsLedger a db) → suc l.total < 2 ^ 63
    → next_seq a db ≡ pos (suc l.total)
unfolding next_seq add64 wrap64 ◌+ℤ◌
next_number a db l room = rw l.counter (ground arith)

module _ (s : Service) (quiet : IsQuiet s) (bid : BidToPersist) (t : Time) (db : Db)
    (log : AuctionLog) (nonzero : t ≢ zero_time) (sound : IsSound bid.auction_id db)
    (view : Views bid.auction_id db log) (room : suc (length log.entries) < 2 ^ 63)
    (amount : pos 1 ≤ℤ bid.amount) (new_id : has_id s.new_id db.outbox ≡ false) where
  gap_free : numbers bid.auction_id db.bids ≡ count_from 0 sound.ledger.total
  gap_free = sound.ledger.gap_free ∙ count_up-from sound.ledger.total

  found_at :
      (o : Option ℕ)
      → place bid.idempotency_key log.entries ≡ o
      → find_bid bid.auction_id bid.idempotency_key db.bids ≡ number_at 0 o
  found_at o e =
      find_bid-place bid.auction_id bid.idempotency_key 0 sound.ledger.total db.bids gap_free
      ∙ ap (λ l. number_at 0 (place bid.idempotency_key l)) view.entries
      ∙ ap (number_at 0) e

  met_case :
      (n : ℕ)
      → place bid.idempotency_key log.entries ≡ some n
      → Implements bid.auction_id
          (verdict_on (some n) bid t log)
          (append_bid_idempotent_with_anti_snipe s bid t db)
  met_case n e =
      let answer =
        replay_answers s bid t db log.row (pos (0 + n)) quiet nonzero view.row
          (found_at (some n) e) in
      rw answer (
        ap (λ m. ok (duplicate (pos m) log.row.effective_close_time log.row.extension_count))
            (omega arith),
        view,
      )

  -- As many bids as the counter says.
  total_lem : length log.entries ≡ sound.ledger.total
  total_lem =
      ap length (sym view.entries)
      ∙ length-entries_of bid.auction_id db.bids
      ∙ ap length gap_free
      ∙ length-count_from 0 sound.ledger.total

  next_seq_lem : next_seq bid.auction_id db ≡ pos (suc sound.ledger.total)
  next_seq_lem = next_number bid.auction_id db sound.ledger (rw (← total_lem) room)

  unused : has_sequence bid.auction_id (next_seq bid.auction_id db) db.bids ≡ false
  unused =
      has_sequence-taken bid.auction_id _ db.bids
      ∙ rw (gap_free, next_seq_lem)
          (taken-count_from 0 sound.ledger.total (suc sound.ledger.total) (omega arith))

  -- No event has the number: the events announce the bids.
  unannounced : has_event bid_accepted bid.auction_id (next_seq bid.auction_id db) db.outbox ≡ false
  unannounced =
      has_event-taken bid.auction_id _ db.outbox
      ∙ rw (sound.announced, ← numbers-bids_of bid.auction_id db.bids, gap_free, next_seq_lem)
          (taken-count_from 0 sound.ledger.total (suc sound.ledger.total) (omega arith))

  -- The result of the transaction tells what the verdict tells.
  answered :
      Answers
        (accept bid t log).0
        (ok (new_result bid t db log.row.effective_close_time log.row.extension_count))
  unfolding new_result after_bid extended_row
  answered = ground (
    arith,
    next_seq_lem,
    total_lem,
    returning-found bid.auction_id t db.auctions log.row sound.auctions view.row,
  )

  accepted_case :
      before t log.row.effective_close_time ≡ true
      → place bid.idempotency_key log.entries ≡ none
      → Implements bid.auction_id
          (accept bid t log)
          (append_bid_idempotent_with_anti_snipe s bid t db)
  unfolding new_result new_db after_bid updated
  accepted_case in_time e =
      let answer =
        append_new_bid s quiet bid t db log.row nonzero view.row (found_at none e)
          (ground (arith, in_time)) amount (rw next_seq_lem (omega arith)) unused
          (ensured-HasCounterKey bid.auction_id db.sequences sound.counters) new_id unannounced in
      rw answer (
        answered,
        record {
          row = find_auction-extend bid.auction_id t db.auctions log.row view.row;
          entries =
              entries_of-append bid.auction_id db.bids _ refl
              ∙ ap (λ (l : List LogEntry). l ++ entry_of bid ∷ []) view.entries;
        },
      )

  verdict_case :
      (o : Option ℕ)
      → place bid.idempotency_key log.entries ≡ o
      → Implements bid.auction_id
          (verdict_on o bid t log)
          (append_bid_idempotent_with_anti_snipe s bid t db)
  verdict_case (some n) e = met_case n e
  verdict_case none e = elim (Bool-cases (before t log.row.effective_close_time)) [
    | inl in_time ↦ rw in_time (accepted_case in_time e)
    | inr late ↦
        rw
          (
            late,
            append_closed s quiet bid t db log.row nonzero view.row (found_at none e)
                (ground (arith, late)),
          )
          (refl, view)
  ]

  -- If no call fails, the transaction returns what the log says of the submission, and the tables
  -- then hold the log that it leaves: a bid is placed behind those before it under that number, met
  -- at its place, or refused as too late.
  pub append-Implements :
      Implements bid.auction_id
        (submit bid t log)
        (append_bid_idempotent_with_anti_snipe s bid t db)
  unfolding submit
  append-Implements = verdict_case (place bid.idempotency_key log.entries) refl
