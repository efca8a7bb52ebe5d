-- ===== src/Engine/LedgerConsumer/Safety.antt =====
-- What processEntries and processBatch do to Redis and to the database, over any number of entries.
use bid_lane.Prelude.{
  ℕ, ◌+◌, ap, refl, subst, sym, ◌∙◌, ◌≡◌, inl, inr, ◌∷◌, [], ◌++◌, length, All, List, Option, none,
  some, Option-cases, Text, arith,
}
use bid_lane.Prelude.Int.{ℤ}
use bid_lane.Postgres.Schema.{Uuid, Bid, Db, find_bid}
use bid_lane.Postgres.Transaction.{Service}
use bid_lane.Postgres.AntiSnipe.Announcement.{IsAnnounced, append-IsAnnounced}
use bid_lane.Postgres.Numbering.Invariant.{IsLedger}
use bid_lane.Postgres.History.{Operation, anti_snipe, history}
use bid_lane.Postgres.History.Ledger.{history-IsLedger, history-append_only}
use bid_lane.Redis.Message.{BidStreamEntry}
use bid_lane.Redis.Client.{RedisClient}
use bid_lane.Redis.Streams.{stream_key, Outcome}
use bid_lane.Redis.Streams as Streams
use bid_lane.Engine.LedgerConsumer.{
  LedgerConsumerConfig, ConsumerError, World, process_entry, process_entries, read_then_process,
  process_batch,
}
use bid_lane.Engine.LedgerConsumer.Entry.{Submission, submissions, IsSettled}
use bid_lane.Engine.LedgerConsumer.Entry.Round.{process_entry-EntryEffect}

pub submissions-append :
    (calls more : List Submission) (db : Db)
    → submissions (calls ++ more) db ≡ submissions more (submissions calls db)
unfolding submissions
submissions-append [] more db = refl
submissions-append ((s, (bid, t)) ∷ calls) more db = submissions-append calls more _

operations : List Submission → List Operation
operations [] = []
operations ((s, (bid, t)) ∷ calls) = anti_snipe s bid t ∷ operations calls

submissions-history :
    (calls : List Submission) (db : Db) → submissions calls db ≡ history (operations calls) db
unfolding submissions history operations
submissions-history [] db = refl
submissions-history ((s, (bid, t)) ∷ calls) db = submissions-history calls _

pub submissions-IsLedger :
    (a : Uuid) (calls : List Submission) (db : Db)
    → IsLedger a db
    → IsLedger a (submissions calls db)
submissions-IsLedger a calls db l =
    subst (IsLedger a) (sym (submissions-history calls db))
      (history-IsLedger a (operations calls) db l)

pub submissions-IsAnnounced :
    (a : Uuid) (calls : List Submission) (db : Db)
    → IsAnnounced a db
    → IsAnnounced a (submissions calls db)
unfolding submissions
submissions-IsAnnounced a [] db h = h
submissions-IsAnnounced a ((s, (bid, t)) ∷ calls) db h =
    submissions-IsAnnounced a calls _ (append-IsAnnounced a s bid t db h)

submissions-append_only :
    (calls : List Submission) (db : Db)
    → (rows : List Bid) × ((submissions calls db).bids ≡ db.bids ++ rows)
submissions-append_only calls db =
    let (rows, e) = history-append_only (operations calls) db in
    (rows, ap (λ (x : Db). x.bids) (submissions-history calls db) ∙ e)

find_bid-more :
    (a k : Uuid) (n : ℤ) (rows more : List Bid)
    → find_bid a k rows ≡ some n
    → find_bid a k (rows ++ more) ≡ some n
unfolding find_bid
find_bid-more a k n [] more h = cc
find_bid-more a k n (r ∷ rows) more h = ground (arith, find_bid-more a k n rows more)

module _ {R E : Type 0} (client : RedisClient R) (parse_uuid : Text → Option Uuid)
    (next_service : E → Service × E) (config : LedgerConsumerConfig E) where
  -- What is settled stays so.
  pub IsSettled-submissions :
      (entry : BidStreamEntry) (calls : List Submission) (db : Db)
      → IsSettled client parse_uuid config entry db
      → IsSettled client parse_uuid config entry (submissions calls db)
  IsSettled-submissions entry calls db (inr rejected) = inr rejected
  IsSettled-submissions entry calls db (inl (a, k, n, ea, ek, found)) =
      let (rows, e) = submissions-append_only calls db in
      inl (a, k, n, ea, ek, ap (find_bid a k) e ∙ find_bid-more a k n db.bids rows found)

  -- The entries that processEntries counts are a first part of those it is given, all of them if it
  -- ends without an error, and settled; the database changes by submissions only.
  pub record EntriesEffect (entries : List BidStreamEntry) (processed : ℕ) (w : World R E)
      (x : ℕ × Option ConsumerError × World R E) : Type 0 where
    pub calls : List Submission
    pub database : x.2.db ≡ submissions calls w.db
    pub handled : List BidStreamEntry
    pub rest : List BidStreamEntry
    pub parts : entries ≡ handled ++ rest
    pub count : x.0 ≡ processed + length handled
    pub settled : All (λ entry. IsSettled client parse_uuid config entry x.2.db) handled
    pub complete : x.1 ≡ none → rest ≡ []

  pub process_entries-EntriesEffect :
      (entries : List BidStreamEntry) (processed : ℕ) (w : World R E)
      → EntriesEffect entries processed w
          (process_entries client parse_uuid next_service config entries processed w)
  unfolding process_entries submissions
  process_entries-EntriesEffect [] processed w = record {
    calls = [];
    database = refl;
    handled = [];
    rest = [];
    parts = refl;
    count = omega arith;
    settled = tt;
    complete = λ e. refl;
  }
  process_entries-EntriesEffect (entry ∷ entries) processed w =
      let y = process_entry client parse_uuid next_service config entry w in
      let one = process_entry-EntryEffect client parse_uuid next_service config entry w in
      elim (Option-cases y.0) [
        | inl e ↦
            let more = process_entries-EntriesEffect entries (processed + 1) y.1 in
            rw (process_entries, e)
              (record {
                calls = one.calls ++ more.calls;
                database =
                    more.database
                    ∙ ap (submissions more.calls) one.database
                    ∙ sym (submissions-append one.calls more.calls w.db);
                handled = entry ∷ more.handled;
                rest = more.rest;
                parts = ap (λ (x : List BidStreamEntry). entry ∷ x) more.parts;
                count = omega (arith, more.count);
                settled = (
                  subst (IsSettled client parse_uuid config entry) (sym more.database)
                      (IsSettled-submissions entry more.calls y.1.db (one.success e)),
                  more.settled,
                );
                complete = more.complete;
              })
        | inr (x, e) ↦
            rw (process_entries, e)
              (record {
                calls = one.calls;
                database = one.database;
                handled = [];
                rest = entry ∷ entries;
                parts = refl;
                count = omega arith;
                settled = tt;
                complete = λ h. cc;
              })
      ]

  -- The database under processBatch, whatever Redis delivers.
  read_then_process-submissions :
      (w : World R E) (y : Outcome (List BidStreamEntry) × R)
      → (calls : List Submission) × ((read_then_process client parse_uuid next_service config w
            y).2.db
          ≡ submissions calls w.db)
  unfolding read_then_process submissions
  read_then_process-submissions w (Streams.err x, redis) = ([], refl)
  read_then_process-submissions w (Streams.ok entries, redis) =
      let h = process_entries-EntriesEffect entries 0 (record w { redis = redis }) in
      (h.calls, h.database)

  pub process_batch-submissions :
      (count : ℤ) (w : World R E)
      → (calls : List Submission) × ((process_batch client parse_uuid next_service config count
            w).2.db
          ≡ submissions calls w.db)
  unfolding process_batch
  process_batch-submissions count w = read_then_process-submissions w _

  -- Whatever Redis delivers, and whatever fails, processBatch keeps an auction's bids numbered
  -- without gaps, one row for each logical bid, and announced one for one by its events.
  pub process_batch_consistent :
      (a : Uuid) (count : ℤ) (w : World R E)
      → IsLedger a w.db
      → IsAnnounced a w.db
      → let w' = (process_batch client parse_uuid next_service config count w).2 in
        IsLedger a w'.db × IsAnnounced a w'.db
  process_batch_consistent a count w l h =
      let (calls, e) = process_batch-submissions count w in
      (
        subst (IsLedger a) (sym e) (submissions-IsLedger a calls w.db l),
        subst (IsAnnounced a) (sym e) (submissions-IsAnnounced a calls w.db h),
      )
