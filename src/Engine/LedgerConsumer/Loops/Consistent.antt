-- ===== src/Engine/LedgerConsumer/Loops/Consistent.antt =====
-- What the loops of the ledger consumer do to the database, at any point of their run.
use bid_lane.Prelude.{
  ℕ, zero, suc, ◌+◌, ap, refl, subst, sym, ◌∙◌, ◌≡◌, [], ◌++◌, List, Option, none, some, Text, Bool,
  if_elim, is_empty,
}
use bid_lane.Prelude.Int.{leb_ℤ, pos}
use bid_lane.Postgres.Schema.{Uuid, Db}
use bid_lane.Postgres.Transaction.{Service}
use bid_lane.Postgres.AntiSnipe.Announcement.{IsAnnounced}
use bid_lane.Postgres.Numbering.Invariant.{IsLedger}
use bid_lane.Redis.Message.{BidStreamEntry}
use bid_lane.Redis.Client.{RedisClient}
use bid_lane.Redis.Streams as Streams
use bid_lane.Redis.Streams.{Outcome}
use bid_lane.Engine.LedgerConsumer.{
  LedgerConsumerConfig, ConsumerError, World, Progress, running, returned, process_batch,
}
use bid_lane.Engine.LedgerConsumer.Entry.{Submission, submissions}
use bid_lane.Engine.LedgerConsumer.Safety.{
  submissions-append, submissions-IsLedger, submissions-IsAnnounced, process_entries-EntriesEffect,
  process_batch-submissions,
}
use bid_lane.Engine.LedgerConsumer.Loops.{
  Turn, stop, go, turn_of, group_ensured, ensure_group, recovery_batch, first_cursor, page_of,
  recover_page, recover_loop, recover_pending, on_error, on_progress, on_turn, run_loop, run_from,
  run,
}

-- The database has changed by submissions only.
abbrev pub Submits : Db → Db → Type 0
Submits db db' = (calls : List Submission) × (db' ≡ submissions calls db)

Submits-refl : (db : Db) → Submits db db
unfolding submissions
Submits-refl db = ([], refl)

Submits-trans : (p q r : Db) → Submits p q → Submits q r → Submits p r
Submits-trans p q r (calls, e) (more, e') =
    (calls ++ more, e' ∙ ap (submissions more) e ∙ sym (submissions-append calls more p))

-- What a change by submissions keeps of an auction's ledger.
Submits-IsLedger :
    (a : Uuid) (db db' : Db)
    → Submits db db'
    → IsLedger a db
    → IsAnnounced a db
    → IsLedger a db' × IsAnnounced a db'
Submits-IsLedger a db db' (calls, e) l h = (
  subst (IsLedger a) (sym e) (submissions-IsLedger a calls db l),
  subst (IsAnnounced a) (sym e) (submissions-IsAnnounced a calls db h),
)

-- To show a property of what follows an error test, a recovery, or a page.
pub on_error_elim {ℓ κ} :
    {A : Type ℓ} (P : A → Type κ) (x : Option ConsumerError) (failure : ConsumerError → A)
    (rest : Unit {0} → A)
    → ((e : ConsumerError) → x ≡ some e → P (failure e))
    → (x ≡ none → P (rest tt))
    → P (on_error x failure rest)
on_error_elim P (some e) failure rest f g = f e refl
on_error_elim P none failure rest f g = g refl

pub on_progress_elim {ℓ κ} :
    {A : Type ℓ} (P : A → Type κ) (p : Progress) (unfinished : A) (failure : ConsumerError → A)
    (rest : Unit {0} → A)
    → (p ≡ running → P unfinished)
    → ((e : ConsumerError) → p ≡ returned (some e) → P (failure e))
    → (p ≡ returned none → P (rest tt))
    → P (on_progress p unfinished failure rest)
on_progress_elim P running unfinished failure rest u f g = u refl
on_progress_elim P (returned (some e)) unfinished failure rest u f g = f e refl
on_progress_elim P (returned none) unfinished failure rest u f g = g refl

pub on_turn_elim {ℓ κ} :
    {A : Type ℓ} (P : A → Type κ) (t : Turn) (ending : Progress → A) (more : Text → A)
    → ((p : Progress) → t ≡ stop p → P (ending p))
    → ((next : Text) → t ≡ go next → P (more next))
    → P (on_turn t ending more)
on_turn_elim P (stop p) ending more f g = f p refl
on_turn_elim P (go next) ending more f g = g next refl

module _ {R E : Type 0} (client : RedisClient R) (parse_uuid : Text → Option Uuid)
    (next_service : E → Service × E) (config : LedgerConsumerConfig E) where
  page-Submits :
      (w : World R E) (y : Outcome (List BidStreamEntry × Text) × R)
      → Submits w.db (page_of client parse_uuid next_service config w y).0.2.db
  unfolding page_of
  page-Submits w (Streams.err x, redis) = Submits-refl w.db
  page-Submits w (Streams.ok (entries, next), redis) =
      let h =
        process_entries-EntriesEffect client parse_uuid next_service config entries 0
          (record w { redis = redis }) in
      (h.calls, h.database)

  recover_page-Submits :
      (start : Text) (w : World R E)
      → Submits w.db (recover_page client parse_uuid next_service config start w).0.2.db
  unfolding recover_page
  recover_page-Submits start w = page-Submits w _

  recover_loop-Submits :
      (rounds : ℕ) (start : Text) (total : ℕ) (w : World R E)
      → Submits w.db (recover_loop client parse_uuid next_service config rounds start total w).2.db
  unfolding recover_loop
  recover_loop-Submits zero start total w = Submits-refl w.db
  recover_loop-Submits (suc rounds) start total w =
      let page = recover_page client parse_uuid next_service config start w in
      let x = page.0 in
      let one = recover_page-Submits start w in
      on_turn_elim (λ (y : ℕ × Progress × World R E). Submits w.db y.2.db)
        (turn_of start x.1 page.1 page.2) _ _ (λ p _. one)
        (λ next _.
          Submits-trans w.db x.2.db _ one (recover_loop-Submits rounds next (total + x.0) x.2))

  recover_pending-Submits :
      (rounds : ℕ) (w : World R E)
      → Submits w.db (recover_pending client parse_uuid next_service config rounds w).2.db
  unfolding recover_pending
  recover_pending-Submits rounds w =
      if_elim (λ (y : ℕ × Progress × World R E). Submits w.db y.2.db)
        (leb_ℤ (recovery_batch config) (pos 0)) _ _ (Submits-refl w.db)
        (recover_loop-Submits rounds first_cursor 0 w)

  run_loop-Submits :
      (cancelled : World R E → Bool) (pages rounds : ℕ) (w : World R E)
      → Submits w.db (run_loop client parse_uuid next_service config cancelled pages rounds w).1.db
  unfolding run_loop
  run_loop-Submits cancelled pages zero w = Submits-refl w.db
  run_loop-Submits cancelled pages (suc rounds) w =
      let r = recover_pending client parse_uuid next_service config pages w in
      let x = process_batch client parse_uuid next_service config config.batch_size r.2 in
      let recovered = recover_pending-Submits pages w in
      let batch =
        Submits-trans w.db r.2.db x.2.db recovered
          (process_batch-submissions client parse_uuid next_service config config.batch_size r.2) in
      on_progress_elim (λ (y : Progress × World R E). Submits w.db y.1.db) r.1 _ _ _
        (λ _. recovered) (λ e _. recovered)
        (λ _.
          on_error_elim (λ (y : Progress × World R E). Submits w.db y.1.db) x.1 _ _ (λ e _. batch)
            (λ _. Submits-trans w.db x.2.db _ batch (run_loop-Submits cancelled pages rounds x.2)))

  group_ensured-db :
      (w : World R E) (y : Outcome (Unit {0}) × R)
      → (group_ensured client parse_uuid next_service config w y).1.db ≡ w.db
  unfolding group_ensured
  group_ensured-db w (Streams.ok _, redis) = refl
  group_ensured-db w (Streams.err x, redis) = refl

  pub ensure_group-db :
      (w : World R E) → (ensure_group client parse_uuid next_service config w).1.db ≡ w.db
  unfolding ensure_group
  ensure_group-db w =
      let P = λ (y : Option ConsumerError × World R E). y.1.db ≡ w.db in
      if_elim P (is_empty config.auction_id) _ _ refl (
        if_elim P (is_empty config.group) _ _ refl (
          if_elim P (is_empty config.consumer) _ _ refl
            (if_elim P (leb_ℤ config.batch_size (pos 0)) _ _ refl (group_ensured-db w _))))

  run_from-Submits :
      (cancelled : World R E → Bool) (pages rounds : ℕ) (y : Option ConsumerError × World R E)
      → Submits y.1.db
          (run_from client parse_uuid next_service config cancelled pages rounds y).1.db
  unfolding run_from
  run_from-Submits cancelled pages rounds (some e, w) = Submits-refl w.db
  run_from-Submits cancelled pages rounds (none, w) = run_loop-Submits cancelled pages rounds w

  -- However many rounds Run has made, whether it goes on or has returned, and whatever Redis
  -- delivers and whatever fails: the bids of an auction stay numbered without gaps, with one row for
  -- each logical bid, and announced one for one by its events.
  pub run_consistent :
      (a : Uuid) (cancelled : World R E → Bool) (pages rounds : ℕ) (w : World R E)
      → IsLedger a w.db
      → IsAnnounced a w.db
      → let w' = (run client parse_uuid next_service config cancelled pages rounds w).1 in
        IsLedger a w'.db × IsAnnounced a w'.db
  unfolding run
  run_consistent a cancelled pages rounds w =
      let w' = (run client parse_uuid next_service config cancelled pages rounds w).1 in
      Submits-IsLedger a w.db w'.db (
        subst (λ db. Submits db w'.db) (ensure_group-db w)
          (run_from-Submits cancelled pages rounds
            (ensure_group client parse_uuid next_service config w)))
