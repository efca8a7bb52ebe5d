-- ===== src/Engine/LedgerConsumer/Loops/Exact.antt =====
-- ProcessExactly handles the number of entries that it is asked for.
use bid_lane.Prelude.{
  ℕ, zero, suc, ◌+◌, ◌-◌, ◌≤◌, refl, subst, sym, ◌≡◌, inl, inr, [], ◌++◌, List, Option, none, some,
  Text, All, All-map, All-append, length, length-append, ltb, Bool-cases, arith,
}
use bid_lane.Prelude.Int.{ℤ, pos, ◌≤ℤ◌}
use bid_lane.Postgres.Schema.{Uuid}
use bid_lane.Postgres.Transaction.{Service}
use bid_lane.Redis.Message.{BidStreamEntry, XMessage}
use bid_lane.Redis.Client.{RedisClient, reply}
use bid_lane.Redis.Streams.{flatten}
use bid_lane.Engine.LedgerConsumer.{
  LedgerConsumerConfig, ConsumerError, World, Progress, returned, process_batch,
}
use bid_lane.Engine.LedgerConsumer.Entry.{IsSettled, Submission, submissions}
use bid_lane.Engine.LedgerConsumer.Safety.{IsSettled-submissions}
use bid_lane.Engine.LedgerConsumer.Loops.{
  read_count, exact_loop, exact_from, ensure_group, process_exactly,
}
use bid_lane.Engine.LedgerConsumer.Loops.Batch.{read_reply, Delivered, process_batch-BatchEffect}
use bid_lane.Engine.LedgerConsumer.Loops.Consistent.{on_error_elim}

read_count-le : (batch_size : ℤ) (remaining : ℕ) → read_count batch_size remaining ≤ℤ pos remaining
unfolding read_count
read_count-le batch_size remaining = ground arith

read_count_positive :
    (batch_size : ℤ) (remaining : ℕ)
    → pos 1 ≤ℤ batch_size
    → 1 ≤ remaining
    → pos 1 ≤ℤ read_count batch_size remaining
unfolding read_count
read_count_positive batch_size remaining h k = ground arith

module _ {R E : Type 0} (client : RedisClient R) (parse_uuid : Text → Option Uuid)
    (next_service : E → Service × E) (config : LedgerConsumerConfig E) where
  still-IsSettled :
      (w w' : World R E) (calls : List Submission)
      → w'.db ≡ submissions calls w.db
      → (handled : List BidStreamEntry)
      → All (λ entry. IsSettled client parse_uuid config entry w.db) handled
      → All (λ entry. IsSettled client parse_uuid config entry w'.db) handled
  still-IsSettled w w' calls e handled = All-map _ _ handled λ entry s.
      subst (IsSettled client parse_uuid config entry) (sym e)
        (IsSettled-submissions client parse_uuid next_service config entry calls w.db s)

  -- Reads one behind the other: what each of them delivered, in order, and the state behind them.
  pub data Handling (start : World R E) : List BidStreamEntry → World R E → Type 0 where
    begin : Handling start [] start
    batch :
        {entries : List BidStreamEntry} {w : World R E} (count : ℤ) (more : List BidStreamEntry)
        → Handling start entries w
        → Delivered client parse_uuid next_service config count w.redis more
        → Handling start
            (entries ++ more)
            (process_batch client parse_uuid next_service config count w).2

  -- The entries that were delivered in reads from `start` on are so many, and all settled.
  pub record IsHandled (expected n : ℕ) (start w : World R E) : Type 0 where
    pub exact : n ≡ expected
    pub entries : List BidStreamEntry
    pub delivered : Handling start entries w
    pub all : length entries ≡ expected
    pub settled : All (λ entry. IsSettled client parse_uuid config entry w.db) entries

  abbrev Handles : ℕ → World R E → ℕ × Progress × World R E → Type 0
  Handles expected start (n, p, w) = p ≡ returned none → IsHandled expected n start w

  module _
      (x_read_group-counts : (count : ℤ) (r r' : R) (streams : List (Text × List XMessage))
        → read_reply client parse_uuid next_service config count r ≡ (reply streams, r')
        → pos (length (flatten streams)) ≤ℤ count) where
    in_bounds :
        (expected processed : ℕ) (w : World R E)
        → processed ≤ expected
        → let count = read_count config.batch_size (expected - processed) in
          processed + (process_batch client parse_uuid next_service config count w).0 ≤ expected
    in_bounds expected processed w b =
        let count = read_count config.batch_size (expected - processed) in
        let le = read_count-le config.batch_size (expected - processed) in
        elim (process_batch-BatchEffect client parse_uuid next_service config count w).answered [
          | inl zero_read ↦ omega (arith, zero_read)
          | inr (streams, r, answer, bound) ↦
              omega (arith, bound, le, x_read_group-counts count w.redis r streams answer)
        ]

    exact_loop-Handles :
        (rounds expected processed : ℕ) (start w : World R E) (handled : List BidStreamEntry)
        → Handling start handled w
        → length handled ≡ processed
        → processed ≤ expected
        → All (λ entry. IsSettled client parse_uuid config entry w.db) handled
        → Handles expected start
            (exact_loop client parse_uuid next_service config rounds expected processed w)
    unfolding exact_loop
    exact_loop-Handles zero expected processed start w handled d l b s = λ e. cc
    exact_loop-Handles (suc rounds) expected processed start w handled d l b s =
        let count = read_count config.batch_size (expected - processed) in
        let x = process_batch client parse_uuid next_service config count w in
        let one = process_batch-BatchEffect client parse_uuid next_service config count w in
        elim (Bool-cases (ltb processed expected)) [
          | inr full ↦
              rw (exact_loop, full)
                (λ _. record {
                  exact = ground arith;
                  entries = handled;
                  delivered = d;
                  all = ground (arith, l);
                  settled = s;
                })
          | inl more ↦
              rw (exact_loop, more)
                (on_error_elim (Handles expected start) x.1 _ _ (λ e _ h. cc)
                  (λ no_error.
                    exact_loop-Handles rounds expected (processed + x.0) start x.2
                      (handled ++ one.handled) (batch count one.handled d (one.delivered no_error))
                      (omega (arith, length-append handled one.handled, one.number, l))
                      (in_bounds expected processed w b)
                      (All-append _ handled one.handled
                        (still-IsSettled w x.2 one.calls one.database handled s) one.settled)))
        ]

    exact_from-Handles :
        (rounds expected : ℕ) (y : Option ConsumerError × World R E)
        → Handles expected y.1 (exact_from client parse_uuid next_service config rounds expected y)
    unfolding exact_from
    exact_from-Handles rounds expected (some e, w) = λ h. cc
    exact_from-Handles rounds expected (none, w) =
        exact_loop-Handles rounds expected 0 w w [] begin refl (omega arith) tt

    -- If XREADGROUP keeps to its COUNT: where ProcessExactly returns without an error, the entries
    -- that XREADGROUP delivered to it, in its reads behind the creation of the group, are as many as
    -- were asked for, and as it counted, and each is on record in the ledger or was turned down by
    -- the validator.
    pub process_exactly-IsHandled :
        (rounds expected : ℕ) (w : World R E)
        → (process_exactly client parse_uuid next_service config rounds expected w).1
          ≡ returned none
        → IsHandled expected
            (process_exactly client parse_uuid next_service config rounds expected w).0
            (ensure_group client parse_uuid next_service config w).1
            (process_exactly client parse_uuid next_service config rounds expected w).2
    unfolding process_exactly
    process_exactly-IsHandled rounds zero w h = cc
    process_exactly-IsHandled rounds (suc n) w h = exact_from-Handles rounds (suc n) _ h
