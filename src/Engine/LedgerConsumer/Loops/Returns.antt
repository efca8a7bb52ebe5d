-- ===== src/Engine/LedgerConsumer/Loops/Returns.antt =====
-- ProcessExactly returns, where Redis delivers.
use bid_lane.Prelude.{
  ℕ, zero, suc, ◌+◌, ◌-◌, ◌≤◌, ◌<◌, ◌≡◌, ◌≢◌, inl, inr, List, Option, none, some, Text, length, ltb,
  Bool-cases, arith,
}
use bid_lane.Prelude.Int.{ℤ}
use bid_lane.Postgres.Schema.{Uuid}
use bid_lane.Postgres.Transaction.{Service}
use bid_lane.Redis.Message.{XMessage}
use bid_lane.Redis.Client.{RedisClient, reply, nothing}
use bid_lane.Redis.Streams.{flatten}
use bid_lane.Engine.LedgerConsumer.{
  LedgerConsumerConfig, ConsumerError, World, Progress, running, process_batch,
}
use bid_lane.Engine.LedgerConsumer.Loops.{read_count, exact_loop, exact_from, process_exactly}
use bid_lane.Engine.LedgerConsumer.Loops.Consistent.{on_error_elim}
use bid_lane.Engine.LedgerConsumer.Loops.Batch.{read_reply, process_batch-BatchEffect}

module _ {R E : Type 0} (client : RedisClient R) (parse_uuid : Text → Option Uuid)
    (next_service : E → Service × E) (config : LedgerConsumerConfig E) where
  module _
      (x_read_group-delivers : (count : ℤ) (r r' : R) (streams : List (Text × List XMessage))
        → read_reply client parse_uuid next_service config count r ≡ (reply streams, r')
        → 1 ≤ length (flatten streams))
      (x_read_group-waits : (count : ℤ) (r r' : R)
        → read_reply client parse_uuid next_service config count r ≢ (nothing, r')) where
    delivered :
        (count : ℤ) (w : World R E)
        → let x = process_batch client parse_uuid next_service config count w in
          x.1 ≡ none → 1 ≤ x.0
    delivered count w no_error =
        elim ((process_batch-BatchEffect client parse_uuid next_service config count w).complete
          no_error) [
            | inl (r, none_came) ↦ absurd (x_read_group-waits count w.redis r none_came)
            | inr (streams, r, answer, same) ↦
                omega (arith, same, x_read_group-delivers count w.redis r streams answer)
          ]

    exact_loop-ne-running :
        (rounds expected processed : ℕ) (w : World R E)
        → expected - processed < rounds
        → (exact_loop client parse_uuid next_service config rounds expected processed w).1 ≢ running
    unfolding exact_loop
    exact_loop-ne-running zero expected processed w enough = absurd (omega arith)
    exact_loop-ne-running (suc rounds) expected processed w enough =
        let count = read_count config.batch_size (expected - processed) in
        let x = process_batch client parse_uuid next_service config count w in
        elim (Bool-cases (ltb processed expected)) [
          | inr full ↦ rw (exact_loop, full) (λ h. cc)
          | inl more ↦
              rw (exact_loop, more)
                (on_error_elim (λ (y : ℕ × Progress × World R E). y.1 ≢ running) x.1 _ _
                  (λ e _ h. cc)
                  (λ no_error.
                    exact_loop-ne-running rounds expected (processed + x.0) x.2
                      (ground (arith, more, enough, delivered count w no_error))))
        ]

    exact_from-ne-running :
        (rounds expected : ℕ) (y : Option ConsumerError × World R E)
        → expected < rounds
        → (exact_from client parse_uuid next_service config rounds expected y).1 ≢ running
    unfolding exact_from
    exact_from-ne-running rounds expected (some e, w) enough = λ h. cc
    exact_from-ne-running rounds expected (none, w) enough =
        exact_loop-ne-running rounds expected 0 w (omega (arith, enough))

    -- If every XREADGROUP that does not fail delivers an entry, ProcessExactly returns, after as many
    -- reads as it is asked for entries at most.
    pub process_exactly-ne-running :
        (rounds expected : ℕ) (w : World R E)
        → expected < rounds
        → (process_exactly client parse_uuid next_service config rounds expected w).1 ≢ running
    unfolding process_exactly
    process_exactly-ne-running rounds zero w enough = λ h. cc
    process_exactly-ne-running rounds (suc n) w enough =
        exact_from-ne-running rounds (suc n) _ enough
