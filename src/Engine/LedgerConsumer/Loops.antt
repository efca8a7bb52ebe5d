-- ===== src/Engine/LedgerConsumer/Loops.antt =====
-- The loops of internal/engine/ledger_consumer.go: ProcessExactly, recoverPending and Run. Each takes
-- the number of rounds that it may make, and says whether it has returned by then.
pub mod Consistent
pub mod Recovery
pub mod Batch
pub mod Exact
pub mod Returns
mod Tests
use bid_lane.Prelude.{
  ℕ, zero, suc, ◌+◌, ◌-◌, ◌*◌, ◌^◌, [], ◌∷◌, List, Option, none, some, Text, codes, is_empty,
  text_eq, Bool, true, false, not, ◌&&◌, ltb, if◌then◌else◌,
}
use bid_lane.Prelude.Int.{ℤ, pos, leb_ℤ, ltb_ℤ}
use bid_lane.Postgres.Schema.{Uuid}
use bid_lane.Postgres.Transaction.{Service}
use bid_lane.Redis.Message.{BidStreamEntry}
use bid_lane.Redis.Client.{RedisClient}
use bid_lane.Redis.Streams as Streams
use bid_lane.Redis.Streams.{Outcome, ensure_consumer_group, auto_claim_pending}
use bid_lane.Engine.LedgerConsumer.{
  LedgerConsumerConfig, ConsumerError, auction_id_required, group_required, consumer_required,
  batch_size_not_positive, ensure_group_failed, expected_count_not_positive,
  recovery_batch_not_positive, claim_failed, cursor_stuck, recover_failed, World, Progress, running,
  returned, process_entries, process_batch,
}

-- The smaller of the two counts.
unfoldable pub read_count : ℤ → ℕ → ℤ
read_count batch_size remaining =
    if ltb_ℤ (pos remaining) batch_size then pos remaining else batch_size

-- The batch size and the idle time of recoverPending, with their defaults; 30 s in nanoseconds.
unfoldable pub recovery_batch : {E : Type 0} → LedgerConsumerConfig E → ℤ
recovery_batch config =
    if leb_ℤ config.recovery_batch_size (pos 0)
    then config.batch_size
    else config.recovery_batch_size

unfoldable pub recovery_idle : {E : Type 0} → LedgerConsumerConfig E → ℤ
recovery_idle config =
    if leb_ℤ config.recovery_min_idle (pos 0) then pos (30 * 10 ^ 9) else config.recovery_min_idle

abbrev pub first_cursor : Text
first_cursor = codes "0-0"

-- `if err != nil { return … }`, and what follows; the cases carry what the rest of a loop does.
abbrev pub on_error {ℓ} :
    {A : Type ℓ} → Option ConsumerError → (ConsumerError → A) → (Unit {0} → A) → A
on_error (some e) failure rest = failure e
on_error none failure rest = rest tt

abbrev pub on_progress {ℓ} : {A : Type ℓ} → Progress → A → (ConsumerError → A) → (Unit {0} → A) → A
on_progress running unfinished failure rest = unfinished
on_progress (returned (some e)) unfinished failure rest = failure e
on_progress (returned none) unfinished failure rest = rest tt

-- What follows a page: the loop returns, or goes on with the next cursor.
pub data Turn : Type 0 where
  stop : Progress → Turn
  go : Text → Turn

abbrev pub on_turn {ℓ} : {A : Type ℓ} → Turn → (Progress → A) → (Text → A) → A
on_turn (stop p) ending more = ending p
on_turn (go next) ending more = more next

abbrev is_nil : {A : Type 0} → List A → Bool
is_nil [] = true
is_nil (_ ∷ _) = false

unfoldable pub turn_of : Text → Option ConsumerError → List BidStreamEntry → Text → Turn
turn_of start (some e) entries next = stop (returned (some e))
turn_of start none entries next =
    if text_eq next first_cursor
    then stop (returned none)
    else if text_eq next start && is_nil entries
    then stop (returned (some (cursor_stuck start)))
    else go next

abbrev pub counted : Option ConsumerError → ℕ → ℕ → ℕ
counted (some e) total n = total
counted none total n = total + n

module _ {R E : Type 0} (client : RedisClient R) (parse_uuid : Text → Option Uuid)
    (next_service : E → Service × E) (config : LedgerConsumerConfig E) where
  group_ensured : World R E → Outcome (Unit {0}) × R → Option ConsumerError × World R E
  group_ensured w (Streams.ok _, redis) = (none, record w { redis = redis })
  group_ensured w (Streams.err x, redis) =
      (some (ensure_group_failed x), record w { redis = redis })

  -- ensureGroup
  unfoldable pub ensure_group : World R E → Option ConsumerError × World R E
  unfolding group_ensured
  ensure_group w =
      if is_empty config.auction_id
      then (some auction_id_required, w)
      else if is_empty config.group
      then (some group_required, w)
      else if is_empty config.consumer
      then (some consumer_required, w)
      else if leb_ℤ config.batch_size (pos 0)
      then (some batch_size_not_positive, w)
      else group_ensured w (
          ensure_consumer_group (record { client = some client }) config.auction_id config.group
            w.redis)

  -- The loop of ProcessExactly.
  unfoldable pub exact_loop : ℕ → ℕ → ℕ → World R E → ℕ × Progress × World R E
  exact_loop zero expected processed w = (processed, running, w)
  exact_loop (suc rounds) expected processed w =
      let x =
        process_batch client parse_uuid next_service config
          (read_count config.batch_size (expected - processed)) w in
      elim (ltb processed expected) [
        | false ↦ (processed, returned none, w)
        | true ↦
            on_error x.1 (λ e. (processed, returned (some e), x.2))
              (λ _. exact_loop rounds expected (processed + x.0) x.2)
      ]

  exact_from : ℕ → ℕ → Option ConsumerError × World R E → ℕ × Progress × World R E
  unfolding exact_loop
  exact_from rounds expected (some e, w) = (0, returned (some e), w)
  exact_from rounds expected (none, w) = exact_loop rounds expected 0 w

  -- ProcessExactly
  unfoldable pub process_exactly : ℕ → ℕ → World R E → ℕ × Progress × World R E
  unfolding exact_from
  process_exactly rounds zero w = (0, returned (some expected_count_not_positive), w)
  process_exactly rounds (suc n) w = exact_from rounds (suc n) (ensure_group w)

  -- One page of the pending list: what its entries come to, and the cursor behind it.
  page_of :
      World R E
      → Outcome (List BidStreamEntry × Text) × R
      → (ℕ × Option ConsumerError × World R E) × List BidStreamEntry × Text
  page_of w (Streams.err x, redis) =
      ((0, some (claim_failed x), record w { redis = redis }), [], [])
  page_of w (Streams.ok (entries, next), redis) = (
    process_entries client parse_uuid next_service config entries 0 (record w { redis = redis }),
    entries,
    next,
  )

  unfoldable pub recover_page :
      Text → World R E → (ℕ × Option ConsumerError × World R E) × List BidStreamEntry × Text
  unfolding page_of
  recover_page start w = page_of w (
      auto_claim_pending client config.auction_id config.group config.consumer
        (recovery_idle config) start (recovery_batch config) w.redis)

  -- The loop of recoverPending.
  unfoldable pub recover_loop : ℕ → Text → ℕ → World R E → ℕ × Progress × World R E
  recover_loop zero start total w = (total, running, w)
  recover_loop (suc rounds) start total w =
      let page = recover_page start w in
      let x = page.0 in
      on_turn (turn_of start x.1 page.1 page.2) (λ p. (counted x.1 total x.0, p, x.2))
        (λ next. recover_loop rounds next (total + x.0) x.2)

  -- recoverPending
  unfoldable pub recover_pending : ℕ → World R E → ℕ × Progress × World R E
  unfolding recover_loop
  recover_pending rounds w =
      if leb_ℤ (recovery_batch config) (pos 0)
      then (0, returned (some recovery_batch_not_positive), w)
      else recover_loop rounds first_cursor 0 w

  recover_from : ℕ → Option ConsumerError × World R E → ℕ × Progress × World R E
  unfolding recover_pending
  recover_from rounds (some e, w) = (0, returned (some e), w)
  recover_from rounds (none, w) = recover_pending rounds w

  -- RecoverPending
  unfoldable pub recover_pending_ensured : ℕ → World R E → ℕ × Progress × World R E
  unfolding recover_from
  recover_pending_ensured rounds w = recover_from rounds (ensure_group w)

  -- `if ctx.Err() != nil { return nil }`
  stopped : (World R E → Bool) → ConsumerError → World R E → Progress × World R E
  stopped cancelled e w = (returned (if cancelled w then none else some e), w)

  -- The loop of Run; `pages` are the rounds that each recovery may make.
  unfoldable pub run_loop : (World R E → Bool) → ℕ → ℕ → World R E → Progress × World R E
  unfolding stopped
  run_loop cancelled pages zero w = (running, w)
  run_loop cancelled pages (suc rounds) w =
      let r = recover_pending pages w in
      let x = process_batch client parse_uuid next_service config config.batch_size r.2 in
      on_progress r.1 (running, r.2) (λ e. stopped cancelled (recover_failed e) r.2)
        (λ _.
          on_error x.1 (λ e. stopped cancelled e x.2) (λ _. run_loop cancelled pages rounds x.2))

  run_from : (World R E → Bool) → ℕ → ℕ → Option ConsumerError × World R E → Progress × World R E
  unfolding run_loop
  run_from cancelled pages rounds (some e, w) = (returned (some e), w)
  run_from cancelled pages rounds (none, w) = run_loop cancelled pages rounds w

  -- Run
  unfoldable pub run : (World R E → Bool) → ℕ → ℕ → World R E → Progress × World R E
  unfolding run_from
  run cancelled pages rounds w = run_from cancelled pages rounds (ensure_group w)
