-- ===== src/Engine/LedgerConsumer/Loops/Tests.antt =====
-- Runs of the loops, and the theorems at such inputs.
use bid_lane.Prelude.{
  ℕ, refl, ◌≡◌, ◌≢◌, ◌<◌, ◌≤◌, ◌⊎◌, inl, inr, ◌∷◌, [], List, none, some, Bool-cases, false, length,
  Text, codes, text_eq, if◌then◌else◌, arith,
}
use bid_lane.Prelude.Int.{ℤ, pos, ltb_ℤ, ◌≤ℤ◌}
use bid_lane.Postgres.Schema.{find_bid}
use bid_lane.Postgres.Numbering.Invariant.{IsLedger}
use bid_lane.Postgres.AntiSnipe.Announcement.{IsAnnounced, announced, bids_of}
use bid_lane.Redis.Message.{XMessage}
use bid_lane.Redis.Client.{reply, nothing}
use bid_lane.Redis.Streams.{
  stream_key, flatten, cursor_of, ensure_consumer_group, auto_claim_pending,
}
use bid_lane.Engine.LedgerConsumer.{running, returned}
use bid_lane.Engine.LedgerConsumer.Sample.{
  client, parse_uuid, quiet, config, world, all_code, start-IsLedger,
}
use bid_lane.Engine.LedgerConsumer.Loops.{
  ensure_group, process_exactly, exact_loop, recover_pending, recover_loop, recover_page,
  recovery_batch, recovery_idle, turn_of, first_cursor, read_count, run,
}
use bid_lane.Engine.LedgerConsumer.Loops.Consistent.{run_consistent}
use bid_lane.Engine.LedgerConsumer.Loops.Recovery.{recover_pending-ne-running}
use bid_lane.Engine.LedgerConsumer.Loops.Returns.{process_exactly-ne-running}
use bid_lane.Engine.LedgerConsumer.Loops.Batch.{read_reply}
use bid_lane.Engine.LedgerConsumer.Loops.Exact.{IsHandled, process_exactly-IsHandled}

-- The entry is claimed, recorded and acknowledged; the second page is the last.
run_recovery :
    let (total, progress, w') = recover_pending client parse_uuid quiet config 5 world in
    (total ≡ 1)
    × (progress ≡ returned none)
    × (w'.redis ≡ codes "8-0" ∷ [])
    × (find_bid 1 1 w'.db.bids ≡ some (pos 1))
unfolding all_code recover_pending recover_loop recover_page recovery_batch recovery_idle turn_of
    auto_claim_pending
run_recovery = (refl, refl, refl, refl)

-- Two deliveries of one bid.
run_exactly :
    let (processed, progress, w') = process_exactly client parse_uuid quiet config 5 2 world in
    (processed ≡ 2) × (progress ≡ returned none) × (w'.redis ≡ codes "8-0" ∷ [])
unfolding all_code process_exactly exact_loop read_count ensure_group ensure_consumer_group
run_exactly = (refl, refl, refl)

counts :
    (count : ℤ) (r r' : List Text) (streams : List (Text × List XMessage))
    → read_reply client parse_uuid quiet config count r ≡ (reply streams, r')
    → pos (length (flatten streams)) ≤ℤ count
unfolding flatten
counts count r r' streams h = elim (Bool-cases (ltb_ℤ (pos 0) count)) [
  | inl e ↦ ground (arith, e, h)
  | inr e ↦ ground (arith, e)
]

process_exactly-IsHandled_example :
    IsHandled client parse_uuid quiet config 2
      (process_exactly client parse_uuid quiet config 5 2 world).0
      (ensure_group client parse_uuid quiet config world).1
      (process_exactly client parse_uuid quiet config 5 2 world).2
process_exactly-IsHandled_example =
    process_exactly-IsHandled client parse_uuid quiet config counts 5 2 world run_exactly.1

rank : Text → List Text → ℕ
rank cursor r = if text_eq cursor first_cursor then 2 else 1

run_consistent_example :
    let w' = (run client parse_uuid quiet config (λ w. false) 5 3 world).1 in
    IsLedger 1 w'.db × IsAnnounced 1 w'.db
unfolding announced bids_of
run_consistent_example =
    run_consistent client parse_uuid quiet config 1 (λ w. false) 5 3 world start-IsLedger refl

delivers :
    (count : ℤ) (r r' : List Text) (streams : List (Text × List XMessage))
    → read_reply client parse_uuid quiet config count r ≡ (reply streams, r')
    → 1 ≤ length (flatten streams)
unfolding flatten
delivers count r r' streams h = elim (Bool-cases (ltb_ℤ (pos 0) count)) [
  | inl e ↦ ground (arith, e, h)
  | inr e ↦ ground (arith, e)
]

waits :
    (count : ℤ) (r r' : List Text)
    → read_reply client parse_uuid quiet config count r ≢ (nothing, r')
waits count r r' h = ground (arith, h)

process_exactly-ne-running_example :
    (process_exactly client parse_uuid quiet config 3 2 world).1 ≢ running
process_exactly-ne-running_example =
    process_exactly-ne-running client parse_uuid quiet config delivers waits 3 2 world (omega arith)

advances :
    (start : Text) (r r' : List Text) (messages : List XMessage) (next : Text)
    → client.x_auto_claim
        (stream_key config.auction_id)
        config.group
        config.consumer
        (recovery_idle config)
        start
        (recovery_batch config)
        r
      ≡ (reply (messages, next), r')
    → (next ≡ first_cursor) ⊎ (rank (cursor_of next) r' < rank start r)
unfolding rank text_eq
advances start r r' messages next h = elim (Bool-cases (text_eq start first_cursor)) [
  | inl e ↦ inr (ground (arith, e, h))
  | inr e ↦ inl (ground (arith, e, h))
]

recover_pending-ne-running_example :
    (recover_pending client parse_uuid quiet config 3 world).1 ≢ running
unfolding rank text_eq
recover_pending-ne-running_example =
    recover_pending-ne-running client parse_uuid quiet config rank advances
      (λ cursor id r. omega arith) 3 world (omega arith)
