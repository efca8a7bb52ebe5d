-- ===== src/Engine/LedgerConsumer/Loops/Recovery.antt =====
-- recoverPending comes to an end: each page moves the cursor on.
use bid_lane.Prelude.{
  ℕ, zero, suc, ◌+◌, ◌≤◌, ◌<◌, ap, ◌∙◌, ◌≡◌, ◌≢◌, ◌⊎◌, inl, inr, ◌∷◌, [], List, Option, none, some,
  Text, text_eq, text_eq_refl, false, if_elim, arith,
}
use bid_lane.Prelude.Int.{pos, leb_ℤ}
use bid_lane.Postgres.Schema.{Uuid}
use bid_lane.Postgres.Transaction.{Service}
use bid_lane.Redis.Message.{BidStreamEntry, XMessage}
use bid_lane.Redis.Client.{RedisClient, reply}
use bid_lane.Redis.Streams as Streams
use bid_lane.Redis.Streams.{Outcome, stream_key, cursor_of, auto_claim_pending}
use bid_lane.Redis.Streams.Inversion.{Claims, auto_claim_pending-Claims}
use bid_lane.Engine.LedgerConsumer.{
  LedgerConsumerConfig, ConsumerError, World, Progress, running, process_entry, process_entries,
}
use bid_lane.Engine.LedgerConsumer.Entry.Round.{process_entry-EntryEffect}
use bid_lane.Engine.LedgerConsumer.Loops.{
  stop, go, turn_of, page_of, recover_page, recover_loop, recover_pending, recovery_batch,
  recovery_idle, first_cursor,
}
use bid_lane.Engine.LedgerConsumer.Loops.Consistent.{on_turn_elim}

turn_of-go :
    (start : Text) (x : Option ConsumerError) (entries : List BidStreamEntry) (next next' : Text)
    → turn_of start x entries next ≡ go next'
    → (x ≡ none) × (next' ≡ next) × (text_eq next first_cursor ≡ false)
unfolding turn_of
turn_of-go start (some e) entries next next' h = cc
turn_of-go start none entries next next' h = ground arith

turn_of-running :
    (start : Text) (x : Option ConsumerError) (entries : List BidStreamEntry) (next : Text)
    → turn_of start x entries next ≢ stop running
unfolding turn_of
turn_of-running start (some e) entries next h = cc
turn_of-running start none entries next h = ground arith

module _ {R E : Type 0} (client : RedisClient R) (parse_uuid : Text → Option Uuid)
    (next_service : E → Service × E) (config : LedgerConsumerConfig E) (rank : Text → R → ℕ)
    (x_auto_claim-advances : (start : Text) (r r' : R) (messages : List XMessage) (next : Text)
      → client.x_auto_claim
          (stream_key config.auction_id)
          config.group
          config.consumer
          (recovery_idle config)
          start
          (recovery_batch config)
          r
        ≡ (reply (messages, next), r')
      → (next ≡ first_cursor) ⊎ (rank (cursor_of next) r' < rank start r))
    (x_ack-keeps : (cursor id : Text) (r : R)
      → rank cursor (client.x_ack (stream_key config.auction_id) config.group (id ∷ []) r).1
        ≤ rank cursor r) where
  entry-keeps :
      (cursor : Text) (entry : BidStreamEntry) (w : World R E)
      → rank cursor (process_entry client parse_uuid next_service config entry w).1.redis
        ≤ rank cursor w.redis
  entry-keeps cursor entry w =
      let h = process_entry-EntryEffect client parse_uuid next_service config entry w in
      elim h.redis [
        | inl same ↦ rw same (omega arith)
        | inr (_, acked) ↦ rw acked (x_ack-keeps cursor entry.id w.redis)
      ]

  entries-keep :
      (cursor : Text) (entries : List BidStreamEntry) (processed : ℕ) (w : World R E)
      → rank cursor
          (process_entries client parse_uuid next_service config entries processed w).2.redis
        ≤ rank cursor w.redis
  unfolding process_entries
  entries-keep cursor [] processed w = omega arith
  entries-keep cursor (entry ∷ entries) processed w =
      let y = process_entry client parse_uuid next_service config entry w in
      ground (arith, entry-keeps cursor entry w, entries-keep cursor entries (processed + 1) y.1)

  page-advances :
      (start : Text) (w : World R E) (y : Outcome (List BidStreamEntry × Text) × R)
      → Claims
          (client.x_auto_claim
            (stream_key config.auction_id)
            config.group
            config.consumer
            (recovery_idle config)
            (cursor_of start)
            (recovery_batch config)
            w.redis)
          y
      → let page = page_of client parse_uuid next_service config w y in
        page.0.1 ≡ none
        → text_eq page.2 first_cursor ≡ false
        → rank (cursor_of page.2) page.0.2.redis < rank (cursor_of start) w.redis
  unfolding page_of
  page-advances start w (Streams.err x, redis) c e more = cc
  page-advances start w (Streams.ok (entries, next), redis) (messages, answer, _) e more =
      elim (x_auto_claim-advances (cursor_of start) w.redis redis messages next answer) [
        | inl last ↦ cc (text_eq_refl first_cursor)
        | inr less ↦
            omega (arith, entries-keep (cursor_of next) entries 0 (record w { redis = redis }))
      ]

  recover_loop-ne-running :
      (rounds : ℕ) (start : Text) (total : ℕ) (w : World R E)
      → rank (cursor_of start) w.redis < rounds
      → (recover_loop client parse_uuid next_service config rounds start total w).1 ≢ running
  unfolding recover_loop recover_page
  recover_loop-ne-running zero start total w enough = absurd (omega arith)
  recover_loop-ne-running (suc rounds) start total w enough =
      let page = recover_page client parse_uuid next_service config start w in
      let x = page.0 in
      on_turn_elim (λ (y : ℕ × Progress × World R E). y.1 ≢ running)
        (turn_of start x.1 page.1 page.2) _ _
        (λ p turn r. turn_of-running start x.1 page.1 page.2 (turn ∙ ap stop r))
        (λ next turn.
          let (ended, same, more) = turn_of-go start x.1 page.1 page.2 next turn in
          let less =
            page-advances start w _
              (auto_claim_pending-Claims client config.auction_id config.group config.consumer
                (recovery_idle config) start (recovery_batch config) w.redis)
              ended more in
          recover_loop-ne-running rounds next (total + x.0) x.2 (rw same (omega (arith, less))))

  -- If each page that XAUTOCLAIM returns is the last one or moves the cursor on, by some measure that
  -- XACK does not raise, then recoverPending returns, within as many pages as the measure says.
  pub recover_pending-ne-running :
      (rounds : ℕ) (w : World R E)
      → rank first_cursor w.redis < rounds
      → (recover_pending client parse_uuid next_service config rounds w).1 ≢ running
  unfolding recover_pending
  recover_pending-ne-running rounds w enough =
      if_elim (λ (y : ℕ × Progress × World R E). y.1 ≢ running)
        (leb_ℤ (recovery_batch config) (pos 0)) _ _ (λ e. cc)
        (recover_loop-ne-running rounds first_cursor 0 w enough)
