-- ===== src/Engine/LedgerConsumer/Entry/Round.antt =====
-- One round: the validator, the ledger, the acknowledgement.
use bid_lane.Prelude.{
  ap, refl, subst, sym, ◌≡◌, inl, inr, ◌∷◌, [], Option, none, some, Bool-cases, Text,
}
use bid_lane.Go.Time.{Time}
use bid_lane.Postgres.Schema.{Uuid, Db}
use bid_lane.Postgres.Statements.{BidToPersist}
use bid_lane.Postgres.Transaction as Transaction
use bid_lane.Postgres.Transaction.{Service, Result}
use bid_lane.Postgres.AntiSnipe.{AntiSnipeAppendResult, append_bid_idempotent_with_anti_snipe}
use bid_lane.Postgres.AntiSnipe.Effects.{Effect, append-Effect}
use bid_lane.Postgres.AntiSnipe.Retry as Retry
use bid_lane.Redis.Message.{BidStreamEntry}
use bid_lane.Redis.Client.{RedisClient}
use bid_lane.Engine.LedgerConsumer.{
  Attempt, done, failed, LedgerConsumerConfig, Validation, validated, validation_error, World,
  recorded, persist_read, persist_entry, persist_and_ack, judged, process_entry, checked,
}
use bid_lane.Engine.LedgerConsumer.Entry.{submissions, IsBidOf, EntryEffect}
use bid_lane.Engine.LedgerConsumer.Entry.Acked.{
  Persists, stopped, ack_effect, after_persisting_effect,
}
use bid_lane.Engine.LedgerConsumer.Entry.Read.{read_entry_sound}

module _ {R E : Type 0} (client : RedisClient R) (parse_uuid : Text → Option Uuid)
    (next_service : E → Service × E) (config : LedgerConsumerConfig E) where
  recorded_effect :
      (entry : BidStreamEntry) (w : World R E) (s : Service) (e : E) (bid : BidToPersist) (t : Time)
      (y : Result AntiSnipeAppendResult × Db)
      → append_bid_idempotent_with_anti_snipe s bid t w.db ≡ y
      → parse_uuid entry.auction_id ≡ some bid.auction_id
      → parse_uuid entry.idempotency_key ≡ some bid.idempotency_key
      → Persists client parse_uuid next_service config entry w
          (recorded client parse_uuid next_service config e y w.redis)
  unfolding recorded submissions
  recorded_effect entry w s e bid t (Transaction.ok r, db) h a k = (
    (refl, ((s, (bid, t)) ∷ [], sym (ap (λ (y : Result AntiSnipeAppendResult × Db). y.1) h))),
    (
      bid.auction_id,
      bid.idempotency_key,
      r.result.sequence_number,
      a,
      k,
      Retry.recorded s bid t w.db db r (subst (Effect s bid t w.db) h (append-Effect s bid t w.db)),
    ),
  )
  recorded_effect entry w s e bid t (Transaction.err x, db) h a k =
      (refl, ((s, (bid, t)) ∷ [], sym (ap (λ (y : Result AntiSnipeAppendResult × Db). y.1) h)))

  -- What is known of the bid that was read.
  abbrev ReadsFrom : BidStreamEntry → Attempt (BidToPersist × Time) → Type 0
  ReadsFrom entry (failed x) = Unit
  ReadsFrom entry (done (bid, t)) = IsBidOf parse_uuid entry bid t

  ReadsFrom-of :
      (entry : BidStreamEntry) (y : Attempt (BidToPersist × Time))
      → ((bid : BidToPersist) (t : Time) → y ≡ done (bid, t) → ReadsFrom entry (done (bid, t)))
      → ReadsFrom entry y
  ReadsFrom-of entry (failed x) h = tt
  ReadsFrom-of entry (done (bid, t)) h = h bid t refl

  persist_read_effect :
      (entry : BidStreamEntry) (w : World R E) (y : Attempt (BidToPersist × Time))
      → ReadsFrom entry y
      → Persists client parse_uuid next_service config entry w
          (persist_read client parse_uuid next_service config y w)
  unfolding persist_read submissions
  persist_read_effect entry w (failed x) h = (refl, ([], refl))
  persist_read_effect entry w (done (bid, t)) h =
      recorded_effect entry w (next_service w.env).0 _ bid t _ refl h.auction h.key

  persist_and_ack_effect :
      (entry : BidStreamEntry) (w : World R E)
      → EntryEffect client parse_uuid config entry w
          (persist_and_ack client parse_uuid next_service config entry w)
  unfolding persist_and_ack persist_entry
  persist_and_ack_effect entry w =
      after_persisting_effect client parse_uuid next_service config entry w _ (
        persist_read_effect entry w _
          (ReadsFrom-of entry _ (read_entry_sound client parse_uuid next_service config entry)))

  -- The callback's state is not part of what a round does.
  persist_and_ack_moved :
      (entry : BidStreamEntry) (w : World R E) (e : E)
      → EntryEffect client parse_uuid config entry w
          (persist_and_ack client parse_uuid next_service config entry (record w { env = e }))
  persist_and_ack_moved entry w e =
      let h = persist_and_ack_effect entry (record w { env = e }) in
      record { calls = h.calls; database = h.database; redis = h.redis; success = h.success }

  judged_effect :
      (entry : BidStreamEntry) (w : World R E) (validate : BidStreamEntry → E → Validation × E)
      (y : Validation × E)
      → config.validate_entry ≡ some validate
      → validate entry w.env ≡ y
      → EntryEffect client parse_uuid config entry w
          (judged client parse_uuid next_service config entry w y)
  unfolding judged submissions
  judged_effect entry w validate (validation_error x, e) c h =
      stopped client parse_uuid next_service config entry w (record w { env = e }) _
        (refl, ([], refl))
  judged_effect entry w validate (validated v, e) c h = elim (Bool-cases v.accepted) [
    | inl t ↦ rw t (persist_and_ack_moved entry w e)
    | inr f ↦ rw f (
        ack_effect client parse_uuid next_service config _ entry w (record w { env = e })
          (refl, ([], refl)) (inr (validate, w.env, v, c, ap (λ (y : Validation × E). y.0) h, f)))
  ]

  checked_effect :
      (validate : Option (BidStreamEntry → E → Validation × E)) (entry : BidStreamEntry)
      (w : World R E)
      → config.validate_entry ≡ validate
      → EntryEffect client parse_uuid config entry w
          (checked client parse_uuid next_service config validate entry w)
  unfolding checked
  checked_effect none entry w c = persist_and_ack_effect entry w
  checked_effect (some validate) entry w c = judged_effect entry w validate _ c refl

  pub process_entry-EntryEffect :
      (entry : BidStreamEntry) (w : World R E)
      → EntryEffect client parse_uuid config entry w
          (process_entry client parse_uuid next_service config entry w)
  unfolding process_entry
  process_entry-EntryEffect entry w = checked_effect config.validate_entry entry w refl
