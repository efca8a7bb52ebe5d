-- ===== src/Engine/LedgerConsumer/Delivery.antt =====
-- Commit before acknowledgement: what processEntries takes off the pending list.
use bid_lane.Prelude.{
  ℕ, ◌+◌, subst, sym, ◌≡◌, ◌≢◌, ◌⊎◌, inl, inr, ◌∷◌, [], Any, here, there, List, Option,
  Option-cases, Bool, Bool-cases, Text, true, text_eq, text_eq_refl, text_eq_sound,
}
use bid_lane.Postgres.Schema.{Uuid}
use bid_lane.Postgres.Transaction.{Service}
use bid_lane.Redis.Message.{BidStreamEntry}
use bid_lane.Redis.Client.{RedisClient}
use bid_lane.Engine.LedgerConsumer.{LedgerConsumerConfig, World, process_entry, process_entries}
use bid_lane.Engine.LedgerConsumer.Entry.{IsSettled}
use bid_lane.Engine.LedgerConsumer.Entry.Round.{process_entry-EntryEffect}
use bid_lane.Engine.LedgerConsumer.Safety.{process_entries-EntriesEffect, IsSettled-submissions}

module _ {R E : Type 0} (client : RedisClient R) (parse_uuid : Text → Option Uuid)
    (next_service : E → Service × E) (config : LedgerConsumerConfig E)
    (is_pending : Text → R → Bool)
    (x_ack-others : (stream group acked id : Text) (r : R)
      → id ≢ acked
      → is_pending id r ≡ true
      → is_pending id (client.x_ack stream group (acked ∷ []) r).1 ≡ true) where
  -- An entry that is pending before a round is so behind it, or it is the round's and settled.
  round_keeps :
      (id : Text) (entry : BidStreamEntry) (w : World R E)
      → is_pending id w.redis ≡ true
      → let w' = (process_entry client parse_uuid next_service config entry w).1 in
        (is_pending id w'.redis ≡ true)
        ⊎ ((entry.id ≡ id) × IsSettled client parse_uuid config entry w'.db)
  round_keeps id entry w pending =
      let h = process_entry-EntryEffect client parse_uuid next_service config entry w in
      elim h.redis [
        | inl same ↦ inl (subst (λ r. is_pending id r ≡ true) (sym same) pending)
        | inr (settled, acked) ↦ elim (Bool-cases (text_eq entry.id id)) [
          | inl e ↦ inr (text_eq_sound entry.id id e, settled)
          | inr e ↦ inl (
              subst (λ r. is_pending id r ≡ true) (sym acked)
                (x_ack-others _ _ entry.id id w.redis (λ same. cc (e, text_eq_refl id, same))
                  pending))
        ]
      ]

  -- If XACK of one entry leaves the others pending: whatever is pending before processEntries is so
  -- behind it, or it is one of its entries that the ledger has on record or the validator rejected.
  pub no_entry_lost :
      (id : Text) (entries : List BidStreamEntry) (processed : ℕ) (w : World R E)
      → is_pending id w.redis ≡ true
      → let w' = (process_entries client parse_uuid next_service config entries processed w).2 in
        (is_pending id w'.redis ≡ true)
        ⊎ Any (λ entry. (entry.id ≡ id) × IsSettled client parse_uuid config entry w'.db) entries
  unfolding process_entries
  no_entry_lost id [] processed w pending = inl pending
  no_entry_lost id (entry ∷ entries) processed w pending =
      let y = process_entry client parse_uuid next_service config entry w in
      elim (Option-cases y.0) [
        | inl e ↦
            rw (process_entries, e)
              (elim (round_keeps id entry w pending) [
                | inl still ↦ elim (no_entry_lost id entries (processed + 1) y.1 still) [
                  | inl p ↦ inl p
                  | inr a ↦ inr (there a)
                ]
                | inr (same, settled) ↦
                    let more =
                      process_entries-EntriesEffect client parse_uuid next_service config entries
                        (processed + 1) y.1 in
                    inr (
                      here (
                        same,
                        subst (IsSettled client parse_uuid config entry) (sym more.database) (
                            IsSettled-submissions client parse_uuid next_service config entry
                              more.calls y.1.db settled),
                      ))
              ])
        | inr (x, e) ↦
            rw (process_entries, e)
              (elim (round_keeps id entry w pending) [
                | inl still ↦ inl still
                | inr h ↦ inr (here h)
              ])
      ]
