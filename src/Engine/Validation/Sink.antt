-- ===== src/Engine/Validation/Sink.antt =====
-- BidValidator: EvaluateBid with its rejections emitted to an event sink. The sink is the
-- caller's: a state and an emission that may fail.
use bid_lane.Prelude.{◌≡◌, ◌⊎◌, inl, inr, true, false, Option, none, some, List, [], ◌∷◌, ◌++◌}
use bid_lane.Engine.Validation.Types.{
  BidAttempt, AuctionValidationSnapshot, BidRejectedEvent, BidValidationResult,
}
use bid_lane.Engine.Validation.{evaluate_bid}
use bid_lane.Engine.Validation.Events.{evaluate_bid-IsReported}

-- The interface BidRejectedEventSink: `some e` is the error e.
pub record BidRejectedEventSink (S E : Type 0) : Type 0 where
  pub emit_bid_rejected : BidRejectedEvent → S → Option E × S

pub record BidValidator (S E : Type 0) : Type 0 where
  pub event_sink : BidRejectedEventSink S E

module _ {S E : Type 0} where
  -- `none` is the error that a sink is required.
  pub new_bid_validator : Option (BidRejectedEventSink S E) → Option (BidValidator S E)
  new_bid_validator none = none
  new_bid_validator (some event_sink) = some (record { event_sink = event_sink })

  report :
      BidValidator S E
      → BidValidationResult
      → Option BidRejectedEvent
      → S
      → BidValidationResult × Option E × S
  report v result none s = (result, none, s)
  report v result (some event) s =
      let (error, s') = v.event_sink.emit_bid_rejected event s in (result, error, s')

  -- The error that comes back is the sink's, wrapped.
  pub validate :
      BidValidator S E
      → BidAttempt
      → AuctionValidationSnapshot
      → S
      → BidValidationResult × Option E × S
  unfolding report
  validate v attempt auction s =
      let result = evaluate_bid attempt auction in report v result result.rejection s

-- A sink that records what it is handed, and fails as it is told.
abbrev pub recorder :
    {E : Type 0} → (BidRejectedEvent → Option E) → BidRejectedEventSink (List BidRejectedEvent) E
recorder fails = record { emit_bid_rejected = λ event log. (fails event, log ++ event ∷ []) }

-- The verdict of Validate is that of EvaluateBid, also where the sink fails. An accepted bid leaves
-- the sink alone; a rejected one emits its event once, and the sink's error is returned.
pub validate-emits :
    {S E : Type 0} (v : BidValidator S E) (attempt : BidAttempt)
    (auction : AuctionValidationSnapshot) (s : S)
    → ((evaluate_bid attempt auction).accepted ≡ true)
        × (validate v attempt auction s ≡ (evaluate_bid attempt auction, none, s))
      ⊎ ((evaluate_bid attempt auction).accepted ≡ false)
        × ((event : BidRejectedEvent) × ((evaluate_bid attempt auction).rejection ≡ some event)
            × (validate v attempt auction s ≡ (
                let (error, s') = v.event_sink.emit_bid_rejected event s in
                (evaluate_bid attempt auction, error, s'))))
unfolding validate
validate-emits v attempt auction s = elim (evaluate_bid-IsReported attempt auction) [
  | inl (accepted, no_event) ↦ inl (accepted, simp (no_event, report))
  | inr (rejected, event) ↦ inr (rejected, (event.0, event.1, simp (event.1, report)))
]
