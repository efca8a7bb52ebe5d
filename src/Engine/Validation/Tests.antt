-- ===== src/Engine/Validation/Tests.antt =====
-- Runs of the validation on concrete bids, and the theorems at such inputs.
use bid_lane.Prelude.{refl, ◌≡◌, ◌↔◌, ◌⊎◌, true, false, none, some, List, [], arith, codes, text_eq}
use bid_lane.Prelude.Int.{pos, ◌+ℤ◌, ◌-ℤ◌}
use bid_lane.Go.Int64.{max_int64, wrap64}
use bid_lane.Engine.Validation.Types.{
  BidAttempt, AuctionValidationSnapshot, BidRejectedEvent, auction_state_open, auction_state_paused,
  bid_below_minimum, bid_at_or_after_close, pricing_overflow, auction_not_open,
}
use bid_lane.Engine.Validation.{evaluate_bid, auction_checks, price_checks}
use bid_lane.Engine.Validation.Acceptance.{IsAdmissible, evaluate_bid-accepts_iff}
use bid_lane.Engine.Validation.Reasons.{reason, IsFirstFailure, evaluate_bid-reason_iff}
use bid_lane.Engine.Validation.Events.{IsReported, evaluate_bid-IsReported}
use bid_lane.Engine.Validation.Sink.{BidValidator, recorder, validate, validate-emits}

-- What a run computes with.
all_code : Unit {0}
unfolding evaluate_bid auction_checks price_checks text_eq wrap64 ◌-ℤ◌ ◌+ℤ◌
all_code = tt

abbrev attempt : BidAttempt
attempt = record {
  auction_id = codes "a1";
  bidder_id = codes "b1";
  amount = pos 110;
  idempotency_key = codes "k1";
  correlation_id = codes "c1";
  stream_entry_id = codes "5-0";
  submitted_at = pos 5000;
}

abbrev auction : AuctionValidationSnapshot
auction = record {
  exists = true;
  state = auction_state_open;
  current_price = pos 100;
  increment = pos 10;
  bidder_registered = true;
  effective_close_time = pos 9000;
}

accepts_enough : (evaluate_bid attempt auction).accepted ≡ true
unfolding all_code
accepts_enough = refl

rejects_too_little :
    reason (evaluate_bid (record attempt { amount = pos 109 }) auction) ≡ some bid_below_minimum
unfolding all_code
rejects_too_little = refl

rejects_at_close :
    reason (evaluate_bid (record attempt { submitted_at = pos 9000 }) auction)
    ≡ some bid_at_or_after_close
unfolding all_code
rejects_at_close = refl

rejects_paused :
    reason (evaluate_bid attempt (record auction { state = auction_state_paused }))
    ≡ some auction_not_open
unfolding all_code
rejects_paused = refl

rejects_overflow :
    reason (evaluate_bid attempt (record auction { current_price = max_int64 }))
    ≡ some pricing_overflow
unfolding all_code
rejects_overflow = refl

evaluate_bid-accepts_iff_example :
    ((evaluate_bid attempt auction).accepted ≡ true) ↔ IsAdmissible attempt auction
evaluate_bid-accepts_iff_example = evaluate_bid-accepts_iff attempt auction (omega arith)

evaluate_bid-reason_iff_example :
    (reason (evaluate_bid (record attempt { amount = pos 109 }) auction) ≡ some bid_below_minimum)
    ↔ IsFirstFailure bid_below_minimum (record attempt { amount = pos 109 }) auction
evaluate_bid-reason_iff_example =
    evaluate_bid-reason_iff (record attempt { amount = pos 109 }) auction bid_below_minimum
      (omega arith)

evaluate_bid-IsReported_example : IsReported attempt auction (evaluate_bid attempt auction)
evaluate_bid-IsReported_example = evaluate_bid-IsReported attempt auction

-- A validator whose sink records events, and refuses them all with the error `tt`.
abbrev refusing : BidValidator (List BidRejectedEvent) (Unit {0})
refusing = record { event_sink = recorder (λ event. some tt) }

validate-emits_example :
    ((evaluate_bid attempt auction).accepted ≡ true)
      × (validate refusing attempt auction [] ≡ (evaluate_bid attempt auction, none, []))
    ⊎ ((evaluate_bid attempt auction).accepted ≡ false)
      × ((event : BidRejectedEvent) × ((evaluate_bid attempt auction).rejection ≡ some event)
          × (validate refusing attempt auction [] ≡ (
              let (error, s') = refusing.event_sink.emit_bid_rejected event [] in
              (evaluate_bid attempt auction, error, s'))))
validate-emits_example = validate-emits refusing attempt auction []
