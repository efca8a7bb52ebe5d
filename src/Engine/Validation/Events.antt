-- ===== src/Engine/Validation/Events.antt =====
-- What EvaluateBid says in its result: the rejection event and the minimum amount.
use bid_lane.Prelude.{
  Option, refl, ◌≡◌, ◌⊎◌, inl, inr, true, false, none, some, arith, sym, subst, Option-cases,
}
use bid_lane.Prelude.Int.{ℤ, pos, ◌+ℤ◌, +ℤ_parts, -ℤ_parts}
use bid_lane.Go.Int64.{max_int64}
use bid_lane.Engine.Validation.{
  BidRejectionReason, bid_below_minimum, BidAttempt, AuctionValidationSnapshot, BidRejectedEvent,
  BidValidationResult, bid_rejected_event_type,
}
use bid_lane.Engine.Validation.{reject, evaluate_bid, price_checks, auction_checks}
use bid_lane.Engine.Validation.Acceptance.{HasInt64Prices, sub64-max, add64_exact}
use bid_lane.Engine.Validation.Reasons.{reason, accepted_of_no_reason}

-- What a rejection event says of the attempt and of the snapshot.
pub record Reports (attempt : BidAttempt) (auction : AuctionValidationSnapshot)
    (event : BidRejectedEvent) : Type 0 where
  pub event_type : event.event_type ≡ bid_rejected_event_type
  pub auction_id : event.auction_id ≡ attempt.auction_id
  pub bidder_id : event.bidder_id ≡ attempt.bidder_id
  pub idempotency_key : event.idempotency_key ≡ attempt.idempotency_key
  pub correlation_id : event.correlation_id ≡ attempt.correlation_id
  pub stream_entry_id : event.stream_entry_id ≡ attempt.stream_entry_id
  pub auction_state : event.auction_state ≡ auction.state
  pub submitted_amount : event.submitted_amount ≡ attempt.amount
  pub current_price : event.current_price ≡ auction.current_price
  pub increment : event.increment ≡ auction.increment
  pub submitted_at : event.submitted_at ≡ attempt.submitted_at
  pub effective_close_time : event.effective_close_time ≡ auction.effective_close_time

-- A result carries an event exactly when it is not an acceptance; the event repeats the attempt
-- and the snapshot, and its required minimum is that of the result.
abbrev pub IsReported : BidAttempt → AuctionValidationSnapshot → BidValidationResult → Type 0
IsReported attempt auction result =
    ((result.accepted ≡ true) × (result.rejection ≡ none))
    ⊎ ((result.accepted ≡ false)
        × ((event : BidRejectedEvent) × (result.rejection ≡ some event)
            × Reports attempt auction event
            × (event.required_minimum ≡ result.minimum_amount)))

-- A result with a reason is what `reject` builds.
evaluate_bid-eq-reject :
    (attempt : BidAttempt) (auction : AuctionValidationSnapshot) (r : BidRejectionReason)
    → reason (evaluate_bid attempt auction) ≡ some r
    → evaluate_bid attempt auction
      ≡ reject attempt auction r (evaluate_bid attempt auction).minimum_amount
unfolding evaluate_bid auction_checks price_checks
evaluate_bid-eq-reject attempt auction r e = ground arith

no_event_of_no_reason :
    (result : BidValidationResult) → reason result ≡ none → result.rejection ≡ none
no_event_of_no_reason result e = ground arith

reject-IsReported :
    (attempt : BidAttempt) (auction : AuctionValidationSnapshot) (r : BidRejectionReason) (m : ℤ)
    → IsReported attempt auction (reject attempt auction r m)
unfolding reject
reject-IsReported attempt auction r m = inr (
  refl,
  (
    _,
    refl,
    record {
      event_type = refl;
      auction_id = refl;
      bidder_id = refl;
      idempotency_key = refl;
      correlation_id = refl;
      stream_entry_id = refl;
      auction_state = refl;
      submitted_amount = refl;
      current_price = refl;
      increment = refl;
      submitted_at = refl;
      effective_close_time = refl;
    },
    refl,
  ),
)

-- EvaluateBid accepts with no event, or rejects with an event that repeats the attempt and the
-- snapshot and has the result's minimum as its required minimum.
pub evaluate_bid-IsReported :
    (attempt : BidAttempt) (auction : AuctionValidationSnapshot)
    → IsReported attempt auction (evaluate_bid attempt auction)
evaluate_bid-IsReported attempt auction =
    elim (Option-cases (reason (evaluate_bid attempt auction))) [
      | inl e ↦ inl (
        accepted_of_no_reason attempt auction e,
        no_event_of_no_reason (evaluate_bid attempt auction) e,
      )
      | inr (r, e) ↦
          subst (IsReported attempt auction) (sym (evaluate_bid-eq-reject attempt auction r e))
            (reject-IsReported attempt auction r _)
    ]

-- The minimum that goes with a verdict (a reason, or none), for the sum of price and increment.
abbrev pub minimum_for : ℤ → Option BidRejectionReason → ℤ
minimum_for sum none = sum
minimum_for sum (some bid_below_minimum) = sum
minimum_for sum (some _) = pos 0

-- For int64 prices, the minimum of an acceptance, and of a rejection for too low an amount, is
-- the price plus the increment, with no wrap-around; that of any other rejection is 0.
pub evaluate_bid-minimum :
    (attempt : BidAttempt) (auction : AuctionValidationSnapshot)
    (verdict : Option BidRejectionReason)
    → HasInt64Prices auction
    → reason (evaluate_bid attempt auction) ≡ verdict
    → (evaluate_bid attempt auction).minimum_amount
      ≡ minimum_for (auction.current_price +ℤ auction.increment) verdict
unfolding evaluate_bid auction_checks price_checks
evaluate_bid-minimum attempt auction none h e = ground (
  arith,
  sub64-max auction.increment h.1,
  add64_exact auction.current_price auction.increment,
  -ℤ_parts max_int64 auction.increment,
  +ℤ_parts auction.current_price auction.increment,
)
evaluate_bid-minimum attempt auction (some r) h e = ground (
  arith,
  sub64-max auction.increment h.1,
  add64_exact auction.current_price auction.increment,
  -ℤ_parts max_int64 auction.increment,
  +ℤ_parts auction.current_price auction.increment,
)
