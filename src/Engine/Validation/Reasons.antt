-- ===== src/Engine/Validation/Reasons.antt =====
-- Which reason EvaluateBid reports: that of the first check that fails.
use bid_lane.Prelude.{
  ℕ, ◌<◌, ◌≡◌, ◌≢◌, ◌↔◌, inl, inr, true, Option, none, some, [], arith, Ordering-cases, text_eq_iff,
  Option-cases, ◌∙◌, ap,
}
use bid_lane.Prelude.Int.{pos, ◌+ℤ◌, ◌≤ℤ◌, ◌<ℤ◌, eqb_ℤ_iff, +ℤ_parts, -ℤ_parts}
use bid_lane.Go.Int64.{max_int64}
use bid_lane.Go.Time.{zero_time}
use bid_lane.Engine.Validation.{
  BidRejectionReason, auction_id_required, bidder_id_required, idempotency_key_required,
  invalid_amount, submitted_at_required, auction_not_found, effective_close_time_required,
  auction_not_open, bidder_not_registered, bid_at_or_after_close, invalid_current_price,
  invalid_increment, pricing_overflow, bid_below_minimum, BidAttempt, AuctionValidationSnapshot,
  BidValidationResult, auction_state_open,
}
use bid_lane.Engine.Validation.{evaluate_bid, price_checks, auction_checks}
use bid_lane.Engine.Validation.Acceptance.{
  HasInt64Prices, IsAdmissible, evaluate_bid-accepts_iff, is_empty_iff, sub64-max, add64_exact,
}

abbrev pub reason : BidValidationResult → Option BidRejectionReason
reason result = elim result.rejection [ none ↦ none | some event ↦ some event.reason_code ]

-- The order of the checks.
abbrev pub rank : BidRejectionReason → ℕ
rank auction_id_required = 0
rank bidder_id_required = 1
rank idempotency_key_required = 2
rank invalid_amount = 3
rank submitted_at_required = 4
rank auction_not_found = 5
rank effective_close_time_required = 6
rank auction_not_open = 7
rank bidder_not_registered = 8
rank bid_at_or_after_close = 9
rank invalid_current_price = 10
rank invalid_increment = 11
rank pricing_overflow = 12
rank bid_below_minimum = 13

-- What the check behind each reason asks for, in true integers.
abbrev pub Holds : BidRejectionReason → BidAttempt → AuctionValidationSnapshot → Type 0
Holds auction_id_required attempt auction = attempt.auction_id ≢ []
Holds bidder_id_required attempt auction = attempt.bidder_id ≢ []
Holds idempotency_key_required attempt auction = attempt.idempotency_key ≢ []
Holds invalid_amount attempt auction = pos 1 ≤ℤ attempt.amount
Holds submitted_at_required attempt auction = attempt.submitted_at ≢ zero_time
Holds auction_not_found attempt auction = auction.exists ≡ true
Holds effective_close_time_required attempt auction = auction.effective_close_time ≢ zero_time
Holds auction_not_open attempt auction = auction.state ≡ auction_state_open
Holds bidder_not_registered attempt auction = auction.bidder_registered ≡ true
Holds bid_at_or_after_close attempt auction = attempt.submitted_at <ℤ auction.effective_close_time
Holds invalid_current_price attempt auction = pos 0 ≤ℤ auction.current_price
Holds invalid_increment attempt auction = pos 1 ≤ℤ auction.increment
Holds pricing_overflow attempt auction = auction.current_price +ℤ auction.increment ≤ℤ max_int64
Holds bid_below_minimum attempt auction =
    auction.current_price +ℤ auction.increment ≤ℤ attempt.amount

abbrev pub IsFirstFailure : BidRejectionReason → BidAttempt → AuctionValidationSnapshot → Type 0
IsFirstFailure r attempt auction =
    (¬ Holds r attempt auction)
    × ((q : BidRejectionReason) → rank q < rank r → Holds q attempt auction)

module _ (attempt : BidAttempt) (auction : AuctionValidationSnapshot)
    (h : HasInt64Prices auction) where
  abbrev failure : Option BidRejectionReason
  failure = reason (evaluate_bid attempt auction)

  not-Holds : (r : BidRejectionReason) → failure ≡ some r → ¬ Holds r attempt auction
  unfolding evaluate_bid auction_checks price_checks
  not-Holds auction_id_required e = ground (
    arith,
    is_empty_iff attempt.auction_id,
    is_empty_iff attempt.bidder_id,
    is_empty_iff attempt.idempotency_key,
    eqb_ℤ_iff attempt.submitted_at zero_time,
    eqb_ℤ_iff auction.effective_close_time zero_time,
    text_eq_iff auction.state auction_state_open,
    sub64-max auction.increment h.1,
    add64_exact auction.current_price auction.increment,
    -ℤ_parts max_int64 auction.increment,
    +ℤ_parts auction.current_price auction.increment,
  )
  not-Holds _ e = ground (
    arith,
    is_empty_iff attempt.auction_id,
    is_empty_iff attempt.bidder_id,
    is_empty_iff attempt.idempotency_key,
    eqb_ℤ_iff attempt.submitted_at zero_time,
    eqb_ℤ_iff auction.effective_close_time zero_time,
    text_eq_iff auction.state auction_state_open,
    sub64-max auction.increment h.1,
    add64_exact auction.current_price auction.increment,
    -ℤ_parts max_int64 auction.increment,
    +ℤ_parts auction.current_price auction.increment,
  )

  Holds-before :
      (q : BidRejectionReason) {r : BidRejectionReason}
      → failure ≡ some r
      → rank q < rank r
      → Holds q attempt auction
  unfolding evaluate_bid auction_checks price_checks
  Holds-before auction_id_required e lt = ground (
    arith,
    is_empty_iff attempt.auction_id,
    is_empty_iff attempt.bidder_id,
    is_empty_iff attempt.idempotency_key,
    eqb_ℤ_iff attempt.submitted_at zero_time,
    eqb_ℤ_iff auction.effective_close_time zero_time,
    text_eq_iff auction.state auction_state_open,
    sub64-max auction.increment h.1,
    add64_exact auction.current_price auction.increment,
    -ℤ_parts max_int64 auction.increment,
    +ℤ_parts auction.current_price auction.increment,
  )
  Holds-before _ e lt = ground (
    arith,
    is_empty_iff attempt.auction_id,
    is_empty_iff attempt.bidder_id,
    is_empty_iff attempt.idempotency_key,
    eqb_ℤ_iff attempt.submitted_at zero_time,
    eqb_ℤ_iff auction.effective_close_time zero_time,
    text_eq_iff auction.state auction_state_open,
    sub64-max auction.increment h.1,
    add64_exact auction.current_price auction.increment,
    -ℤ_parts max_int64 auction.increment,
    +ℤ_parts auction.current_price auction.increment,
  )

  failure-IsFirstFailure :
      (r : BidRejectionReason) → failure ≡ some r → IsFirstFailure r attempt auction
  failure-IsFirstFailure r e = (not-Holds r e, λ q lt. Holds-before q e lt)

-- An admissible bid passes each of the checks.
IsAdmissible-Holds :
    (attempt : BidAttempt) (auction : AuctionValidationSnapshot)
    → IsAdmissible attempt auction
    → (r : BidRejectionReason) → Holds r attempt auction
IsAdmissible-Holds attempt auction a auction_id_required = a.has_auction_id
IsAdmissible-Holds attempt auction a bidder_id_required = a.has_bidder_id
IsAdmissible-Holds attempt auction a idempotency_key_required = a.has_idempotency_key
IsAdmissible-Holds attempt auction a invalid_amount = a.positive
IsAdmissible-Holds attempt auction a submitted_at_required = a.has_submitted_at
IsAdmissible-Holds attempt auction a auction_not_found = a.found
IsAdmissible-Holds attempt auction a effective_close_time_required = a.has_close_time
IsAdmissible-Holds attempt auction a auction_not_open = a.is_open
IsAdmissible-Holds attempt auction a bidder_not_registered = a.registered
IsAdmissible-Holds attempt auction a bid_at_or_after_close = a.in_time
IsAdmissible-Holds attempt auction a invalid_current_price = a.sound_price
IsAdmissible-Holds attempt auction a invalid_increment = a.sound_increment
IsAdmissible-Holds attempt auction a pricing_overflow = a.fits
IsAdmissible-Holds attempt auction a bid_below_minimum = a.enough

rank-injective : (q r : BidRejectionReason) → rank q ≡ rank r → q ≡ r
rank-injective auction_id_required r e = ground arith
rank-injective _ r e = ground arith

IsFirstFailure-unique :
    (q r : BidRejectionReason) (attempt : BidAttempt) (auction : AuctionValidationSnapshot)
    → IsFirstFailure q attempt auction
    → IsFirstFailure r attempt auction
    → q ≡ r
IsFirstFailure-unique q r attempt auction f g = elim (Ordering-cases (rank q) (rank r)) [
  | inl lt ↦ absurd (f.0 (g.1 q lt))
  | inr (inl e) ↦ rank-injective q r e
  | inr (inr gt) ↦ absurd (g.0 (f.1 r gt))
]

-- A result without a reason is an acceptance.
pub accepted_of_no_reason :
    (attempt : BidAttempt) (auction : AuctionValidationSnapshot)
    → reason (evaluate_bid attempt auction) ≡ none
    → (evaluate_bid attempt auction).accepted ≡ true
unfolding evaluate_bid auction_checks price_checks
accepted_of_no_reason attempt auction e = ground arith

-- For int64 prices, EvaluateBid rejects with a reason exactly when the check behind that reason
-- fails and every check before it, in the order of the code, holds.
pub evaluate_bid-reason_iff :
    (attempt : BidAttempt) (auction : AuctionValidationSnapshot) (r : BidRejectionReason)
    → HasInt64Prices auction
    → (reason (evaluate_bid attempt auction) ≡ some r) ↔ IsFirstFailure r attempt auction
evaluate_bid-reason_iff attempt auction r h = (
  failure-IsFirstFailure attempt auction h r,
  λ f. elim (Option-cases (reason (evaluate_bid attempt auction))) [
    | inl no_reason ↦ absurd (
        f.0 (
          IsAdmissible-Holds attempt auction
            ((evaluate_bid-accepts_iff attempt auction h).0
              (accepted_of_no_reason attempt auction no_reason))
            r))
    | inr (q, e) ↦
        e
        ∙ ap some (
            IsFirstFailure-unique q r attempt auction (failure-IsFirstFailure attempt auction h q e)
              f)
  ],
)
