-- ===== src/Engine/Validation.antt =====
-- internal/engine/bid_validation.go: a bid attempt is judged against a snapshot of its auction.
-- Strings are byte sequences, int64 values are integers, times are instants (Go.Time). The proofs
-- are in the modules below; Sink models BidValidator, which reports rejections.
mod Types
pub mod Acceptance
pub mod Reasons
pub mod Events
pub mod Sink
mod Tests
pub use Types.*
use bid_lane.Prelude.{
  ℕ, zero, suc, Bool, true, false, not, none, some, is_empty, text_eq, if◌then◌else◌,
}
use bid_lane.Prelude.Int.{ℤ, pos, ltb_ℤ, leb_ℤ}
use bid_lane.Go.Int64.{max_int64, add64, sub64}
use bid_lane.Go.Time.{is_zero, before}

-- The closure `reject` of EvaluateBid.
reject : BidAttempt → AuctionValidationSnapshot → BidRejectionReason → ℤ → BidValidationResult
reject attempt auction reason minimum_amount = record {
  accepted = false;
  minimum_amount = minimum_amount;
  rejection = some (record {
    event_type = bid_rejected_event_type;
    reason_code = reason;
    auction_id = attempt.auction_id;
    bidder_id = attempt.bidder_id;
    idempotency_key = attempt.idempotency_key;
    correlation_id = attempt.correlation_id;
    stream_entry_id = attempt.stream_entry_id;
    auction_state = auction.state;
    submitted_amount = attempt.amount;
    current_price = auction.current_price;
    increment = auction.increment;
    required_minimum = minimum_amount;
    submitted_at = attempt.submitted_at;
    effective_close_time = auction.effective_close_time;
  });
}

-- From the price checks on.
price_checks : BidAttempt → AuctionValidationSnapshot → BidValidationResult
unfolding reject add64 sub64
price_checks attempt auction =
    if ltb_ℤ auction.current_price (pos 0)
    then reject attempt auction invalid_current_price (pos 0)
    else if leb_ℤ auction.increment (pos 0)
    then reject attempt auction invalid_increment (pos 0)
    else if ltb_ℤ (sub64 max_int64 auction.increment) auction.current_price
    then reject attempt auction pricing_overflow (pos 0)
    else let minimum_amount = add64 auction.current_price auction.increment in
      if ltb_ℤ attempt.amount minimum_amount
      then reject attempt auction bid_below_minimum minimum_amount
      else record { accepted = true; minimum_amount = minimum_amount; rejection = none }

-- From the check that the auction exists on.
auction_checks : BidAttempt → AuctionValidationSnapshot → BidValidationResult
unfolding reject
auction_checks attempt auction =
    if not auction.exists
    then reject attempt auction auction_not_found (pos 0)
    else if is_zero auction.effective_close_time
    then reject attempt auction effective_close_time_required (pos 0)
    else if not (text_eq auction.state auction_state_open)
    then reject attempt auction auction_not_open (pos 0)
    else if not auction.bidder_registered
    then reject attempt auction bidder_not_registered (pos 0)
    else if not (before attempt.submitted_at auction.effective_close_time)
    then reject attempt auction bid_at_or_after_close (pos 0)
    else price_checks attempt auction

pub evaluate_bid : BidAttempt → AuctionValidationSnapshot → BidValidationResult
unfolding reject
evaluate_bid attempt auction =
    if is_empty attempt.auction_id
    then reject attempt auction auction_id_required (pos 0)
    else if is_empty attempt.bidder_id
    then reject attempt auction bidder_id_required (pos 0)
    else if is_empty attempt.idempotency_key
    then reject attempt auction idempotency_key_required (pos 0)
    else if leb_ℤ attempt.amount (pos 0)
    then reject attempt auction invalid_amount (pos 0)
    else if is_zero attempt.submitted_at
    then reject attempt auction submitted_at_required (pos 0)
    else auction_checks attempt auction
